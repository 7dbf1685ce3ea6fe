-- ===== src/Encodings/Compression.antt =====
-- `Sha256Stream::process_block` (src/studio_host.cpp) is the compression of the standard.
use streammate_studio_host.Prelude.{
  ℕ, zero, suc, ◌+◌, ◌*◌, ◌%◌, ◌^◌, ◌≡◌, refl, ap, ◌∙◌, List, [], ◌∷◌, Bytes, arith,
}
use streammate_studio_host.Encodings.Sha256.{
  add, rotr, k_round, block_words, extended, reversed, Words, round, rounds, process_block,
  new_stream,
}
use streammate_studio_host.Encodings.Standard.{
  Hash, words_of, onto, schedule, step, steps, compress, round_constants, initial_hash,
  cube_root_fraction, square_root_fraction, largest, big_sigma0, big_sigma1, choice, majority,
  small_sigma0, small_sigma1, back, sum,
}

-- The eight words of the code as those of the standard.
abbrev pub hash : Words → Hash
hash v = record { a = v.a; b = v.b; c = v.c; d = v.d; e = v.e; f = v.f; g = v.g; h = v.h }

k_round-round_constants : k_round ≡ round_constants
unfolding k_round round_constants cube_root_fraction largest
k_round-round_constants = refl

pub hash-new_stream : hash new_stream.h ≡ initial_hash
unfolding initial_hash square_root_fraction largest
hash-new_stream = refl

block_words-onto : (p : Bytes) (w : List ℕ) → block_words p w ≡ onto (words_of p) w
unfolding block_words onto words_of
block_words-onto [] w = refl
block_words-onto (a ∷ []) w = refl
block_words-onto (a ∷ b ∷ []) w = refl
block_words-onto (a ∷ b ∷ c ∷ []) w = refl
block_words-onto (a ∷ b ∷ c ∷ d ∷ t) w =
    let e : a * 2 ^ 24 + b * 2 ^ 16 + c * 2 ^ 8 + d ≡ ((a * 256 + b) * 256 + c) * 256 + d =
      omega arith in
    ap (λ x. block_words t (x ∷ w)) e ∙ block_words-onto t _

reversed-onto : (xs ys : List ℕ) → reversed xs ys ≡ onto xs ys
unfolding reversed onto
reversed-onto [] ys = refl
reversed-onto (x ∷ xs) ys = reversed-onto xs (x ∷ ys)

add_four : (a b c d : ℕ) → add (add (add a b) c) d ≡ (d + c + b + a) % 2 ^ 32
add_four a b c d = omega arith

extended-schedule : (n : ℕ) (w : List ℕ) → extended n w ≡ schedule n w
unfolding extended schedule rotr
extended-schedule zero w = refl
extended-schedule (suc n) w =
    ap (λ x. extended n (x ∷ w))
      (add_four (back 16 w) (small_sigma0 (back 15 w)) (back 7 w) (small_sigma1 (back 2 w)))
    ∙ extended-schedule n _

add_temps :
    (h s ch k w s0 m : ℕ)
    → add (add (add (add (add h s) ch) k) w) (add s0 m) ≡ (h + s + ch + k + w + (s0 + m)) % 2 ^ 32
add_temps h s ch k w s0 m = omega arith

add_temp1 :
    (d h s ch k w : ℕ)
    → add d (add (add (add (add h s) ch) k) w) ≡ (d + (h + s + ch + k + w)) % 2 ^ 32
add_temp1 d h s ch k w = omega arith

round-step : (k w : ℕ) (v : Words) → hash (round k w v) ≡ step k w (hash v)
unfolding round step rotr
round-step k w v =
    ap
      (λ x. record {
        a = x;
        b = v.a;
        c = v.b;
        d = v.c;
        e = (hash (round k w v)).e;
        f = v.e;
        g = v.f;
        h = v.g;
      })
      (add_temps v.h (big_sigma1 v.e) (choice v.e v.f v.g) k w (big_sigma0 v.a)
        (majority v.a v.b v.c))
    ∙ ap
        (λ x. record {
          a = (step k w (hash v)).a;
          b = v.a;
          c = v.b;
          d = v.c;
          e = x;
          f = v.e;
          g = v.f;
          h = v.g;
        })
        (add_temp1 v.d v.h (big_sigma1 v.e) (choice v.e v.f v.g) k w)

rounds-steps : (ks ws : List ℕ) (v : Words) → hash (rounds ks ws v) ≡ steps ks ws (hash v)
unfolding rounds steps
rounds-steps [] ws v = refl
rounds-steps (k ∷ ks) [] v = refl
rounds-steps (k ∷ ks) (w ∷ ws) v =
    rounds-steps ks ws (round k w v) ∙ ap (steps ks ws) (round-step k w v)

pub process_block-compress :
    (block : Bytes) (h : Words) → hash (process_block block h) ≡ compress block (hash h)
unfolding process_block compress
process_block-compress block h = ap (sum (hash h)) (
    rounds-steps k_round (reversed (extended 48 (block_words block [])) []) h
    ∙ ap (λ ks. steps ks (reversed (extended 48 (block_words block [])) []) (hash h))
        k_round-round_constants
    ∙ ap (λ ws. steps round_constants ws (hash h))
        (reversed-onto (extended 48 (block_words block [])) []
          ∙ ap (λ w. onto w [])
              (extended-schedule 48 (block_words block [])
                ∙ ap (schedule 48) (block_words-onto block []))))

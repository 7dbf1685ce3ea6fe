-- ===== src/Encodings/Reference.antt =====
-- `Sha256Stream` (src/studio_host.cpp) from its first byte to its digest, against the standard.
use streammate_studio_host.Prelude.{
  ℕ, zero, suc, ◌+◌, ◌*◌, ◌-◌, ◌/◌, ◌%◌, ◌^◌, ◌≤◌, ◌<◌, ◌≡◌, refl, sym, ap, subst, ◌∙◌, [], ◌∷◌,
  ◌++◌, ◌==◌, leb, if◌then◌else◌, Bytes, length, length-append, take, drop, replicate, length-drop,
  length-take, take-append-drop, if_holds, ==_iff, arith, false,
}
use streammate_studio_host.Encodings.Sha256.{
  Words, Sha256Stream, new_stream, process_block, update, padded, pad_zeros, length_bytes,
}
use streammate_studio_host.Encodings.Chunks.{
  core, settled, feed, feed-append, feed-settled, feed-short, core-update, total-update,
  short-update,
}

-- How many zeros bring a buffer of so many bytes to 56.
unfoldable pub zeros_for : ℕ → ℕ
zeros_for l = if leb l 56 then 56 - l else 120 - l

-- The message, a one bit, zeros, and the length in bits.
unfoldable pub pad : Bytes → Bytes
unfolding zeros_for length_bytes
pad m =
    m
    ++ 0x80
      ∷ (replicate (zeros_for ((length m + 1) % 64)) 0
          ++ length_bytes (length m % 2 ^ 64 * 8 % 2 ^ 64))

unfoldable pub process_blocks : ℕ → Bytes → Words → Words
process_blocks zero text h = h
process_blocks (suc n) text h = process_blocks n (drop 64 text) (process_block (take 64 text) h)

-- The buffer holds what is behind the last whole block.
length-feed :
    (d : Bytes) (p : Words × Bytes)
    → length p.1 < 64
    → length (feed d p).1 ≡ (length p.1 + length d) % 64
unfolding feed settled
length-feed [] p l = omega arith
length-feed (c ∷ d) p l =
    length-feed d (settled (p.1 ++ c ∷ []) p.0) (feed-short (c ∷ []) p l) ∙ omega (arith, one)
  where
    one : length (settled (p.1 ++ c ∷ []) p.0).1 ≡ (length p.1 + 1) % 64
    one =
        let e = length-append p.1 (c ∷ []) in
        if_holds (λ (x : Words × Bytes). length x.1 ≡ (length p.1 + 1) % 64)
          (length (p.1 ++ c ∷ []) == 64)
          (λ full. omega (arith, e, (==_iff (length (p.1 ++ c ∷ [])) 64).0 full))
          λ room. ground (arith, e)

-- Whole blocks leave the buffer empty.
feed-blocks :
    (n : ℕ) (t : Bytes) (h : Words)
    → length t ≡ n * 64
    → feed t (h, []) ≡ (process_blocks n t h, [])
unfolding process_blocks feed settled
feed-blocks zero [] h e = refl
feed-blocks zero (c ∷ t) h e = absurd (omega arith)
feed-blocks (suc n) [] h e = absurd (omega arith)
feed-blocks (suc n) (c ∷ t) h e =
    ap (λ x. feed x (h, [])) (sym (take-append-drop 64 (c ∷ t)))
    ∙ feed-append (take 64 (c ∷ t)) (drop 64 (c ∷ t)) (h, [])
    ∙ ap (feed (drop 64 (c ∷ t)))
        (feed-settled c (take 63 t) [] h (omega (arith, length-take 63 t)) ∙ whole)
    ∙ feed-blocks n (drop 64 (c ∷ t)) (process_block (take 64 (c ∷ t)) h)
        (omega (arith, length-drop 63 t))
  where
    whole : settled (c ∷ take 63 t) h ≡ (process_block (c ∷ take 63 t) h, [])
    whole =
        if_holds (λ x. x ≡ (process_block (c ∷ take 63 t) h, [])) (length (c ∷ take 63 t) == 64)
          (λ full. refl)
          λ room.
            let full : suc (length (take 63 t)) ≡ 64 = omega (arith, length-take 63 t) in
            cc (room, (==_iff (suc (length (take 63 t))) 64).1 full)

zeros_for-suc : (l : ℕ) → l < 64 → (l == 56) ≡ false → zeros_for l ≡ suc (zeros_for ((l + 1) % 64))
unfolding zeros_for
zeros_for-suc l h e = ground arith

-- The zeros of `finish_hex`.
core-pad_zeros :
    (fuel : ℕ) (s : Sha256Stream)
    → zeros_for (length s.buffer) ≤ fuel
    → length s.buffer < 64
    → core (pad_zeros fuel s) ≡ feed (replicate (zeros_for (length s.buffer)) 0) (core s)
unfolding pad_zeros feed zeros_for
core-pad_zeros zero s f l =
    let none_left : zeros_for (length s.buffer) ≡ 0 = ground arith in
    ap (λ k. feed (replicate k 0) (core s)) (sym none_left)
core-pad_zeros (suc fuel) s f l =
    if_holds (λ s'. core s' ≡ feed (replicate (zeros_for (length s.buffer)) 0) (core s))
      (length s.buffer == 56)
      (λ e.
        let none_left : zeros_for (length s.buffer) ≡ 0 = ground arith in
        ap (λ k. feed (replicate k 0) (core s)) (sym none_left))
      λ e.
        let s' = update (0 ∷ []) s in
        let next : length s'.buffer ≡ (length s.buffer + 1) % 64 =
          ap (λ p. length p.1) (core-update (0 ∷ []) s l) ∙ length-feed (0 ∷ []) (core s) l in
        let one_less : zeros_for (length s.buffer) ≡ suc (zeros_for (length s'.buffer)) =
          zeros_for-suc (length s.buffer) l e ∙ ap (λ k. suc (zeros_for k)) (sym next) in
        core-pad_zeros fuel s' (omega (arith, one_less)) (short-update (0 ∷ []) s l)
        ∙ ap (feed (replicate (zeros_for (length s'.buffer)) 0)) (core-update (0 ∷ []) s l)
        ∙ ap (λ k. feed (replicate k 0) (core s)) (sym one_less)

zeros_for-le : (l : ℕ) → l < 64 → zeros_for l ≤ 64
unfolding zeros_for
zeros_for-le l h = ground arith

length-replicate : (n b : ℕ) → length (replicate n b) ≡ n
length-replicate zero b = refl
length-replicate (suc n) b = ap suc (length-replicate n b)

padded_length : (l : ℕ) → (l + 1 + zeros_for ((l + 1) % 64) + 8) % 64 ≡ 0
unfolding zeros_for
padded_length l = ground arith

length-pad : (m : Bytes) → length (pad m) ≡ length (pad m) / 64 * 64
unfolding pad length_bytes
length-pad m =
    let zeros : Bytes = replicate (zeros_for ((length m + 1) % 64)) 0 in
    let bits = length_bytes (length m % 2 ^ 64 * 8 % 2 ^ 64) in
    omega (
      arith,
      length-append m (0x80 ∷ (zeros ++ bits)),
      length-append zeros bits,
      length-replicate (zeros_for ((length m + 1) % 64)) 0,
      padded_length (length m),
    )

core-padded :
    (s : Sha256Stream)
    → length s.buffer < 64
    → core (padded s)
      ≡ feed
          (0x80
            ∷ (replicate (zeros_for ((length s.buffer + 1) % 64)) 0
                ++ length_bytes (s.total * 8 % 2 ^ 64)))
          (core s)
unfolding padded feed
core-padded s l =
    let marked = update (0x80 ∷ []) s in
    let short = short-update (0x80 ∷ []) s l in
    let count : length marked.buffer ≡ (length s.buffer + 1) % 64 =
      ap (λ p. length p.1) (core-update (0x80 ∷ []) s l) ∙ length-feed (0x80 ∷ []) (core s) l in
    let bits = length_bytes (s.total * 8 % 2 ^ 64) in
    let zeros = replicate (zeros_for (length marked.buffer)) 0 in
    let filled_up = core-pad_zeros 64 marked (zeros_for-le _ short) short in
    core-update bits (pad_zeros 64 marked)
      (subst (λ p. length p.1 < 64) (sym filled_up) (feed-short zeros (core marked) short))
    ∙ ap (feed bits) filled_up
    ∙ sym (feed-append zeros bits (core marked))
    ∙ ap (feed (zeros ++ bits)) (core-update (0x80 ∷ []) s l)
    ∙ ap (λ k. feed (0x80 ∷ (replicate (zeros_for k) 0 ++ bits)) (core s)) count

pub core-padded-update :
    (m : Bytes)
    → core (padded (update m new_stream))
      ≡ (process_blocks (length (pad m) / 64) (pad m) new_stream.h, [])
unfolding pad
core-padded-update m =
    let s = update m new_stream in
    let e = core-update m new_stream (omega arith) in
    let l = short-update m new_stream (omega arith) in
    let count : (length s.buffer + 1) % 64 ≡ (length m + 1) % 64 =
      omega (arith, ap (λ p. length p.1) e, length-feed m (core new_stream) (omega arith)) in
    let total : s.total ≡ length m % 2 ^ 64 =
      total-update m new_stream ∙ ap (λ n. n % 2 ^ 64) (omega arith) in
    let rest : ℕ → ℕ → Bytes =
      λ k t. 0x80 ∷ (replicate (zeros_for k) 0 ++ length_bytes (t * 8 % 2 ^ 64)) in
    core-padded s l
    ∙ ap (λ k. feed (rest k s.total) (core s)) count
    ∙ ap (λ t. feed (rest ((length m + 1) % 64) t) (core s)) total
    ∙ ap (feed (rest ((length m + 1) % 64) (length m % 2 ^ 64))) e
    ∙ sym (feed-append m (rest ((length m + 1) % 64) (length m % 2 ^ 64)) (core new_stream))
    ∙ feed-blocks (length (pad m) / 64) (pad m) new_stream.h (length-pad m)

-- ===== src/Encodings/Chunks.antt =====
-- Streaming through `Sha256Stream` in chunks, against one pass byte by byte.
use streammate_studio_host.Prelude.{
  ℕ, zero, suc, ◌+◌, ◌-◌, ◌%◌, ◌^◌, ◌≤◌, ◌<◌, min, ◌≡◌, refl, sym, ap, subst, ◌∙◌, List, [], ◌∷◌,
  ◌++◌, append_assoc, append-nil, ◌==◌, if◌then◌else◌, Bytes, length, length-append, take, drop,
  length-drop, length-take, take-append-drop, if_holds, arith,
}
use streammate_studio_host.Encodings.Sha256.{
  Words, Sha256Stream, new_stream, process_block, filled, update_loop, update, finish_hex,
  sha256_hex_of_bytes,
}

-- The hash and the buffer of a stream.
abbrev pub core : Sha256Stream → Words × Bytes
core s = (s.h, s.buffer)

unfoldable pub settled : Bytes → Words → Words × Bytes
settled buffer h = if length buffer == 64 then (process_block buffer h, []) else (h, buffer)

-- One byte at a time.
unfoldable pub feed : Bytes → Words × Bytes → Words × Bytes
unfolding settled
feed [] p = p
feed (c ∷ t) p = feed t (settled (p.1 ++ c ∷ []) p.0)

core-filled : (b : Bytes) (s : Sha256Stream) → core (filled b s) ≡ settled b s.h
unfolding filled settled
core-filled b s = ground arith

pub feed-append : (a b : Bytes) (p : Words × Bytes) → feed (a ++ b) p ≡ feed b (feed a p)
unfolding feed
feed-append [] b p = refl
feed-append (c ∷ a) b p = feed-append a b (settled (p.1 ++ c ∷ []) p.0)

settled_short : (b : Bytes) (h : Words) → length b < 64 → settled b h ≡ (h, b)
unfolding settled
settled_short b h l = ground arith

length-settled : (b : Bytes) (h : Words) → length b ≤ 64 → length (settled b h).1 < 64
unfolding settled
length-settled b h l = ground arith

-- Bytes that fit the buffer may come at once.
pub feed-settled :
    (c : ℕ) (d b : Bytes) (h : Words)
    → length b + suc (length d) ≤ 64
    → feed (c ∷ d) (h, b) ≡ settled (b ++ c ∷ d) h
unfolding feed
feed-settled c [] b h l = refl
feed-settled c (e ∷ d) b h l =
    ap (feed (e ∷ d)) (settled_short (b ++ c ∷ []) h (omega (arith, length-append b (c ∷ []))))
    ∙ feed-settled e d (b ++ c ∷ []) h (omega (arith, length-append b (c ∷ [])))
    ∙ ap (λ x. settled x h) (append_assoc b (c ∷ []) (e ∷ d))

pub feed-short : (d : Bytes) (p : Words × Bytes) → length p.1 < 64 → length (feed d p).1 < 64
unfolding feed
feed-short [] p l = l
feed-short (c ∷ d) p l =
    feed-short d (settled (p.1 ++ c ∷ []) p.0)
      (length-settled (p.1 ++ c ∷ []) p.0 (omega (arith, length-append p.1 (c ∷ []))))

-- A round of the loop, which takes as many bytes as the buffer has room for.
core-round :
    (c : ℕ) (t : Bytes) (n : ℕ) (s : Sha256Stream)
    → length s.buffer + suc n ≤ 64
    → core (filled (s.buffer ++ take (suc n) (c ∷ t)) s) ≡ feed (take (suc n) (c ∷ t)) (core s)
core-round c t n s l =
    core-filled (s.buffer ++ c ∷ take n t) s
    ∙ sym (feed-settled c (take n t) s.buffer s.h (omega (arith, length-take n t)))

pub core-update_loop :
    (fuel : ℕ) (d : Bytes) (s : Sha256Stream)
    → length d ≤ fuel
    → length s.buffer < 64
    → core (update_loop fuel d s) ≡ feed d (core s)
unfolding update_loop feed
core-update_loop fuel [] s f l = refl
core-update_loop zero (c ∷ t) s f l = absurd (omega arith)
core-update_loop (suc fuel) (c ∷ t) s f l =
    round_of (core-update_loop fuel) (min (suc (length t)) (64 - length s.buffer)) (omega arith)
      (omega arith)
  where
    round_of :
        ((d : Bytes) (s' : Sha256Stream)
          → length d ≤ fuel
          → length s'.buffer < 64
          → core (update_loop fuel d s') ≡ feed d (core s'))
        → (n : ℕ) → 1 ≤ n
        → length s.buffer + n ≤ 64
        → core (update_loop fuel (drop n (c ∷ t)) (filled (s.buffer ++ take n (c ∷ t)) s))
          ≡ feed (c ∷ t) (core s)
    round_of rest zero some_byte room = absurd (omega arith)
    round_of rest (suc n) some_byte room =
        rest (drop n t) (filled (s.buffer ++ c ∷ take n t) s) (omega (arith, length-drop n t)) (
          subst (λ p. length p.1 < 64) (sym (core-filled (s.buffer ++ c ∷ take n t) s))
            (length-settled (s.buffer ++ c ∷ take n t) s.h
              (omega (arith, length-append s.buffer (c ∷ take n t), length-take n t))))
        ∙ ap (feed (drop n t)) (core-round c t n s room)
        ∙ sym (feed-append (c ∷ take n t) (drop n t) (core s))
        ∙ ap (λ x. feed x (core s)) (take-append-drop (suc n) (c ∷ t))

pub core-update :
    (d : Bytes) (s : Sha256Stream) → length s.buffer < 64 → core (update d s) ≡ feed d (core s)
unfolding update
core-update d s l =
    core-update_loop (length d) d (record s { total = (s.total + length d) % 2 ^ 64 }) (omega arith)
      l

total-update_loop :
    (fuel : ℕ) (d : Bytes) (s : Sha256Stream) → (update_loop fuel d s).total ≡ s.total
unfolding update_loop filled
total-update_loop fuel [] s = refl
total-update_loop zero (c ∷ t) s = refl
total-update_loop (suc fuel) (c ∷ t) s =
    let n = min (suc (length t)) (64 - length s.buffer) in
    total-update_loop fuel (drop n (c ∷ t)) (filled (s.buffer ++ take n (c ∷ t)) s)
    ∙ total-filled (s.buffer ++ take n (c ∷ t))
  where
    total-filled : (b : Bytes) → (filled b s).total ≡ s.total
    total-filled b =
        if_holds (λ (s' : Sha256Stream). s'.total ≡ s.total) (length b == 64) (λ e. refl) λ e. refl

pub total-update :
    (d : Bytes) (s : Sha256Stream) → (update d s).total ≡ (s.total + length d) % 2 ^ 64
unfolding update
total-update d s =
    total-update_loop (length d) d (record s { total = (s.total + length d) % 2 ^ 64 })

pub short-update :
    (d : Bytes) (s : Sha256Stream) → length s.buffer < 64 → length (update d s).buffer < 64
short-update d s l =
    subst (λ p. length p.1 < 64) (sym (core-update d s l)) (feed-short d (core s) l)

rebuilt : Words × Bytes → ℕ → Sha256Stream
rebuilt p total = record { h = p.0; buffer = p.1; total = total }

-- Two updates are one.
update-append :
    (a b : Bytes) (s : Sha256Stream)
    → length s.buffer < 64
    → update b (update a s) ≡ update (a ++ b) s
unfolding rebuilt
update-append a b s l = same_stream (same_core) (same_total)
  where
    same_core : core (update b (update a s)) ≡ core (update (a ++ b) s)
    same_core =
        core-update b (update a s) (short-update a s l)
        ∙ ap (feed b) (core-update a s l)
        ∙ sym (feed-append a b (core s))
        ∙ sym (core-update (a ++ b) s l)

    same_total : (update b (update a s)).total ≡ (update (a ++ b) s).total
    same_total = omega (
      arith,
      total-update b (update a s),
      total-update a s,
      total-update (a ++ b) s,
      length-append a b,
    )

    same_stream : {x y : Sha256Stream} → core x ≡ core y → x.total ≡ y.total → x ≡ y
    same_stream {x} {y} e t = ap (λ z. rebuilt z x.total) e ∙ ap (rebuilt (core y)) t

-- `hasher.update` for one chunk after the other.
unfoldable pub updates : List Bytes → Sha256Stream → Sha256Stream
updates [] s = s
updates (chunk ∷ chunks) s = updates chunks (update chunk s)

abbrev pub concat : List Bytes → Bytes
concat [] = []
concat (chunk ∷ chunks) = chunk ++ concat chunks

updates-update :
    (chunks : List Bytes) (d : Bytes)
    → updates chunks (update d new_stream) ≡ update (d ++ concat chunks) new_stream
unfolding updates
updates-update [] d = ap (λ x. update x new_stream) (sym (append-nil d))
updates-update (chunk ∷ chunks) d =
    ap (updates chunks) (update-append d chunk new_stream (omega arith))
    ∙ updates-update chunks (d ++ chunk)
    ∙ ap (λ x. update x new_stream) (append_assoc d chunk (concat chunks))

-- The digest of a file that is read in chunks is the digest of its bytes, wherever the chunks end.
pub finish_hex-updates :
    (chunks : List Bytes)
    → finish_hex (updates chunks new_stream) ≡ sha256_hex_of_bytes (concat chunks)
unfolding sha256_hex_of_bytes update update_loop
finish_hex-updates chunks =
    ap (λ s. finish_hex s) (ap (updates chunks) (sym new_empty) ∙ updates-update chunks [])
  where
    new_empty : update [] new_stream ≡ new_stream
    new_empty = refl

-- ===== src/Encodings/Digest.antt =====
-- The digest of `Sha256Stream` (src/studio_host.cpp) is that of the standard.
use streammate_studio_host.Prelude.{
  ℕ, zero, suc, ◌+◌, ◌*◌, ◌-◌, ◌/◌, ◌%◌, ◌^◌, ◌<◌, ◌≡◌, refl, ap, ◌∙◌, [], ◌∷◌, ◌++◌, ◌==◌, Bytes,
  length, take, drop, replicate, ==_iff, arith,
}
use streammate_studio_host.Encodings.Sha256.{
  Words, new_stream, process_block, update, padded, finish_hex, sha256_hex_of_bytes, words_text,
  length_bytes, hex_text, hex_digit_text,
}
use streammate_studio_host.Prelude.{get_or, codes, true}
use streammate_studio_host.Prelude.Tables.{passes, passes-lt}
use streammate_studio_host.Encodings.Standard.{
  sha256, compress_blocks, initial_hash, big_endian, pad_message, hexadecimal, hex_digest,
}
use streammate_studio_host.Encodings.Compression.{hash, hash-new_stream, process_block-compress}
use streammate_studio_host.Encodings.Reference.{zeros_for, pad, process_blocks, core-padded-update}

process_blocks-compress_blocks :
    (n : ℕ) (t : Bytes) (h : Words) → hash (process_blocks n t h) ≡ compress_blocks n t (hash h)
unfolding process_blocks compress_blocks
process_blocks-compress_blocks zero t h = refl
process_blocks-compress_blocks (suc n) t h =
    process_blocks-compress_blocks n (drop 64 t) (process_block (take 64 t) h)
    ∙ ap (compress_blocks n (drop 64 t)) (process_block-compress (take 64 t) h)

length_bytes-big_endian : (n : ℕ) → length_bytes n ≡ big_endian 8 n
unfolding length_bytes big_endian
length_bytes-big_endian n =
    let e1 : n / 2 ^ 8 ≡ n / 256 = omega arith in
    let e2 : n / 2 ^ 16 ≡ n / 256 / 256 = omega arith in
    let e3 : n / 2 ^ 24 ≡ n / 256 / 256 / 256 = omega arith in
    let e4 : n / 2 ^ 32 ≡ n / 256 / 256 / 256 / 256 = omega arith in
    let e5 : n / 2 ^ 40 ≡ n / 256 / 256 / 256 / 256 / 256 = omega arith in
    let e6 : n / 2 ^ 48 ≡ n / 256 / 256 / 256 / 256 / 256 / 256 = omega arith in
    let e7 : n / 2 ^ 56 ≡ n / 256 / 256 / 256 / 256 / 256 / 256 / 256 = omega arith in
    rw (e1, e2, e3, e4, e5, e6, e7) refl

zeros_for-fewest : (l : ℕ) → zeros_for ((l + 1) % 64) ≡ (119 - l % 64) % 64
unfolding zeros_for
zeros_for-fewest l = ground arith

pad-pad_message : (m : Bytes) → pad m ≡ pad_message m
unfolding pad pad_message
pad-pad_message m =
    let bits : length m % 2 ^ 64 * 8 % 2 ^ 64 ≡ 8 * length m % 2 ^ 64 = omega arith in
    ap (λ k. m ++ 0x80 ∷ (replicate k 0 ++ length_bytes (length m % 2 ^ 64 * 8 % 2 ^ 64)))
      (zeros_for-fewest (length m))
    ∙ ap (λ b. m ++ 0x80 ∷ (replicate ((119 - length m % 64) % 64) 0 ++ b))
        (ap length_bytes bits ∙ length_bytes-big_endian (8 * length m % 2 ^ 64))

-- Whatever the message is, padding a stream of it ends with its hash value as the standard computes it
-- (with constants from the roots of primes), and at the end of a block: the loop of zeros has ended,
-- and nothing is left in the buffer. The length counts modulo 2 ^ 64 bits.
pub padded-update :
    (m : Bytes)
    → (hash (padded (update m new_stream)).h ≡ sha256 m)
      × ((padded (update m new_stream)).buffer ≡ [])
unfolding sha256
padded-update m = (
  ap (λ p. hash p.0) (core-padded-update m)
      ∙ process_blocks-compress_blocks (length (pad m) / 64) (pad m) new_stream.h
      ∙ ap (compress_blocks (length (pad m) / 64) (pad m)) hash-new_stream
      ∙ ap (λ t. compress_blocks (length t / 64) t initial_hash) (pad-pad_message m),
  ap (λ p. p.1) (core-padded-update m),
)

digit-get_or : (n : ℕ) → n < 16 → hex_digit_text n ≡ get_or (codes "0123456789abcdef") n 0
unfolding passes
digit-get_or n h =
    (==_iff (hex_digit_text n) (get_or (codes "0123456789abcdef") n 0)).0
      (passes-lt (λ k. hex_digit_text k == get_or (codes "0123456789abcdef") k 0) 16 n h digits)
  where
    digits : passes (λ k. hex_digit_text k == get_or (codes "0123456789abcdef") k 0) 16 ≡ true
    digits = refl

hex_text-hexadecimal : (digits n : ℕ) → hex_text digits n ≡ hexadecimal digits n
unfolding hex_text hexadecimal
hex_text-hexadecimal zero n = refl
hex_text-hexadecimal (suc digits) n =
    ap (λ s. s ++ hex_digit_text (n % 16) ∷ []) (hex_text-hexadecimal digits (n / 16))
    ∙ ap (λ d. hexadecimal digits (n / 16) ++ d ∷ []) (digit-get_or (n % 16) (omega arith))

words_text-hex_digest : (v : Words) → words_text v ≡ hex_digest (hash v)
unfolding words_text hex_digest
words_text-hex_digest v = λ i.
    hex_text-hexadecimal 8 v.a i
    ++ hex_text-hexadecimal 8 v.b i
    ++ hex_text-hexadecimal 8 v.c i
    ++ hex_text-hexadecimal 8 v.d i
    ++ hex_text-hexadecimal 8 v.e i
    ++ hex_text-hexadecimal 8 v.f i
    ++ hex_text-hexadecimal 8 v.g i
    ++ hex_text-hexadecimal 8 v.h i

-- The text of the digest of any bytes is the hash value of the standard in lower-case hexadecimal,
-- eight digits a word.
pub sha256_hex_of_bytes-hex_digest : (m : Bytes) → sha256_hex_of_bytes m ≡ hex_digest (sha256 m)
unfolding sha256_hex_of_bytes finish_hex
sha256_hex_of_bytes-hex_digest m =
    words_text-hex_digest (padded (update m new_stream)).h ∙ ap hex_digest (padded-update m).0

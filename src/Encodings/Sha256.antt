-- ===== src/Encodings/Sha256.antt =====
-- `class Sha256Stream` and `sha256_hex_of_bytes` (src/studio_host.cpp). Words have 32 bits, sizes 64.
use streammate_studio_host.Prelude.{
  ℕ, zero, suc, ◌+◌, ◌*◌, ◌-◌, ◌/◌, ◌%◌, ◌^◌, min, bit_and, bit_or, bit_xor, List, [], ◌∷◌, ◌++◌,
  ◌==◌, ltb, if◌then◌else◌, Bytes, length, take, drop, get_or,
}

abbrev pub add : ℕ → ℕ → ℕ
add a b = (a + b) % 2 ^ 32

unfoldable pub rotr : ℕ → ℕ → ℕ
rotr value bits = bit_or (value / 2 ^ bits) (value * 2 ^ (32 - bits) % 2 ^ 32)

-- `~value`
abbrev flip_bits : ℕ → ℕ
flip_bits value = bit_xor value 0xFFFFFFFF

abbrev xor3 : ℕ → ℕ → ℕ → ℕ
xor3 a b c = bit_xor (bit_xor a b) c

unfoldable pub k_round : List ℕ
k_round =
    0x428a2f98 ∷ 0x71374491 ∷ 0xb5c0fbcf ∷ 0xe9b5dba5 ∷ 0x3956c25b ∷ 0x59f111f1 ∷ 0x923f82a4
    ∷ 0xab1c5ed5 ∷ 0xd807aa98 ∷ 0x12835b01 ∷ 0x243185be ∷ 0x550c7dc3 ∷ 0x72be5d74 ∷ 0x80deb1fe
    ∷ 0x9bdc06a7 ∷ 0xc19bf174 ∷ 0xe49b69c1 ∷ 0xefbe4786 ∷ 0x0fc19dc6 ∷ 0x240ca1cc ∷ 0x2de92c6f
    ∷ 0x4a7484aa ∷ 0x5cb0a9dc ∷ 0x76f988da ∷ 0x983e5152 ∷ 0xa831c66d ∷ 0xb00327c8 ∷ 0xbf597fc7
    ∷ 0xc6e00bf3 ∷ 0xd5a79147 ∷ 0x06ca6351 ∷ 0x14292967 ∷ 0x27b70a85 ∷ 0x2e1b2138 ∷ 0x4d2c6dfc
    ∷ 0x53380d13 ∷ 0x650a7354 ∷ 0x766a0abb ∷ 0x81c2c92e ∷ 0x92722c85 ∷ 0xa2bfe8a1 ∷ 0xa81a664b
    ∷ 0xc24b8b70 ∷ 0xc76c51a3 ∷ 0xd192e819 ∷ 0xd6990624 ∷ 0xf40e3585 ∷ 0x106aa070 ∷ 0x19a4c116
    ∷ 0x1e376c08 ∷ 0x2748774c ∷ 0x34b0bcb5 ∷ 0x391c0cb3 ∷ 0x4ed8aa4a ∷ 0x5b9cca4f ∷ 0x682e6ff3
    ∷ 0x748f82ee ∷ 0x78a5636f ∷ 0x84c87814 ∷ 0x8cc70208 ∷ 0x90befffa ∷ 0xa4506ceb ∷ 0xbef9a3f7
    ∷ 0xc67178f2 ∷ []

-- The first sixteen words of the schedule, the last one first.
unfoldable pub block_words : Bytes → List ℕ → List ℕ
block_words (p0 ∷ p1 ∷ p2 ∷ p3 ∷ t) w =
    block_words t ((p0 * 2 ^ 24 + p1 * 2 ^ 16 + p2 * 2 ^ 8 + p3) ∷ w)
block_words _ w = w

-- The words behind them; `w[i - n]` is the n-th from the front.
unfoldable pub extended : ℕ → List ℕ → List ℕ
unfolding rotr
extended zero w = w
extended (suc n) w =
    let w15 = get_or w 14 0 in
    let w2 = get_or w 1 0 in
    let s0 = xor3 (rotr w15 7) (rotr w15 18) (w15 / 2 ^ 3) in
    let s1 = xor3 (rotr w2 17) (rotr w2 19) (w2 / 2 ^ 10) in
    extended n (add (add (add (get_or w 15 0) s0) (get_or w 6 0)) s1 ∷ w)

unfoldable pub reversed : List ℕ → List ℕ → List ℕ
reversed [] done = done
reversed (x ∷ xs) done = reversed xs (x ∷ done)

-- `h_`, and the variables `a` to `hh` of a block.
pub record Words : Type 0 where
  pub a : ℕ
  pub b : ℕ
  pub c : ℕ
  pub d : ℕ
  pub e : ℕ
  pub f : ℕ
  pub g : ℕ
  pub h : ℕ

unfoldable pub round : ℕ → ℕ → Words → Words
unfolding rotr
round k w v =
    let s1 = xor3 (rotr v.e 6) (rotr v.e 11) (rotr v.e 25) in
    let ch = bit_xor (bit_and v.e v.f) (bit_and (flip_bits v.e) v.g) in
    let temp1 = add (add (add (add v.h s1) ch) k) w in
    let s0 = xor3 (rotr v.a 2) (rotr v.a 13) (rotr v.a 22) in
    let maj = xor3 (bit_and v.a v.b) (bit_and v.a v.c) (bit_and v.b v.c) in
    record {
      a = add temp1 (add s0 maj);
      b = v.a;
      c = v.b;
      d = v.c;
      e = add v.d temp1;
      f = v.e;
      g = v.f;
      h = v.g;
    }

unfoldable pub rounds : List ℕ → List ℕ → Words → Words
unfolding round
rounds (k ∷ ks) (w ∷ ws) v = rounds ks ws (round k w v)
rounds _ _ v = v

abbrev sums : Words → Words → Words
sums u v = record {
  a = add u.a v.a;
  b = add u.b v.b;
  c = add u.c v.c;
  d = add u.d v.d;
  e = add u.e v.e;
  f = add u.f v.f;
  g = add u.g v.g;
  h = add u.h v.h;
}

unfoldable pub process_block : Bytes → Words → Words
unfolding rounds k_round reversed extended block_words
process_block block h = sums h (rounds k_round (reversed (extended 48 (block_words block [])) []) h)

-- `buffer` is the first `buffered_` bytes of `buffer_`.
pub record Sha256Stream : Type 0 where
  pub h : Words
  pub buffer : Bytes
  pub total : ℕ

abbrev pub new_stream : Sha256Stream
new_stream = record {
  h = record {
    a = 0x6a09e667;
    b = 0xbb67ae85;
    c = 0x3c6ef372;
    d = 0xa54ff53a;
    e = 0x510e527f;
    f = 0x9b05688c;
    g = 0x1f83d9ab;
    h = 0x5be0cd19;
  };
  buffer = [];
  total = 0;
}

-- A full buffer is processed.
unfoldable pub filled : Bytes → Sha256Stream → Sha256Stream
filled buffer s =
    if length buffer == 64
    then record s { h = process_block buffer s.h; buffer = [] }
    else record s { buffer = buffer }

-- The loop of `update`; a round takes at least one byte.
unfoldable pub update_loop : ℕ → Bytes → Sha256Stream → Sha256Stream
unfolding filled
update_loop fuel [] s = s
update_loop zero (c ∷ t) s = s
update_loop (suc fuel) (c ∷ t) s =
    let n = min (length (c ∷ t)) (64 - length s.buffer) in
    update_loop fuel (drop n (c ∷ t)) (filled (s.buffer ++ take n (c ∷ t)) s)

unfoldable pub update : Bytes → Sha256Stream → Sha256Stream
unfolding update_loop
update bytes s =
    update_loop (length bytes) bytes (record s { total = (s.total + length bytes) % 2 ^ 64 })

-- The zeros of `finish_hex`: at most 63 are needed.
unfoldable pub pad_zeros : ℕ → Sha256Stream → Sha256Stream
unfolding update
pad_zeros zero s = s
pad_zeros (suc fuel) s =
    let more = pad_zeros fuel (update (0 ∷ []) s) in if length s.buffer == 56 then s else more

-- `static_cast<unsigned char>(bit_len >> (56 - 8 * i))`, for i from 0 to 7.
unfoldable pub length_bytes : ℕ → Bytes
length_bytes bit_len =
    bit_len / 2 ^ 56 % 256
    ∷ bit_len / 2 ^ 48 % 256
    ∷ bit_len / 2 ^ 40 % 256
    ∷ bit_len / 2 ^ 32 % 256
    ∷ bit_len / 2 ^ 24 % 256
    ∷ bit_len / 2 ^ 16 % 256
    ∷ bit_len / 2 ^ 8 % 256
    ∷ bit_len % 256
    ∷ []

-- `finish_hex` in front of its printing.
unfoldable pub padded : Sha256Stream → Sha256Stream
unfolding update pad_zeros length_bytes
padded s = update (length_bytes (s.total * 8 % 2 ^ 64)) (pad_zeros 64 (update (0x80 ∷ []) s))

abbrev pub hex_digit_text : ℕ → ℕ
hex_digit_text n = if ltb n 10 then b'0' + n else b'a' + (n - 10)

-- `std::hex` with `std::setw(8)` and a fill of zeros: as many digits as are asked for.
unfoldable pub hex_text : ℕ → ℕ → Bytes
hex_text zero n = []
hex_text (suc digits) n = hex_text digits (n / 16) ++ hex_digit_text (n % 16) ∷ []

unfoldable pub words_text : Words → Bytes
unfolding hex_text
words_text h =
    hex_text 8 h.a
    ++ hex_text 8 h.b
    ++ hex_text 8 h.c
    ++ hex_text 8 h.d
    ++ hex_text 8 h.e
    ++ hex_text 8 h.f
    ++ hex_text 8 h.g
    ++ hex_text 8 h.h

unfoldable pub finish_hex : Sha256Stream → Bytes
unfolding padded words_text
finish_hex s = words_text (padded s).h

unfoldable pub sha256_hex_of_bytes : Bytes → Bytes
unfolding update finish_hex
sha256_hex_of_bytes bytes = finish_hex (update bytes new_stream)

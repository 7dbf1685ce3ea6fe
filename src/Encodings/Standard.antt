-- ===== src/Encodings/Standard.antt =====
-- SHA-256 as FIPS 180-4 describes it, by itself: nothing here stands on the code. Words are numbers
-- below 2 ^ 32.
use streammate_studio_host.Prelude.{
  ℕ, zero, suc, ◌+◌, ◌*◌, ◌-◌, ◌/◌, ◌%◌, ◌^◌, bit_and, bit_or, bit_xor, Bool, List, [], ◌∷◌, ◌++◌,
  map, leb, if◌then◌else◌, Bytes, length, take, drop, replicate, get_or, codes,
}

-- The first 32 bits of the fractional parts of roots: `largest test bits 0` is the largest number of
-- so many bits that passes a test which holds up to some number.
unfoldable pub largest : (ℕ → Bool) → ℕ → ℕ → ℕ
largest test zero n = n
largest test (suc bits) n = largest test bits (if test (n + 2 ^ bits) then n + 2 ^ bits else n)

unfoldable pub square_root_fraction : ℕ → ℕ
unfolding largest
square_root_fraction p = largest (λ n. leb (n * n) (p * 2 ^ 64)) 36 0 % 2 ^ 32

unfoldable pub cube_root_fraction : ℕ → ℕ
unfolding largest
cube_root_fraction p = largest (λ n. leb (n * n * n) (p * 2 ^ 96)) 36 0 % 2 ^ 32

-- The first sixty-four primes.
abbrev pub primes : List ℕ
primes =
    2 ∷ 3 ∷ 5 ∷ 7 ∷ 11 ∷ 13 ∷ 17 ∷ 19 ∷ 23 ∷ 29 ∷ 31 ∷ 37 ∷ 41 ∷ 43 ∷ 47 ∷ 53 ∷ 59 ∷ 61 ∷ 67 ∷ 71
    ∷ 73 ∷ 79 ∷ 83 ∷ 89 ∷ 97 ∷ 101 ∷ 103 ∷ 107 ∷ 109 ∷ 113 ∷ 127 ∷ 131 ∷ 137 ∷ 139 ∷ 149 ∷ 151 ∷ 157
    ∷ 163 ∷ 167 ∷ 173 ∷ 179 ∷ 181 ∷ 191 ∷ 193 ∷ 197 ∷ 199 ∷ 211 ∷ 223 ∷ 227 ∷ 229 ∷ 233 ∷ 239 ∷ 241
    ∷ 251 ∷ 257 ∷ 263 ∷ 269 ∷ 271 ∷ 277 ∷ 281 ∷ 283 ∷ 293 ∷ 307 ∷ 311 ∷ []

unfoldable pub round_constants : List ℕ
unfolding cube_root_fraction
round_constants = map cube_root_fraction primes

-- `ROTR` and `SHR`
abbrev pub rotate : ℕ → ℕ → ℕ
rotate n x = bit_or (x / 2 ^ n) (x * 2 ^ (32 - n) % 2 ^ 32)

abbrev pub shift : ℕ → ℕ → ℕ
shift n x = x / 2 ^ n

abbrev pub big_sigma0 : ℕ → ℕ
big_sigma0 x = bit_xor (bit_xor (rotate 2 x) (rotate 13 x)) (rotate 22 x)

abbrev pub big_sigma1 : ℕ → ℕ
big_sigma1 x = bit_xor (bit_xor (rotate 6 x) (rotate 11 x)) (rotate 25 x)

abbrev pub small_sigma0 : ℕ → ℕ
small_sigma0 x = bit_xor (bit_xor (rotate 7 x) (rotate 18 x)) (shift 3 x)

abbrev pub small_sigma1 : ℕ → ℕ
small_sigma1 x = bit_xor (bit_xor (rotate 17 x) (rotate 19 x)) (shift 10 x)

abbrev pub choice : ℕ → ℕ → ℕ → ℕ
choice x y z = bit_xor (bit_and x y) (bit_and (bit_xor x (2 ^ 32 - 1)) z)

abbrev pub majority : ℕ → ℕ → ℕ → ℕ
majority x y z = bit_xor (bit_xor (bit_and x y) (bit_and x z)) (bit_and y z)

-- The words of a block, the bytes of each with the highest first.
unfoldable pub words_of : Bytes → List ℕ
words_of (a ∷ b ∷ c ∷ d ∷ t) = (((a * 256 + b) * 256 + c) * 256 + d) ∷ words_of t
words_of _ = []

-- A list turned round, in front of another.
unfoldable pub onto : List ℕ → List ℕ → List ℕ
onto [] ys = ys
onto (x ∷ xs) ys = onto xs (x ∷ ys)

-- The word that stands so many places in front of the next one; the last word comes first.
abbrev pub back : ℕ → List ℕ → ℕ
back n w = get_or w (n - 1) 0

unfoldable pub schedule : ℕ → List ℕ → List ℕ
schedule zero w = w
schedule (suc n) w =
    schedule n
      ((small_sigma1 (back 2 w) + back 7 w + small_sigma0 (back 15 w) + back 16 w) % 2 ^ 32 ∷ w)

-- The working variables, and a hash value.
pub record Hash : Type 0 where
  pub a : ℕ
  pub b : ℕ
  pub c : ℕ
  pub d : ℕ
  pub e : ℕ
  pub f : ℕ
  pub g : ℕ
  pub h : ℕ

unfoldable pub step : ℕ → ℕ → Hash → Hash
step k w v =
    let t1 = v.h + big_sigma1 v.e + choice v.e v.f v.g + k + w in
    let t2 = big_sigma0 v.a + majority v.a v.b v.c in
    record {
      a = (t1 + t2) % 2 ^ 32;
      b = v.a;
      c = v.b;
      d = v.c;
      e = (v.d + t1) % 2 ^ 32;
      f = v.e;
      g = v.f;
      h = v.g;
    }

unfoldable pub steps : List ℕ → List ℕ → Hash → Hash
unfolding step
steps (k ∷ ks) (w ∷ ws) v = steps ks ws (step k w v)
steps _ _ v = v

abbrev pub sum : Hash → Hash → Hash
sum u v = record {
  a = (u.a + v.a) % 2 ^ 32;
  b = (u.b + v.b) % 2 ^ 32;
  c = (u.c + v.c) % 2 ^ 32;
  d = (u.d + v.d) % 2 ^ 32;
  e = (u.e + v.e) % 2 ^ 32;
  f = (u.f + v.f) % 2 ^ 32;
  g = (u.g + v.g) % 2 ^ 32;
  h = (u.h + v.h) % 2 ^ 32;
}

unfoldable pub compress : Bytes → Hash → Hash
unfolding steps round_constants onto schedule words_of
compress block h =
    sum h (steps round_constants (onto (schedule 48 (onto (words_of block) [])) []) h)

unfoldable pub compress_blocks : ℕ → Bytes → Hash → Hash
unfolding compress
compress_blocks zero text h = h
compress_blocks (suc n) text h = compress_blocks n (drop 64 text) (compress (take 64 text) h)

unfoldable pub initial_hash : Hash
unfolding square_root_fraction
initial_hash = record {
  a = square_root_fraction 2;
  b = square_root_fraction 3;
  c = square_root_fraction 5;
  d = square_root_fraction 7;
  e = square_root_fraction 11;
  f = square_root_fraction 13;
  g = square_root_fraction 17;
  h = square_root_fraction 19;
}

-- So many bytes, the highest first.
unfoldable pub big_endian : ℕ → ℕ → Bytes
big_endian zero n = []
big_endian (suc bytes) n = big_endian bytes (n / 256) ++ n % 256 ∷ []

-- The message, a one bit, as few zeros as make it whole blocks, and its length in bits.
unfoldable pub pad_message : Bytes → Bytes
unfolding big_endian
pad_message m =
    m ++ 0x80 ∷ (replicate ((119 - length m % 64) % 64) 0 ++ big_endian 8 (8 * length m % 2 ^ 64))

unfoldable pub sha256 : Bytes → Hash
unfolding pad_message compress_blocks initial_hash
sha256 m = compress_blocks (length (pad_message m) / 64) (pad_message m) initial_hash

-- A number as so many hexadecimal digits, the highest first.
unfoldable pub hexadecimal : ℕ → ℕ → Bytes
hexadecimal zero n = []
hexadecimal (suc digits) n =
    hexadecimal digits (n / 16) ++ get_or (codes "0123456789abcdef") (n % 16) 0 ∷ []

unfoldable pub hex_digest : Hash → Bytes
unfolding hexadecimal
hex_digest v =
    hexadecimal 8 v.a
    ++ hexadecimal 8 v.b
    ++ hexadecimal 8 v.c
    ++ hexadecimal 8 v.d
    ++ hexadecimal 8 v.e
    ++ hexadecimal 8 v.f
    ++ hexadecimal 8 v.g
    ++ hexadecimal 8 v.h

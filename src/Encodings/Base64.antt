-- ===== src/Encodings/Base64.antt =====
-- `base64` (src/studio_host.cpp), and a strict decoder of the format.
use streammate_studio_host.Prelude.{
  ℕ, ◌+◌, ◌*◌, ◌-◌, ◌/◌, ◌%◌, ◌^◌, ◌<◌, ◌≡◌, refl, ap, ◌∙◌, false, true, ◌&&◌, Option, none, some,
  [], ◌∷◌, ◌==◌, ltb, leb, if◌then◌else◌, Bytes, IsByte, IsText, arith,
}
use streammate_studio_host.Prelude.Maybe.{◌>>=◌}

-- `table[n]` for n below 64.
unfoldable pub letter : ℕ → ℕ
letter n =
    if ltb n 26
    then b'A' + n
    else if ltb n 52
    then b'a' + (n - 26)
    else if ltb n 62
    then b'0' + (n - 52)
    else if n == 62
    then b'+'
    else b'/'

-- The four sextets of `n`, which has 24 bits.
abbrev sextet : ℕ → ℕ → ℕ
sextet n shift = n / 2 ^ shift % 64

-- Three bytes a round; the bits of `n` that are or-ed do not overlap.
unfoldable pub base64 : Bytes → Bytes
unfolding letter
base64 [] = []
base64 (a ∷ []) =
    let n = a * 2 ^ 16 in letter (sextet n 18) ∷ letter (sextet n 12) ∷ b'=' ∷ b'=' ∷ []
base64 (a ∷ b ∷ []) =
    let n = a * 2 ^ 16 + b * 2 ^ 8 in
    letter (sextet n 18) ∷ letter (sextet n 12) ∷ letter (sextet n 6) ∷ b'=' ∷ []
base64 (a ∷ b ∷ c ∷ t) =
    let n = a * 2 ^ 16 + b * 2 ^ 8 + c in
    letter (sextet n 18) ∷ letter (sextet n 12) ∷ letter (sextet n 6) ∷ letter (n % 64) ∷ base64 t

-- The value of a character of the alphabet; `none` for any other.
unfoldable pub letter_value : ℕ → Option ℕ
letter_value c =
    if leb b'A' c && leb c b'Z'
    then some (c - b'A')
    else if leb b'a' c && leb c b'z'
    then some (c - b'a' + 26)
    else if leb b'0' c && leb c b'9'
    then some (c - b'0' + 52)
    else if c == b'+'
    then some 62
    else if c == b'/'
    then some 63
    else none

-- The last two characters of a text are "=", and the bits that the first two leave over are none.
one_byte : ℕ → ℕ → Bytes → Option Bytes
unfolding letter_value
one_byte p q [] = do
  x ← letter_value p
  y ← letter_value q
  if y % 16 == 0 then some ((x * 4 + y / 16) ∷ []) else none
one_byte p q (c ∷ t) = none

two_bytes : ℕ → ℕ → ℕ → Bytes → Option Bytes
unfolding letter_value
two_bytes p q r [] = do
  x ← letter_value p
  y ← letter_value q
  z ← letter_value r
  if z % 4 == 0 then some ((x * 4 + y / 16) ∷ (y % 16 * 16 + z / 4) ∷ []) else none
two_bytes p q r (c ∷ t) = none

three_bytes : ℕ → ℕ → ℕ → ℕ → Option Bytes → Option Bytes
unfolding letter_value
three_bytes p q r s rest = do
  x ← letter_value p
  y ← letter_value q
  z ← letter_value r
  w ← letter_value s
  more ← rest
  some ((x * 4 + y / 16) ∷ (y % 16 * 16 + z / 4) ∷ (z % 4 * 64 + w) ∷ more)

-- A strict decoder: groups of four characters of the alphabet, the last of which may end in "=" or
-- "==", and nothing behind a padded group; `none` for any other text.
unfoldable pub decoded : Bytes → Option Bytes
unfolding one_byte two_bytes three_bytes
decoded [] = some []
decoded (p ∷ q ∷ r ∷ s ∷ t) =
    let rest = decoded t in
    if s == b'='
    then (if r == b'=' then one_byte p q t else two_bytes p q r t)
    else three_bytes p q r s rest
decoded _ = none

letter_value-letter : (n : ℕ) → n < 64 → letter_value (letter n) ≡ some n
unfolding letter letter_value
letter_value-letter n h = ground arith

letter_pad : (n : ℕ) → n < 64 → (letter n == b'=') ≡ false
unfolding letter
letter_pad n h = ground arith

sextet-lt : (n shift : ℕ) → sextet n shift < 64
sextet-lt n shift = omega arith

-- The bytes that four sextets stand for.
abbrev group : ℕ → ℕ → ℕ → ℕ
group a b c = a * 2 ^ 16 + b * 2 ^ 8 + c

first_byte :
    (a b c : ℕ)
    → IsByte b
    → IsByte c
    → IsByte a
    → sextet (group a b c) 18 * 4 + sextet (group a b c) 12 / 16 ≡ a
first_byte a b c hb hc ha = omega arith

second_byte :
    (a b c : ℕ)
    → IsByte b
    → IsByte c
    → sextet (group a b c) 12 % 16 * 16 + sextet (group a b c) 6 / 4 ≡ b
second_byte a b c hb hc = omega arith

third_byte : (a b c : ℕ) → IsByte c → sextet (group a b c) 6 % 4 * 64 + group a b c % 64 ≡ c
third_byte a b c hc = omega arith

values :
    (x y z w : ℕ)
    → x < 64
    → y < 64
    → z < 64
    → w < 64
    → (t : Bytes) (rest : Bytes) → decoded t ≡ some rest
    → decoded (letter x ∷ letter y ∷ letter z ∷ letter w ∷ t)
      ≡ some ((x * 4 + y / 16) ∷ (y % 16 * 16 + z / 4) ∷ (z % 4 * 64 + w) ∷ rest)
unfolding decoded three_bytes
values x y z w hx hy hz hw t rest e =
    rw
      (
        letter_pad w hw,
        e,
        letter_value-letter x hx,
        letter_value-letter y hy,
        letter_value-letter z hz,
        letter_value-letter w hw,
      )
      refl

-- What `base64` writes is in the alphabet and padded to groups of four, and it stands for the bytes:
-- whatever the bytes are, a decoder that refuses any other character, any other padding, anything
-- behind the padding and any bits left over reads them back.
pub decoded-base64 : (s : Bytes) → IsText s → decoded (base64 s) ≡ some s
unfolding decoded base64 one_byte two_bytes
decoded-base64 [] h = refl
decoded-base64 (a ∷ []) (ha, h) =
    let n = a * 2 ^ 16 in
    let no_bits : (sextet n 12 % 16 == 0) ≡ true = ground arith in
    rw
      (
        letter_value-letter (sextet n 18) (sextet-lt n 18),
        letter_value-letter (sextet n 12) (sextet-lt n 12),
        no_bits,
      )
      (ap (λ x. some (x ∷ [])) (omega arith))
decoded-base64 (a ∷ b ∷ []) (ha, (hb, h)) =
    let n = a * 2 ^ 16 + b * 2 ^ 8 in
    let first : sextet n 18 * 4 + sextet n 12 / 16 ≡ a = omega arith in
    let second : sextet n 12 % 16 * 16 + sextet n 6 / 4 ≡ b = omega arith in
    let no_bits : (sextet n 6 % 4 == 0) ≡ true = ground arith in
    rw
      (
        letter_pad (sextet n 6) (sextet-lt n 6),
        letter_value-letter (sextet n 18) (sextet-lt n 18),
        letter_value-letter (sextet n 12) (sextet-lt n 12),
        letter_value-letter (sextet n 6) (sextet-lt n 6),
        no_bits,
      )
      (rw (first, second) refl)
decoded-base64 (a ∷ b ∷ c ∷ t) (ha, (hb, (hc, h))) =
    let n = group a b c in
    values (sextet n 18) (sextet n 12) (sextet n 6) (n % 64) (sextet-lt n 18) (sextet-lt n 12)
      (sextet-lt n 6) (omega arith) (base64 t) t (decoded-base64 t h)
    ∙ rw (first_byte a b c hb hc ha, second_byte a b c hb hc, third_byte a b c hc) refl

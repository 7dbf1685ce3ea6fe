-- ===== src/Scanner/Number.antt =====
-- White space and numbers of `ManifestScanner` (src/studio_host.cpp).
use streammate_studio_host.Prelude.{
  ℕ, ◌+◌, ◌-◌, ◌*◌, ◌^◌, Bool, false, not, ◌||◌, Option, none, some, [], ◌∷◌, ◌==◌, ltb,
  if◌then◌else◌, Bytes, is_space, is_digit, length, take,
}
use streammate_studio_host.Prelude.Maybe.{◌>>=◌}
use streammate_studio_host.Prelude.Int.{ℤ, pos, neg_ℕ}

unfoldable pub ws : Bytes → Bytes
ws [] = []
ws (c ∷ t) = if is_space c then ws t else c ∷ t

-- `digit()`: a digit is next.
unfoldable pub digit : Bytes → Bool
digit [] = false
digit (c ∷ t) = is_digit c

-- `while (digit()) ++pos_`
unfoldable pub skip_digits : Bytes → Bytes
skip_digits [] = []
skip_digits (c ∷ t) = if is_digit c then skip_digits t else c ∷ t

digits_run : Bytes → Option Bytes
unfolding digit skip_digits
digits_run t = if digit t then some (skip_digits t) else none

skip_minus : Bytes → Bytes
skip_minus [] = []
skip_minus (c ∷ t) = if c == b'-' then t else c ∷ t

integer_part : Bytes → Option Bytes
unfolding digit skip_digits
integer_part [] = none
integer_part (c ∷ t) =
    if not (is_digit c)
    then none
    else if c == b'0'
    then (if digit t then none else some t)
    else some (skip_digits (c ∷ t))

fraction : Bytes → Option Bytes
unfolding digits_run
fraction [] = some []
fraction (c ∷ t) = if c == b'.' then digits_run t else some (c ∷ t)

skip_sign : Bytes → Bytes
skip_sign [] = []
skip_sign (c ∷ t) = if c == b'+' || c == b'-' then t else c ∷ t

exponent : Bytes → Option Bytes
unfolding digits_run skip_sign
exponent [] = some []
exponent (c ∷ t) = if c == b'e' || c == b'E' then digits_run (skip_sign t) else some (c ∷ t)

-- The text behind the number that stands next; `none` leaves `pos_` behind the white space.
unfoldable pub number : Bytes → Option Bytes
unfolding skip_minus integer_part fraction exponent ws
number t = do t ← integer_part (skip_minus (ws t)); t ← fraction t; exponent t

-- `token.find_first_of(".eE") != npos`
unfoldable pub has_fraction_or_exponent : Bytes → Bool
has_fraction_or_exponent [] = false
has_fraction_or_exponent (c ∷ t) = c == b'.' || c == b'e' || c == b'E' || has_fraction_or_exponent t

digits_value : Bytes → ℕ → ℕ
digits_value [] n = n
digits_value (c ∷ t) n = digits_value t (n * 10 + (c - b'0'))

-- `std::stol` on a token of an optional minus and digits, where `long` has 64 bits.
unfoldable pub stol : Bytes → Option ℤ
unfolding digits_value
stol [] = none
stol (c ∷ t) =
    if c == b'-'
    then (let n = digits_value t 0 in if ltb (2 ^ 63) n then none else some (neg_ℕ n))
    else let n = digits_value (c ∷ t) 0 in if ltb n (2 ^ 63) then some (pos n) else none

-- The characters of `start` in front of `rest`, one of its ends.
abbrev before : Bytes → Bytes → Bytes
before start rest = take (length start - length rest) start

integer_token : Bytes → Bytes → Option ℤ × Bytes
unfolding has_fraction_or_exponent stol
integer_token start rest =
    if has_fraction_or_exponent (before start rest)
    then (none, start)
    else elim (stol (before start rest)) [ none ↦ (none, start) | some v ↦ (some v, rest) ]

-- A number that is no integer of type `long` leaves `pos_` in front of it.
unfoldable pub integer : Bytes → Option ℤ × Bytes
unfolding ws number integer_token
integer t =
    let start = ws t in
    elim (number start) [ none ↦ (none, start) | some rest ↦ integer_token start rest ]

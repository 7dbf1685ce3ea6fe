-- ===== src/Rpc/Identity.antt =====
-- `sanitize_json_string_token`, `is_json_number_token` and `extract_json_id` (src/studio_host.cpp): the echoed id of a request.
use streammate_studio_host.Prelude.{
  ◌⊎◌, inl, inr, Bool-cases, ℕ, zero, suc, ◌+◌, ◌-◌, ◌/◌, ◌%◌, ◌<◌, ◌≡◌, refl, sym, ap, ◌∙◌, Bool,
  true, false, ◌&&◌, ◌||◌, Option, none, some, [], ◌∷◌, ◌++◌, ◌==◌, ltb, leb, if◌then◌else◌, Bytes,
  arith, if_holds, ==_iff, ltb→lt, subst, append-nil, codes, equal, is_empty, is_digit,
}
use streammate_studio_host.Prelude.Maybe.{◌>>=◌}
use streammate_studio_host.Rpc.Fields.{find, find_byte, tail, skip_blank}
use streammate_studio_host.Json.Escape.{json_escape, escape_byte, hex_upper}
pub mod Numbers
pub mod StringBody
pub mod Untouched

-- `is_hex`
unfoldable pub is_hex : ℕ → Bool
is_hex c = (leb b'0' c && leb c b'9') || (leb b'a' c && leb c b'f') || (leb b'A' c && leb c b'F')

unfoldable pub is_short_escape : ℕ → Bool
is_short_escape c =
    c == b'"'
    || c == b'\\'
    || c == b'/'
    || c == b'b'
    || c == b'f'
    || c == b'n'
    || c == b'r'
    || c == b't'

unfoldable pub four_hex : Bytes → Bool
four_hex (a ∷ b ∷ c ∷ d ∷ t) = is_hex a && (is_hex b && (is_hex c && is_hex d))
four_hex _ = false

-- How many bytes behind a backslash make a valid escape with it.
unfoldable pub escape_length : Bytes → ℕ
escape_length [] = 0
escape_length (c ∷ t) = if is_short_escape c then 1 else if c == b'u' && four_hex t then 5 else 0

-- A backslash that starts no escape is doubled.
unfoldable pub backslash : ℕ → Bytes
backslash zero = b'\\' ∷ b'\\' ∷ []
backslash (suc n) = b'\\' ∷ []

-- With how many bytes of a valid escape are still to be copied.
unfoldable pub sanitize_from : ℕ → Bytes → Bytes
unfolding escape_length backslash
sanitize_from n [] = []
sanitize_from (suc n) (c ∷ t) = c ∷ sanitize_from n t
sanitize_from zero (c ∷ t) =
    let escape = sanitize_from (escape_length t) t in
    let plain = sanitize_from 0 t in
    if c == b'\\' then backslash (escape_length t) ++ escape else json_escape (c ∷ []) ++ plain

unfoldable pub sanitize_json_string_token : Bytes → Bytes
unfolding sanitize_from
sanitize_json_string_token raw = sanitize_from 0 raw

-- `while (digit(pos)) ++pos`
pub digits_end : Bytes → Bytes
digits_end [] = []
digits_end (c ∷ t) = let rest = digits_end t in if is_digit c then rest else c ∷ t

pub some_digits : Bytes → Option Bytes
unfolding digits_end
some_digits [] = none
some_digits (c ∷ t) = if is_digit c then some (digits_end t) else none

pub minus_skipped : Bytes → Bytes
minus_skipped [] = []
minus_skipped (c ∷ t) = if c == b'-' then t else c ∷ t

pub whole_part : Bytes → Option Bytes
unfolding digits_end
whole_part [] = none
whole_part (c ∷ t) =
    if is_digit c then (if c == b'0' then some t else some (digits_end t)) else none

pub fraction_part : Bytes → Option Bytes
unfolding some_digits
fraction_part [] = some []
fraction_part (c ∷ t) = if c == b'.' then some_digits t else some (c ∷ t)

pub sign_skipped : Bytes → Bytes
sign_skipped [] = []
sign_skipped (c ∷ t) = if c == b'+' || c == b'-' then t else c ∷ t

pub exponent_part : Bytes → Option Bytes
unfolding some_digits sign_skipped
exponent_part [] = some []
exponent_part (c ∷ t) =
    if c == b'e' || c == b'E' then some_digits (sign_skipped t) else some (c ∷ t)

pub number_end : Bytes → Option Bytes
unfolding minus_skipped whole_part fraction_part exponent_part
number_end token = do
  whole ← whole_part (minus_skipped token)
  fraction ← fraction_part whole
  exponent_part fraction

unfoldable pub is_json_number_token : Bytes → Bool
unfolding number_end
is_json_number_token token = elim (number_end token) [ none ↦ false | some rest ↦ is_empty rest ]

-- The characters of a string up to its closing quote, escapes and all; the flag is `escape`.
unfoldable pub id_chars : Bool → Bytes → Option Bytes
id_chars escape [] = none
id_chars escape (c ∷ t) =
    let plain = (do inner ← id_chars false t; some (c ∷ inner)) in
    let escaped = (do inner ← id_chars true t; some (c ∷ inner)) in
    if escape then plain else if c == b'\\' then escaped else if c == b'"' then some [] else plain

unfoldable pub quoted_id : Bytes → Bytes
unfolding id_chars
quoted_id t = elim (id_chars false t) [
  | none ↦ codes "null"
  | some inner ↦ b'"' ∷ (sanitize_json_string_token inner ++ b'"' ∷ [])
]

-- Up to the first of the bytes in ",}\r\n".
token_of : Bytes → Bytes
token_of [] = []
token_of (c ∷ t) =
    let rest = c ∷ token_of t in if c == b',' || c == b'}' || c == 13 || c == 10 then [] else rest

-- Without the blanks and tabs at the end.
blanks_off : Bytes → Bytes
blanks_off [] = []
blanks_off (c ∷ t) =
    let rest = blanks_off t in if is_empty rest && (c == b' ' || c == 9) then [] else c ∷ rest

unfoldable pub scalar_id : Bytes → Bytes
unfolding is_json_number_token
scalar_id token =
    if equal token (codes "null")
      || equal token (codes "true")
      || equal token (codes "false")
      || is_json_number_token token
    then token
    else codes "null"

unfoldable pub id_at : Bytes → Bytes
unfolding quoted_id scalar_id token_of blanks_off
id_at [] = codes "null"
id_at (c ∷ t) = if c == b'"' then quoted_id t else scalar_id (blanks_off (token_of (c ∷ t)))

unfoldable pub id_found : Option Bytes → Bytes
unfolding id_at
id_found none = codes "null"
id_found (some start) = id_at start

unfoldable pub extract_json_id : Bytes → Bytes
unfolding id_found
extract_json_id json =
    id_found (do
      marker ← find (codes "\"id\"") json
      colon ← find_byte b':' marker
      skip_blank (tail colon))

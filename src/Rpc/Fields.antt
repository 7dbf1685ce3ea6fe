-- ===== src/Rpc/Fields.antt =====
-- `extract_json_string`, `extract_json_int`, `extract_json_bool` and `std::stoi` (src/studio_host.cpp).
-- A position that `find` gives is the rest of the text from there.
pub mod Decimal
use streammate_studio_host.Prelude.{
  ℕ, ◌+◌, ◌-◌, ◌*◌, ◌^◌, Bool, true, false, ◌||◌, Option, none, some, [], ◌∷◌, ◌++◌, ◌==◌, ltb,
  is_some, if◌then◌else◌, Bytes, codes, after_prefix, is_digit,
}
use streammate_studio_host.Prelude.Maybe.{◌>>=◌}
use streammate_studio_host.Prelude.Int.{ℤ, pos, neg_ℕ}
use streammate_studio_host.Scanner.Number.{ws}

-- `find` of a text, and of a byte.
unfoldable pub find : Bytes → Bytes → Option Bytes
unfolding after_prefix is_some
find word [] = none
find word (c ∷ text) =
    if is_some (after_prefix word (c ∷ text)) then some (c ∷ text) else find word text

unfoldable pub find_byte : ℕ → Bytes → Option Bytes
find_byte b [] = none
find_byte b (c ∷ text) = if c == b then some (c ∷ text) else find_byte b text

abbrev pub tail : Bytes → Bytes
tail [] = []
tail (c ∷ text) = text

-- `find_first_not_of(" \t\r\n")`
unfoldable pub skip_blank : Bytes → Option Bytes
skip_blank [] = none
skip_blank (c ∷ text) =
    if c == b' ' || c == 9 || c == 13 || c == 10 then skip_blank text else some (c ∷ text)

-- From the first colon behind the first mention of the key.
unfoldable pub at_colon : Bytes → Bytes → Option Bytes
unfolding find find_byte
at_colon json key = do at ← find (b'"' ∷ (key ++ b'"' ∷ [])) json; find_byte b':' at

-- The loop over a string's characters; the flag is `escape`.
unfoldable pub string_chars : Bool → Bytes → Bytes
string_chars escape [] = []
string_chars escape (c ∷ text) =
    let plain = c ∷ string_chars false text in
    let escaped = string_chars true text in
    if escape then plain else if c == b'\\' then escaped else if c == b'"' then [] else plain

opened : Option Bytes → Bytes
unfolding string_chars
opened none = []
opened (some text) = string_chars false (tail text)

unfoldable pub extract_json_string : Bytes → Bytes → Bytes
unfolding at_colon find_byte opened
extract_json_string json key = opened (do at ← at_colon json key; find_byte b'"' at)

unfoldable pub value_start : Bytes → Bytes → Option Bytes
unfolding at_colon skip_blank
value_start json key = do at ← at_colon json key; skip_blank (tail at)

bool_at : Bytes → Option Bool
unfolding after_prefix is_some
bool_at text =
    if is_some (after_prefix (codes "true") text)
    then some true
    else if is_some (after_prefix (codes "false") text)
    then some false
    else none

unfoldable pub extract_json_bool : Bytes → Bytes → Option Bool
unfolding value_start bool_at
extract_json_bool json key = do at ← value_start json key; bool_at at

-- The digits in front, if there are any, as a number.
leading_digits : Bytes → ℕ → ℕ
leading_digits [] n = n
leading_digits (c ∷ text) n =
    let more = leading_digits text (n * 10 + (c - b'0')) in if is_digit c then more else n

magnitude : Bytes → Option ℕ
unfolding leading_digits
magnitude [] = none
magnitude (c ∷ text) = if is_digit c then some (leading_digits (c ∷ text) 0) else none

in_range : Bool → ℕ → Option ℤ
in_range true n = if ltb (2 ^ 31) n then none else some (neg_ℕ n)
in_range false n = if ltb n (2 ^ 31) then some (pos n) else none

signed : Bytes → Option ℤ
unfolding magnitude in_range
signed [] = none
signed (c ∷ text) =
    if c == b'-'
    then (do n ← magnitude text; in_range true n)
    else if c == b'+'
    then (do n ← magnitude text; in_range false n)
    else (do n ← magnitude (c ∷ text); in_range false n)

-- `std::stoi` with an `int` of 32 bits: white space, a sign, digits, and anything behind them;
-- `none` for either of its exceptions.
unfoldable pub stoi : Bytes → Option ℤ
unfolding signed ws
stoi text = signed (ws text)

-- The characters in front of the first that is not of "-0123456789".
unfoldable pub number_token : Bytes → Bytes
number_token [] = []
number_token (c ∷ text) =
    let more = c ∷ number_token text in if c == b'-' || is_digit c then more else []

unfoldable pub extract_json_int : Bytes → Bytes → Option ℤ
unfolding value_start number_token stoi
extract_json_int json key = do at ← value_start json key; stoi (number_token at)

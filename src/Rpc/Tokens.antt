-- ===== src/Rpc/Tokens.antt =====
-- `parse_json_string_token`, `extract_json_object_body` and their helpers (src/studio_host.cpp). A
-- position is the rest of the text. The loops go byte by byte: an escape that takes several bytes
-- leaves the number of bytes still to skip.
use streammate_studio_host.Prelude.{
  ℕ, zero, suc, ◌+◌, ◌-◌, ◌*◌, Bool, true, false, not, ◌&&◌, ◌||◌, Option, none, some, [], ◌∷◌,
  ◌++◌, ◌==◌, leb, if◌then◌else◌, Bytes, is_empty,
}
use streammate_studio_host.Prelude.Maybe.{◌>>=◌}
use streammate_studio_host.Scanner.{hex4}
use streammate_studio_host.Scanner.Utf8.{append_utf8}
use streammate_studio_host.Rpc.Fields.{value_start}

unfoldable pub append_utf8_codepoint : Bytes → ℕ → Bytes
append_utf8_codepoint value codepoint =
    if leb codepoint 0x10FFFF then append_utf8 value codepoint else append_utf8 value 0xFFFD

-- What a `u` escape stands for, with the number of bytes that it takes behind the backslash.
surrogate : ℕ → Option (ℕ × Bytes) → ℕ × ℕ
surrogate high none = (0xFFFD, 5)
surrogate high (some (low, rest)) =
    if leb 0xDC00 low && leb low 0xDFFF
    then (0x10000 + (high - 0xD800) * 0x400 + (low - 0xDC00), 11)
    else (0xFFFD, 5)

low_unit : Bytes → Option (ℕ × Bytes)
low_unit (c ∷ d ∷ t) = if c == b'\\' && d == b'u' then hex4 t else none
low_unit _ = none

code_point : ℕ → Bytes → ℕ × ℕ
unfolding surrogate low_unit
code_point unit rest =
    if leb 0xD800 unit && leb unit 0xDBFF
    then surrogate unit (low_unit rest)
    else if leb 0xDC00 unit && leb unit 0xDFFF
    then (0xFFFD, 5)
    else (unit, 5)

unicode_escape : Option (ℕ × Bytes) → Option (Bytes × ℕ)
unfolding append_utf8_codepoint code_point
unicode_escape none = none
unicode_escape (some (unit, rest)) =
    let p = code_point unit rest in some (append_utf8_codepoint [] p.0, p.1)

-- The bytes that an escape stands for, and how many it takes.
unfoldable pub escape_at : Bytes → Option (Bytes × ℕ)
unfolding unicode_escape
escape_at [] = none
escape_at (e ∷ t) =
    if e == b'"' || e == b'\\' || e == b'/'
    then some (e ∷ [], 1)
    else if e == b'b'
    then some (8 ∷ [], 1)
    else if e == b'f'
    then some (12 ∷ [], 1)
    else if e == b'n'
    then some (10 ∷ [], 1)
    else if e == b'r'
    then some (13 ∷ [], 1)
    else if e == b't'
    then some (9 ∷ [], 1)
    else if e == b'u'
    then unicode_escape (hex4 t)
    else none

-- The flag is `escape`.
unfoldable pub consume_json_string_remainder : Bool → Bytes → Bytes
consume_json_string_remainder escape [] = []
consume_json_string_remainder escape (c ∷ t) =
    let plain = consume_json_string_remainder false t in
    let escaped = consume_json_string_remainder true t in
    if escape then plain else if c == b'\\' then escaped else if c == b'"' then t else plain

abbrev pub tail : Bytes → Bytes
tail [] = []
tail (c ∷ t) = t

-- The loop behind the opening quote; the number is how many bytes belong to the last escape.
unfoldable pub token_chars : ℕ → Bytes → Bytes → Option Bytes × Bytes
unfolding escape_at consume_json_string_remainder
token_chars skip value [] = (none, [])
token_chars (suc skip) value (c ∷ t) = token_chars skip value t
token_chars zero value (c ∷ t) =
    let plain = token_chars zero (value ++ c ∷ []) t in
    if c == b'"'
    then (some value, t)
    else if c == b'\\' && not (is_empty t)
    then elim (escape_at t) [
      | none ↦ (none, consume_json_string_remainder false (tail t))
      | some (v, n) ↦ token_chars n (value ++ v) t
    ]
    else plain

unfoldable pub parse_json_string_token : Bytes → Option Bytes × Bytes
unfolding token_chars
parse_json_string_token [] = (none, [])
parse_json_string_token (c ∷ t) = if c == b'"' then token_chars zero [] t else (none, c ∷ t)

-- The loop over an object's text from its first brace on: `depth`, `in_string`, `escape`, and the
-- bytes passed.
unfoldable pub object_chars : ℕ → Bool → Bool → Bytes → Bytes → Option Bytes
object_chars depth in_string escape passed [] = none
object_chars depth in_string escape passed (c ∷ t) =
    let go = λ (d : ℕ) (s e : Bool). object_chars d s e (passed ++ c ∷ []) t in
    if in_string
    then (if escape
        then go depth true false
        else if c == b'\\'
        then go depth true true
        else go depth (not (c == b'"')) false)
    else if c == b'"'
    then go depth true false
    else if c == b'{'
    then go (suc depth) false false
    else if c == b'}'
    then (if leb depth 1 then some passed else go (depth - 1) false false)
    else go depth false false

unfoldable pub body_at : Bytes → Option Bytes
unfolding object_chars
body_at [] = none
body_at (c ∷ t) = if c == b'{' then object_chars 1 false false [] t else none

unfoldable pub extract_json_object_body : Bytes → Bytes → Option Bytes
unfolding value_start body_at
extract_json_object_body json key = do at ← value_start json key; body_at at

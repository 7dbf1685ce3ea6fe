-- ===== src/Scanner.antt =====
-- `ManifestScanner` of src/studio_host.cpp: the strict scanner for launch files. The scanner's
-- state is `pos_`, which is modelled by the text that is still to be read. A method that can fail
-- after it has moved `pos_` (`string`, `skip_value`) returns no text then: every caller gives up.
-- Loops take fuel: each round takes one unit and at least one byte of the text.
pub mod Utf8
pub mod Number
pub mod Strings
pub mod Value
use streammate_studio_host.Prelude.{
  ℕ, zero, suc, ◌+◌, ◌-◌, ◌*◌, ◌^◌, Bool, true, false, ◌&&◌, ◌||◌, Option, none, some, List, [],
  ◌∷◌, ◌++◌, ◌==◌, ltb, leb, if◌then◌else◌, Bytes, codes, is_space, is_digit, after_prefix, bit_or,
  length,
}
use streammate_studio_host.Prelude.Maybe.{◌>>=◌}
use Utf8.{append_utf8, hex_digit_value}
use Number.{ws, number}

unfoldable pub eof : Bytes → Bool
unfolding ws
eof t = elim (ws t) [ [] ↦ true | _ ↦ false ]

take_char : ℕ → Bytes → Bool × Bytes
take_char c [] = (false, [])
take_char c (d ∷ t) = if d == c then (true, t) else (false, d ∷ t)

-- Whether `c` is next behind white space, and the text behind it or behind the white space.
unfoldable pub consume : ℕ → Bytes → Bool × Bytes
unfolding ws take_char
consume c t = take_char c (ws t)

take_word : Bytes → Bytes → Bool × Bytes
take_word word t = elim (after_prefix word t) [ some rest ↦ (true, rest) | none ↦ (false, t) ]

unfoldable pub literal : Bytes → Bytes → Bool × Bytes
unfolding ws take_word after_prefix
literal word t = take_word word (ws t)

-- `value = (value << 4) | digit`; four digits stay below 2 ^ 16.
unfoldable pub push_digit : ℕ → ℕ → Option ℕ
unfolding hex_digit_value
push_digit value c = do digit ← hex_digit_value c; some (bit_or (value * 2 ^ 4) digit)

unfoldable pub hex4_value : ℕ → ℕ → ℕ → ℕ → Option ℕ
unfolding push_digit
hex4_value a b c d = do v ← push_digit 0 a; v ← push_digit v b; v ← push_digit v c; push_digit v d

unfoldable pub hex4 : Bytes → Option (ℕ × Bytes)
hex4 (a ∷ b ∷ c ∷ d ∷ t) = do v ← hex4_value a b c d; some (v, t)
hex4 _ = none

-- Behind a high surrogate: the low one must follow as another `\u` escape.
unfoldable pub low_surrogate : ℕ → Bytes → Bytes → Option (Bytes × Bytes)
unfolding after_prefix
low_surrogate high t out = do
  t ← after_prefix (codes "\\u") t
  (low, t) ← hex4 t
  if ltb low 0xDC00 || ltb 0xDFFF low
      then none
      else some (append_utf8 out (0x10000 + (high - 0xD800) * 2 ^ 10 + (low - 0xDC00)), t)

-- `case 'u'`: the text built so far grows by one code point.
unfoldable pub code_unit : Bytes → Bytes → Option (Bytes × Bytes)
unfolding hex4
code_unit t out = do
  (unit, t) ← hex4 t
  if leb 0xD800 unit && leb unit 0xDBFF
      then low_surrogate unit t out
      else if leb 0xDC00 unit && leb unit 0xDFFF
      then none
      else some (append_utf8 out unit, t)

-- The `switch` on the byte behind a backslash.
unfoldable pub unescape : Bytes → Bytes → Option (Bytes × Bytes)
unfolding code_unit
unescape [] out = none
unescape (e ∷ t) out =
    if e == b'"' || e == b'\\' || e == b'/'
    then some (out ++ e ∷ [], t)
    else if e == b'b'
    then some (out ++ 8 ∷ [], t)
    else if e == b'f'
    then some (out ++ 12 ∷ [], t)
    else if e == b'n'
    then some (out ++ 10 ∷ [], t)
    else if e == b'r'
    then some (out ++ 13 ∷ [], t)
    else if e == b't'
    then some (out ++ 9 ∷ [], t)
    else if e == b'u'
    then code_unit t out
    else none

-- The loop of `string`.
unfoldable pub string_body : ℕ → Bytes → Bytes → Option (Bytes × Bytes)
unfolding unescape
string_body zero t out = none
string_body (suc fuel) [] out = none
string_body (suc fuel) (c ∷ t) out =
    let escaped = unescape t out >>= λ r. string_body fuel r.1 r.0 in
    let plain = string_body fuel t (out ++ c ∷ []) in
    if c == b'"'
    then some (out, t)
    else if c == b'\\'
    then escaped
    else if ltb c 0x20
    then none
    else plain

quoted : Bytes → Option (Bytes × Bytes)
unfolding string_body
quoted [] = none
quoted (c ∷ t) = if c == b'"' then string_body (length t) t [] else none

unfoldable pub string : Bytes → Option (Bytes × Bytes)
unfolding quoted ws
string t = quoted (ws t)

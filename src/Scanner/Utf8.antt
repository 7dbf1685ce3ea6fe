-- ===== src/Scanner/Utf8.antt =====
-- The two UTF-8 writers of src/studio_host.cpp, and the hexadecimal readers beside them.
use streammate_studio_host.Prelude.{
  ℕ, ◌+◌, ◌-◌, ◌/◌, ◌^◌, ◌&&◌, Option, none, some, [], ◌∷◌, ◌++◌, ltb, leb, if◌then◌else◌, Bytes,
  bit_and, bit_or,
}

-- `ManifestScanner::append_utf8`. A cast to `char` keeps the low byte; the values written are
-- below 256 for every code point below 0x110000.
unfoldable pub append_utf8 : Bytes → ℕ → Bytes
append_utf8 out codepoint =
    if ltb codepoint 0x80
    then out ++ codepoint ∷ []
    else if ltb codepoint 0x800
    then out ++ bit_or 0xC0 (codepoint / 2 ^ 6) ∷ bit_or 0x80 (bit_and codepoint 0x3F) ∷ []
    else if ltb codepoint 0x10000
    then out
      ++ bit_or 0xE0 (codepoint / 2 ^ 12)
        ∷ bit_or 0x80 (bit_and (codepoint / 2 ^ 6) 0x3F)
        ∷ bit_or 0x80 (bit_and codepoint 0x3F)
        ∷ []
    else out
      ++ bit_or 0xF0 (codepoint / 2 ^ 18)
        ∷ bit_or 0x80 (bit_and (codepoint / 2 ^ 12) 0x3F)
        ∷ bit_or 0x80 (bit_and (codepoint / 2 ^ 6) 0x3F)
        ∷ bit_or 0x80 (bit_and codepoint 0x3F)
        ∷ []

-- `hex_digit_value`; `none` stands for the -1 that its caller tests for.
unfoldable pub hex_digit_value : ℕ → Option ℕ
hex_digit_value c =
    if leb b'0' c && leb c b'9'
    then some (c - b'0')
    else if leb b'a' c && leb c b'f'
    then some (10 + (c - b'a'))
    else if leb b'A' c && leb c b'F'
    then some (10 + (c - b'A'))
    else none

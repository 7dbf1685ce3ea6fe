-- ===== src/Json/Escape.antt =====
-- `json_escape` of src/studio_host.cpp.
use streammate_studio_host.Prelude.{
  ℕ, ◌+◌, ◌-◌, ◌/◌, ◌%◌, [], ◌≤◌, ◌<◌, ◌≡◌, refl, arith, length, length-append, ◌∷◌, ◌++◌, ◌==◌,
  ltb, if◌then◌else◌, Bytes,
}

-- One digit as `std::hex << std::uppercase` prints it.
unfoldable pub hex_upper : ℕ → ℕ
hex_upper d = if ltb d 10 then b'0' + d else b'A' + (d - 10)

abbrev short : ℕ → Bytes
short c = b'\\' ∷ c ∷ []

-- What one round of the loop writes: the `switch` on the byte.
unfoldable pub escape_byte : ℕ → Bytes
unfolding hex_upper
escape_byte c =
    if c == b'"'
    then short b'"'
    else if c == b'\\'
    then short b'\\'
    else if c == 8
    then short b'b'
    else if c == 12
    then short b'f'
    else if c == 10
    then short b'n'
    else if c == 13
    then short b'r'
    else if c == 9
    then short b't'
    else if ltb c 0x20
    then b'\\' ∷ b'u' ∷ b'0' ∷ b'0' ∷ hex_upper (c / 16) ∷ hex_upper (c % 16) ∷ []
    else c ∷ []

unfoldable pub json_escape : Bytes → Bytes
json_escape [] = []
json_escape (c ∷ s) = escape_byte c ++ json_escape s

pub json_escape-cons : (c : ℕ) (s : Bytes) → json_escape (c ∷ s) ≡ escape_byte c ++ json_escape s
unfolding json_escape
json_escape-cons c s = refl

lt-length-escape_byte : (c : ℕ) → 0 < length (escape_byte c)
unfolding escape_byte
lt-length-escape_byte c = ground arith

pub length-json_escape : (s : Bytes) → length s ≤ length (json_escape s)
unfolding json_escape
length-json_escape [] = omega arith
length-json_escape (c ∷ s) = omega (
  arith,
  length-json_escape s,
  lt-length-escape_byte c,
  length-append {0} (escape_byte c) (json_escape s),
)

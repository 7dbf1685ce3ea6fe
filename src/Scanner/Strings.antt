-- ===== src/Scanner/Strings.antt =====
-- The scanner reads back what `json_escape` writes.
use streammate_studio_host.Prelude.{
  ℕ, zero, suc, ◌/◌, ◌%◌, ◌<◌, ◌≡◌, refl, ◌∙◌, Bool, true, false, Option, none, some, [], ◌∷◌, ◌++◌,
  append_assoc, append-nil, length, length-append, arith, ◌==◌, Bytes, IsByte, IsText,
}
use streammate_studio_host.Json.Escape.{
  hex_upper, escape_byte, json_escape, json_escape-cons, length-json_escape,
}
use streammate_studio_host.Scanner.{hex4_value, string_body, string}
use streammate_studio_host.Scanner.Utf8.{append_utf8}
use streammate_studio_host.Prelude.Tables.{passes, passes-lt}

abbrev is_value : Option ℕ → ℕ → Bool
is_value none n = false
is_value (some m) n = m == n

is_value-eq : (o : Option ℕ) (n : ℕ) → is_value o n ≡ true → o ≡ some n
is_value-eq none n h = cc
is_value-eq (some m) n h = ground arith

-- The value of the escape of a control byte.
abbrev control_value : ℕ → Option ℕ
control_value c = hex4_value b'0' b'0' (hex_upper (c / 16)) (hex_upper (c % 16))

control_table : passes (λ c. is_value (control_value c) c) 32 ≡ true
unfolding passes hex4_value hex_upper
control_table = refl

control-hex4_value : (c : ℕ) → c < 32 → control_value c ≡ some c
control-hex4_value c h =
    is_value-eq (control_value c) c
      (passes-lt (λ b. is_value (control_value b) b) 32 c h control_table)

-- One escaped byte costs one round.
string_body-escape_byte :
    (fuel c : ℕ) (rest out : Bytes)
    → IsByte c
    → string_body (suc fuel) (escape_byte c ++ rest) out ≡ string_body fuel rest (out ++ c ∷ [])
unfolding string_body escape_byte append_utf8
string_body-escape_byte fuel c rest out h = ground (arith, control-hex4_value c)

-- The loop reads an escaped text up to the closing quote, and returns the text itself.
string_body-json_escape :
    (s : Bytes) (fuel : ℕ) (rest out : Bytes)
    → IsText s
    → length s < fuel
    → string_body fuel (json_escape s ++ b'"' ∷ rest) out ≡ some (out ++ s, rest)
string_body-json_escape [] zero rest out h f = absurd (omega arith)
string_body-json_escape [] (suc fuel) rest out h f = unfold string_body json_escape in rw append-nil
string_body-json_escape (c ∷ s) zero rest out h f = absurd (omega arith)
string_body-json_escape (c ∷ s) (suc fuel) rest out (hc, hs) f =
    rw (json_escape-cons, append_assoc, string_body-escape_byte fuel c _ out hc)
      (string_body-json_escape s fuel rest (out ++ c ∷ []) hs (omega arith) ∙ rw append_assoc)

-- What `json_escape` writes between quotes is read back as the text itself, whatever bytes it holds
-- and whatever follows.
pub string-json_escape :
    (s rest : Bytes) → IsText s → string (b'"' ∷ (json_escape s ++ b'"' ∷ rest)) ≡ some (s, rest)
unfolding string
string-json_escape s rest h =
    string_body-json_escape s (length (json_escape s ++ b'"' ∷ rest)) rest [] h
      (omega (arith, length-json_escape s, length-append {0} (json_escape s) (b'"' ∷ rest)))

-- ===== src/Prelude/Text.antt =====
-- Byte strings: literals, equality, prefixes, and the character classes of the C locale.
use Prim.Native.Nat.{ℕ, ◌<◌}
use Prim.Native.Char.{code}
use Prim.Native.String.{String}
use mathlib.Core.Path.{◌≡◌}
use mathlib.Core.Logic.{◌↔◌}
use mathlib.Core.Bool.{Bool, true, false, ◌&&◌, ◌||◌}
use mathlib.Core.Option.{Option, none, some}
use mathlib.Core.List.{List, [], ◌∷◌, ◌++◌}
use native.Mathlib.Omega.{arith}
use streammate_studio_host.Prelude.Tests.{leb, ◌==◌, if◌then◌else◌}
use streammate_studio_host.Prelude.Lists.{All}

abbrev pub Bytes : Type 0
Bytes = List ℕ

-- The code points of a literal; these are its bytes, since every literal here is ASCII.
abbrev pub codes : String → Bytes
codes String.[] = []
codes (String.◌∷◌ c s) = code c ∷ codes s

abbrev pub IsByte : ℕ → Type 0
IsByte c = c < 256

abbrev pub IsText : Bytes → Type 0
IsText = All IsByte

unfoldable pub equal : Bytes → Bytes → Bool
equal [] [] = true
equal (x ∷ xs) (y ∷ ys) = x == y && equal xs ys
equal _ _ = false

pub equal_iff : (s t : Bytes) → (equal s t ≡ true) ↔ (s ≡ t)
unfolding equal
equal_iff [] [] = ground arith
equal_iff [] (d ∷ t) = ground arith
equal_iff (c ∷ s) [] = ground arith
equal_iff (c ∷ s) (d ∷ t) = ground (arith, equal_iff s t)

-- What follows `prefix` at the front of a text, if the text starts with it.
unfoldable pub after_prefix : Bytes → Bytes → Option Bytes
after_prefix [] text = some text
after_prefix (p ∷ ps) [] = none
after_prefix (p ∷ ps) (c ∷ cs) = if p == c then after_prefix ps cs else none

pub after_prefix-eq :
    (p : Bytes) (text : Bytes) {rest : Bytes} → after_prefix p text ≡ some rest → text ≡ p ++ rest
unfolding after_prefix
after_prefix-eq [] text h = ground arith
after_prefix-eq (p ∷ ps) [] h = cc
after_prefix-eq (p ∷ ps) (c ∷ cs) {rest} h = ground (arith, after_prefix-eq ps cs {rest = rest})

-- `std::isspace`, `std::isdigit`.
abbrev pub is_space : ℕ → Bool
is_space c = (leb 9 c && leb c 13) || c == b' '

abbrev pub is_digit : ℕ → Bool
is_digit c = leb b'0' c && leb c b'9'

-- `s.empty()`
abbrev pub is_empty : Bytes → Bool
is_empty [] = true
is_empty (c ∷ s) = false

unfoldable pub is_some {ℓ} : {A : Type ℓ} → Option A → Bool
is_some none = false
is_some (some a) = true

-- `text.find(word) != npos`
unfoldable pub contains_text : Bytes → Bytes → Bool
unfolding after_prefix is_some
contains_text word [] = is_empty word
contains_text word (c ∷ text) = is_some (after_prefix word (c ∷ text)) || contains_text word text

-- ===== src/Rpc/Fields/Decimal.antt =====
-- `std::stoi` on decimal digits.
use streammate_studio_host.Prelude.{
  ℕ, ◌+◌, ◌-◌, ◌*◌, ◌^◌, ◌<◌, ◌≡◌, refl, ◌∙◌, ap, true, some, [], ◌∷◌, Bytes, All, arith, is_digit,
  ltb,
}
use streammate_studio_host.Prelude.Int.{pos}
use streammate_studio_host.Scanner.Number.{ws}
use streammate_studio_host.Rpc.Fields.{stoi, signed, magnitude, leading_digits, in_range}

abbrev pub AllDecimal : Bytes → Type 0
AllDecimal = All (λ c. is_digit c ≡ true)

-- The number that digits stand for, behind those that stand for `n`.
unfoldable pub decimal : Bytes → ℕ → ℕ
decimal [] n = n
decimal (c ∷ text) n = decimal text (10 * n + (c - b'0'))

leading_digits-decimal :
    (text : Bytes) (n : ℕ) → AllDecimal text → leading_digits text n ≡ decimal text n
unfolding leading_digits decimal
leading_digits-decimal [] n h = refl
leading_digits-decimal (c ∷ text) n (d, h) =
    let e : n * 10 + (c - b'0') ≡ 10 * n + (c - b'0') = omega arith in
    rw d (leading_digits-decimal text (n * 10 + (c - b'0')) h ∙ ap (decimal text) e)

pub stoi-decimal :
    (c : ℕ) (text : Bytes)
    → AllDecimal (c ∷ text)
    → decimal (c ∷ text) 0 < 2 ^ 31
    → stoi (c ∷ text) ≡ some (pos (decimal (c ∷ text) 0))
unfolding stoi ws signed magnitude in_range
stoi-decimal c text (d, h) small =
    let low : ltb (decimal (c ∷ text) 0) (2 ^ 31) ≡ true = ground arith in
    ground (arith, leading_digits-decimal (c ∷ text) 0 (d, h), low)

-- ===== src/Rpc/Identity/Numbers.antt =====
-- The grammar of JSON numbers (RFC 8259), and `is_json_number_token` (src/studio_host.cpp) against it.
use streammate_studio_host.Prelude.{
  ◌⊎◌, inl, inr, ℕ, ◌≤◌, ◌≡◌, ◌≢◌, refl, sym, ap, ◌∙◌, true, false, ◌||◌, Option, none, some, [],
  ◌∷◌, ◌++◌, ◌==◌, ==_iff, Bytes, All, arith, if_holds, append_assoc, append-nil, is_digit,
  Bool-cases, is_empty,
}
use streammate_studio_host.Prelude.Maybe.{◌>>=◌}
use streammate_studio_host.Rpc.Identity.{
  digits_end, some_digits, minus_skipped, whole_part, fraction_part, sign_skipped, exponent_part,
  number_end, is_json_number_token,
}

abbrev pub IsDigit : ℕ → Type 0
IsDigit c = (b'0' ≤ c) × (c ≤ b'9')

abbrev pub AllDigits : Bytes → Type 0
AllDigits = All IsDigit

-- One digit or more.
abbrev pub IsDigits : Bytes → Type 0
IsDigits s = AllDigits s × (s ≢ [])

-- A zero alone, or digits that start with another one.
pub data IsInt : Bytes → Type 0 where
  zero_alone : IsInt (b'0' ∷ [])
  digits : (d : ℕ) (ds : Bytes) → IsDigit d → d ≢ b'0' → AllDigits ds → IsInt (d ∷ ds)

pub data IsFrac : Bytes → Type 0 where
  no_fraction : IsFrac []
  fraction : (ds : Bytes) → IsDigits ds → IsFrac (b'.' ∷ ds)

pub data IsSign : Bytes → Type 0 where
  unsigned : IsSign []
  plus : IsSign (b'+' ∷ [])
  minus : IsSign (b'-' ∷ [])

pub data IsExp : Bytes → Type 0 where
  no_exponent : IsExp []
  exponent :
      (c : ℕ) (sign ds : Bytes)
      → (c ≡ b'e') ⊎ (c ≡ b'E')
      → IsSign sign
      → IsDigits ds
      → IsExp (c ∷ (sign ++ ds))

pub data IsMinus : Bytes → Type 0 where
  positive : IsMinus []
  negative : IsMinus (b'-' ∷ [])

-- `number = [ minus ] int [ frac ] [ exp ]`
pub record IsNumber (token : Bytes) : Type 0 where
  pub sign : Bytes
  pub int : Bytes
  pub frac : Bytes
  pub exp : Bytes
  pub is_sign : IsMinus sign
  pub is_int : IsInt int
  pub is_frac : IsFrac frac
  pub is_exp : IsExp exp
  pub whole : token ≡ sign ++ (int ++ (frac ++ exp))

is_digit-IsDigit : (c : ℕ) → is_digit c ≡ true → IsDigit c
is_digit-IsDigit c h = (ground arith, ground arith)

-- What a part of the grammar takes of a text that a step leaves `rest` of.
abbrev Takes : (Bytes → Type 0) → Bytes → Bytes → Type 0
Takes P text rest = (part : Bytes) × P part × (text ≡ part ++ rest)

digits_end-Takes : (t : Bytes) → Takes AllDigits t (digits_end t)
unfolding digits_end
digits_end-Takes [] = ([], tt, refl)
digits_end-Takes (c ∷ t) =
    if_holds (Takes AllDigits (c ∷ t)) (is_digit c)
      (λ d.
        let (ds, all, e) = digits_end-Takes t in
        (c ∷ ds, (is_digit-IsDigit c d, all), ap (λ x. c ∷ x) e))
      λ d. ([], tt, refl)

-- A step that may refuse.
abbrev TakesSome : (Bytes → Type 0) → Bytes → Option Bytes → Type 0
TakesSome P text none = Unit
TakesSome P text (some rest) = Takes P text rest

some_digits-Takes : (t : Bytes) → TakesSome IsDigits t (some_digits t)
unfolding some_digits
some_digits-Takes [] = tt
some_digits-Takes (c ∷ t) =
    if_holds (TakesSome IsDigits (c ∷ t)) (is_digit c)
      (λ d.
        let (ds, all, e) = digits_end-Takes t in
        (c ∷ ds, ((is_digit-IsDigit c d, all), λ n. cc), ap (λ x. c ∷ x) e))
      λ d. tt

minus_skipped-Takes : (t : Bytes) → Takes IsMinus t (minus_skipped t)
unfolding minus_skipped
minus_skipped-Takes [] = ([], positive, refl)
minus_skipped-Takes (c ∷ t) =
    if_holds (Takes IsMinus (c ∷ t)) (c == b'-')
      (λ e. (b'-' ∷ [], negative, ap (λ x. x ∷ t) ((==_iff c b'-').0 e))) λ e. ([], positive, refl)

sign_skipped-Takes : (t : Bytes) → Takes IsSign t (sign_skipped t)
unfolding sign_skipped
sign_skipped-Takes [] = ([], unsigned, refl)
sign_skipped-Takes (c ∷ t) =
    if_holds (Takes IsSign (c ∷ t)) (c == b'+' || c == b'-')
      (λ e. elim (Bool-cases (c == b'+')) [
        | inl p ↦ (b'+' ∷ [], plus, ap (λ x. x ∷ t) ((==_iff c b'+').0 p))
        | inr p ↦ (b'-' ∷ [], minus, ap (λ x. x ∷ t) (ground arith))
      ])
      λ e. ([], unsigned, refl)

whole_part-Takes : (t : Bytes) → TakesSome IsInt t (whole_part t)
unfolding whole_part
whole_part-Takes [] = tt
whole_part-Takes (c ∷ t) =
    if_holds (TakesSome IsInt (c ∷ t)) (is_digit c)
      (λ d.
        if_holds (TakesSome IsInt (c ∷ t)) (c == b'0')
          (λ e. (b'0' ∷ [], zero_alone, ap (λ x. x ∷ t) ((==_iff c b'0').0 e)))
          λ e.
            let (ds, all, split) = digits_end-Takes t in
            let other : c ≢ b'0' = ground arith in
            (c ∷ ds, digits c ds (is_digit-IsDigit c d) other all, ap (λ x. c ∷ x) split))
      λ d. tt

fraction_part-Takes : (t : Bytes) → TakesSome IsFrac t (fraction_part t)
unfolding fraction_part
fraction_part-Takes [] = ([], no_fraction, refl)
fraction_part-Takes (c ∷ t) =
    if_holds (TakesSome IsFrac (c ∷ t)) (c == b'.')
      (λ e. behind ((==_iff c b'.').0 e) (some_digits t) (some_digits-Takes t))
      λ e. ([], no_fraction, refl)
  where
    behind :
        c ≡ b'.'
        → (found : Option Bytes) → TakesSome IsDigits t found
        → TakesSome IsFrac (c ∷ t) found
    behind e none h = tt
    behind e (some rest) (ds, is, split) =
        (b'.' ∷ ds, fraction ds is, ap (λ x. x ∷ t) e ∙ ap (λ x. b'.' ∷ x) split)

exponent_part-Takes : (t : Bytes) → TakesSome IsExp t (exponent_part t)
unfolding exponent_part
exponent_part-Takes [] = ([], no_exponent, refl)
exponent_part-Takes (c ∷ t) =
    if_holds (TakesSome IsExp (c ∷ t)) (c == b'e' || c == b'E')
      (λ e.
        behind
          (elim (Bool-cases (c == b'e')) [
            | inl p ↦ inl ((==_iff c b'e').0 p)
            | inr p ↦ inr (ground arith)
          ])
          (sign_skipped-Takes t) (some_digits (sign_skipped t))
          (some_digits-Takes (sign_skipped t)))
      λ e. ([], no_exponent, refl)
  where
    behind :
        (c ≡ b'e') ⊎ (c ≡ b'E')
        → Takes IsSign t (sign_skipped t)
        → (found : Option Bytes) → TakesSome IsDigits (sign_skipped t) found
        → TakesSome IsExp (c ∷ t) found
    behind e s none h = tt
    behind e (sign, is_sign, signed) (some rest) (ds, is, split) = (
      c ∷ (sign ++ ds),
      exponent c sign ds e is_sign is,
      ap (λ x. c ∷ x) (signed ∙ ap (λ x. sign ++ x) split ∙ sym (append_assoc sign ds rest)),
    )

-- Of a number nothing is left.
module _ (token : Bytes) where
  after_fraction :
      (whole fraction' : Bytes)
      → Takes IsInt (minus_skipped token) whole
      → Takes IsFrac whole fraction'
      → (end : Option Bytes) → TakesSome IsExp fraction' end
      → elim end [ none ↦ false | some rest ↦ is_empty rest ] ≡ true
      → IsNumber token
  after_fraction whole fraction' h k none = λ _ e. cc
  after_fraction whole fraction' h k (some (c ∷ rest)) = λ _ e. cc
  after_fraction whole fraction' (int, is_int, e1) (frac, is_frac, e2) (some []) =
      λ (is_exp : Takes IsExp fraction' []) e.
        let (sign, is_sign, e0) = minus_skipped-Takes token in
        let (exp, ok_exp, e3) = is_exp in
        record {
          sign = sign;
          int = int;
          frac = frac;
          exp = exp;
          is_sign = is_sign;
          is_int = is_int;
          is_frac = is_frac;
          is_exp = ok_exp;
          whole =
              e0
              ∙ ap (λ x. sign ++ x)
                  (e1 ∙ ap (λ x. int ++ x) (e2 ∙ ap (λ x. frac ++ x) (e3 ∙ append-nil exp)));
        }

  after_whole :
      (whole : Option Bytes)
      → TakesSome IsInt (minus_skipped token) whole
      → elim (do rest ← whole; fraction' ← fraction_part rest; exponent_part fraction') [
        | none ↦ false
        | some rest ↦ is_empty rest
      ]
        ≡ true
      → IsNumber token
  after_whole none h = λ e. cc
  after_whole (some whole) h = behind (fraction_part whole) (fraction_part-Takes whole)
    where
      behind :
          (found : Option Bytes)
          → TakesSome IsFrac whole found
          → elim (found >>= exponent_part) [ none ↦ false | some rest ↦ is_empty rest ] ≡ true
          → IsNumber token
      behind none k = λ e. cc
      behind (some fraction') k =
          after_fraction whole fraction' h k (exponent_part fraction')
            (exponent_part-Takes fraction')

pub is_json_number_token-IsNumber :
    (token : Bytes) → is_json_number_token token ≡ true → IsNumber token
unfolding is_json_number_token number_end
is_json_number_token-IsNumber token =
    after_whole token (whole_part (minus_skipped token)) (whole_part-Takes (minus_skipped token))

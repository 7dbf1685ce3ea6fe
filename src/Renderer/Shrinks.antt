-- ===== src/Renderer/Shrinks.antt =====
-- What the scanner of settings leaves of a text is no longer than the text.
use streammate_studio_host.Prelude.{
  false, not, ◌&&◌, Option, none, some, [], ◌∷◌, ◌++◌, ℕ, zero, suc, ◌≤◌, ◌<◌, ◌==◌, Bytes,
  is_empty, length, if_holds, arith,
}
use streammate_studio_host.Scanner.Number.{ws}
use streammate_studio_host.Rpc.Tokens.{
  token_chars, parse_json_string_token, escape_at, consume_json_string_remainder, tail,
}
use streammate_studio_host.Renderer.Settings.{double_token}

pub length-ws : (t : Bytes) → length (ws t) ≤ length t
unfolding ws
length-ws [] = omega arith
length-ws (c ∷ t) = ground (arith, length-ws t)

pub length-double_token : (t : Bytes) → length (double_token t).1 ≤ length t
unfolding double_token
length-double_token [] = omega arith
length-double_token (c ∷ t) = ground (arith, length-double_token t)

-- A token that is found is followed by at most so many bytes.
abbrev pub Within : ℕ → Option Bytes × Bytes → Type 0
Within n (none, t) = Unit
Within n (some value, t) = length t ≤ n

Within-weaken : (n m : ℕ) (out : Option Bytes × Bytes) → n ≤ m → Within n out → Within m out
Within-weaken n m (none, t) le h = tt
Within-weaken n m (some value, t) le h = omega arith

token_chars-Within : (skip : ℕ) (value t : Bytes) → Within (length t) (token_chars skip value t)
unfolding token_chars
token_chars-Within skip value [] = tt
token_chars-Within (suc skip) value (c ∷ t) =
    Within-weaken (length t) _ _ (omega arith) (token_chars-Within skip value t)
token_chars-Within zero value (c ∷ t) =
    if_holds (Within (suc (length t))) (c == b'"') (λ e. omega arith)
      λ e.
        if_holds (Within (suc (length t))) (c == b'\\' && not (is_empty t))
          (λ e. escaped (λ n v. token_chars-Within n v t) (escape_at t))
          λ e.
            Within-weaken (length t) _ _ (omega arith) (token_chars-Within zero (value ++ c ∷ []) t)
  where
    escaped :
        ((n : ℕ) (v : Bytes) → Within (length t) (token_chars n v t))
        → (at : Option (Bytes × ℕ))
        → Within (suc (length t)) (elim at [
          | none ↦ (none, consume_json_string_remainder false (tail t))
          | some (v, n) ↦ token_chars n (value ++ v) t
        ])
    escaped h none = tt
    escaped h (some (v, n)) = Within-weaken (length t) _ _ (omega arith) (h n (value ++ v))

-- The token itself takes at least a byte.
abbrev pub Shorter : Bytes → Option Bytes × Bytes → Type 0
Shorter t (none, rest) = Unit
Shorter t (some value, rest) = length rest < length t

pub parse_json_string_token-Shorter : (t : Bytes) → Shorter t (parse_json_string_token t)
unfolding parse_json_string_token
parse_json_string_token-Shorter [] = tt
parse_json_string_token-Shorter (c ∷ t) =
    if_holds (Shorter (c ∷ t)) (c == b'"')
      (λ e. strict (token_chars zero [] t) (token_chars-Within zero [] t)) λ e. tt
  where
    strict : (out : Option Bytes × Bytes) → Within (length t) out → Shorter (c ∷ t) out
    strict (none, rest) h = tt
    strict (some value, rest) h = omega arith

-- ===== src/Rpc/Identity/StringBody.antt =====
-- What is echoed as an id can stand in a JSON text: `sanitize_json_string_token` and `extract_json_id`
-- (src/studio_host.cpp) against a recognizer of strings.
use streammate_studio_host.Prelude.{
  ◌⊎◌, inl, inr, ℕ, zero, suc, ◌/◌, ◌%◌, ◌<◌, ◌≡◌, refl, sym, ap, ◌∙◌, Bool, true, false, ◌&&◌,
  ◌||◌, Option, none, some, [], ◌∷◌, ◌++◌, ◌==◌, ltb, if◌then◌else◌, Bytes, arith, if_holds, ltb→lt,
  subst, append-nil, equal, equal_iff, codes, Bool-cases,
}
use streammate_studio_host.Prelude.Maybe.{◌>>=◌}
use streammate_studio_host.Json.Escape.{json_escape, escape_byte, hex_upper}
use streammate_studio_host.Rpc.Fields.{find, find_byte, tail, skip_blank}
use streammate_studio_host.Rpc.Identity.{
  is_hex, is_short_escape, four_hex, escape_length, backslash, sanitize_from,
  sanitize_json_string_token, quoted_id, scalar_id, id_at, id_found, extract_json_id,
  is_json_number_token, id_chars,
}
use streammate_studio_host.Rpc.Identity.Numbers.{IsNumber, is_json_number_token-IsNumber}

-- What may come next in a JSON string: `digits n` is inside a \u with n digits to come.
pub data Awaits : Type 0 where
  escaped : Awaits
  digits : ℕ → Awaits

unfoldable pub next : Awaits → ℕ → Option Awaits
next escaped c =
    if is_short_escape c then some (digits 0) else if c == b'u' then some (digits 4) else none
next (digits zero) c =
    if c == b'\\' then some escaped else if c == b'"' || ltb c 0x20 then none else some (digits 0)
next (digits (suc n)) c = if is_hex c then some (digits n) else none

unfoldable pub rests : Awaits → Bool
rests escaped = false
rests (digits zero) = true
rests (digits (suc n)) = false

-- Whether the bytes can stand there up to the closing quote.
unfoldable pub reads : Awaits → Bytes → Bool
unfolding next rests
reads a [] = rests a
reads a (c ∷ t) = elim (next a c) [ none ↦ false | some b ↦ reads b t ]

abbrev pub IsStringBody : Bytes → Type 0
IsStringBody s = reads (digits 0) s ≡ true

pub reads-cons :
    (a b : Awaits) (c : ℕ) (t : Bytes) → next a c ≡ some b → reads a (c ∷ t) ≡ reads b t
unfolding reads
reads-cons a b c t e =
    subst (λ o. elim o [ none ↦ false | some z ↦ reads z t ] ≡ reads b t) (sym e) refl

-- The next bytes of a text are the rest of an escape.
Copies : ℕ → Awaits → Bytes → Type 0
Copies zero a s = a ≡ digits 0
Copies (suc n) a [] = ⊥
Copies (suc n) a (c ∷ t) = (b : Awaits) × ((next a c ≡ some b) × Copies n b t)

Copies-four_hex : (t : Bytes) → four_hex t ≡ true → Copies 4 (digits 4) t
unfolding four_hex Copies next
Copies-four_hex (a ∷ b ∷ c ∷ d ∷ t) h = (
  digits 3,
  (
    ground arith,
    (digits 2, (ground arith, (digits 1, (ground arith, (digits 0, (ground arith, refl)))))),
  ),
)
Copies-four_hex [] h = cc
Copies-four_hex (a ∷ []) h = cc
Copies-four_hex (a ∷ b ∷ []) h = cc
Copies-four_hex (a ∷ b ∷ c ∷ []) h = cc

Copies-escape : (t : Bytes) (n : ℕ) → escape_length t ≡ suc n → Copies (suc n) escaped t
unfolding escape_length Copies next
Copies-escape [] n = λ h. cc
Copies-escape (c ∷ t) n =
    if_holds (λ k. k ≡ suc n → Copies (suc n) escaped (c ∷ t)) (is_short_escape c)
      (λ e h.
        let z : 0 ≡ n = omega arith in
        (digits 0, (rw e refl, subst (λ k. Copies k (digits 0) t) z refl)))
      λ e.
        if_holds (λ k. k ≡ suc n → Copies (suc n) escaped (c ∷ t)) (c == b'u' && four_hex t)
          (λ u h.
            let z : 4 ≡ n = omega arith in
            let is_u : (c == b'u') ≡ true = ground arith in
            let hex : four_hex t ≡ true = ground arith in
            (
              digits 4,
              (rw (e, is_u) refl, subst (λ k. Copies k (digits 4) t) z (Copies-four_hex t hex)),
            ))
          λ u h. cc

digit-is_hex : (d : ℕ) → d < 16 → is_hex (hex_upper d) ≡ true
unfolding is_hex hex_upper
digit-is_hex d h = ground arith

hex_step : (n d : ℕ) → d < 16 → next (digits (suc n)) (hex_upper d) ≡ some (digits n)
unfolding next
hex_step n d h = rw (digit-is_hex d h) refl

-- One byte that is escaped can stand anywhere in a string.
reads-escape_byte : (c : ℕ) (t : Bytes) → reads (digits 0) (escape_byte c ++ t) ≡ reads (digits 0) t
unfolding escape_byte reads next is_short_escape is_hex
reads-escape_byte c t =
    let Same : Bytes → Type 0 = λ s. reads (digits 0) (s ++ t) ≡ reads (digits 0) t in
    if_holds Same (c == b'"') (λ e. refl)
      λ not_quote.
        if_holds Same (c == b'\\') (λ e. refl)
          λ not_backslash.
            if_holds Same (c == 8) (λ e. refl)
              λ _.
                if_holds Same (c == 12) (λ e. refl)
                  λ _.
                    if_holds Same (c == 10) (λ e. refl)
                      λ _.
                        if_holds Same (c == 13) (λ e. refl)
                          λ _.
                            if_holds Same (c == 9) (λ e. refl)
                              λ _.
                                if_holds Same (ltb c 0x20)
                                  (λ low.
                                    let l : c < 0x20 = ltb→lt c 0x20 low in
                                    reads-cons (digits 2) (digits 1) (hex_upper (c / 16))
                                      (hex_upper (c % 16) ∷ t) (hex_step 1 (c / 16) (omega arith))
                                    ∙ reads-cons (digits 1) (digits 0) (hex_upper (c % 16)) t
                                        (hex_step 0 (c % 16) (omega arith)))
                                  λ high.
                                    reads-cons (digits 0) (digits 0) c t
                                      (rw (not_backslash, not_quote, high) refl)

reads-end : reads (digits 0) [] ≡ true
unfolding reads rests
reads-end = refl

-- Behind a backslash.
reads-backslash :
    (t : Bytes)
    → ((n : ℕ) (a : Awaits) → Copies n a t → reads a (sanitize_from n t) ≡ true)
    → (n : ℕ) → escape_length t ≡ n
    → reads (digits 0) (backslash n ++ sanitize_from n t) ≡ true
unfolding backslash reads next is_short_escape Copies
reads-backslash t rest zero e = rest 0 (digits 0) refl
reads-backslash t rest (suc n) e = rest (suc n) escaped (Copies-escape t n e)

-- What is written can stand between quotes, while the rest of an escape is copied too.
reads-sanitize_from :
    (s : Bytes) (n : ℕ) (a : Awaits) → Copies n a s → reads a (sanitize_from n s) ≡ true
unfolding sanitize_from Copies json_escape
reads-sanitize_from [] zero a h = subst (λ a'. reads a' [] ≡ true) (sym h) reads-end
reads-sanitize_from [] (suc n) a h = absurd h
reads-sanitize_from (c ∷ t) (suc n) a (b, (step, h)) =
    reads-cons a b c (sanitize_from n t) step ∙ reads-sanitize_from t n b h
reads-sanitize_from (c ∷ t) zero a h =
    subst (λ a'. reads a' (sanitize_from 0 (c ∷ t)) ≡ true) (sym h)
      (if_holds (λ x. reads (digits 0) x ≡ true) (c == b'\\')
        (λ e. reads-backslash t (reads-sanitize_from t) (escape_length t) refl)
        λ e.
          ap (λ x. reads (digits 0) (x ++ sanitize_from 0 t)) (append-nil (escape_byte c))
          ∙ reads-escape_byte c (sanitize_from 0 t)
          ∙ reads-sanitize_from t 0 (digits 0) refl)

-- Whatever the bytes of an id are, what the reply echoes can stand between the quotes of a JSON
-- string: no quote ends it early, no control byte is left, and every backslash starts an escape.
pub sanitize_json_string_token-IsStringBody :
    (raw : Bytes) → IsStringBody (sanitize_json_string_token raw)
unfolding sanitize_json_string_token Copies
sanitize_json_string_token-IsStringBody raw = reads-sanitize_from raw 0 (digits 0) refl

-- A text that is a JSON value by itself: null, a truth value, a number, or a string.
abbrev pub IsIdText : Bytes → Type 0
IsIdText out =
    (out ≡ codes "null")
    ⊎ (out ≡ codes "true")
    ⊎ (out ≡ codes "false")
    ⊎ IsNumber out
    ⊎ ((body : Bytes) × (IsStringBody body × (out ≡ b'"' ∷ (body ++ b'"' ∷ []))))

quoted_id-IsIdText : (t : Bytes) → IsIdText (quoted_id t)
unfolding quoted_id
quoted_id-IsIdText t = of_inner (id_chars false t)
  where
    of_inner :
        (o : Option Bytes)
        → IsIdText (elim o [
          | none ↦ codes "null"
          | some inner ↦ b'"' ∷ (sanitize_json_string_token inner ++ b'"' ∷ [])
        ])
    of_inner none = inl refl
    of_inner (some inner) = inr (
        inr (
          inr (
            inr (
              sanitize_json_string_token inner,
              (sanitize_json_string_token-IsStringBody inner, refl),
            ))))

scalar_id-IsIdText : (token : Bytes) → IsIdText (scalar_id token)
unfolding scalar_id
scalar_id-IsIdText token =
    if_holds IsIdText
      (equal token (codes "null")
        || equal token (codes "true")
        || equal token (codes "false")
        || is_json_number_token token)
      known λ e. inl refl
  where
    known :
        (equal token (codes "null")
            || equal token (codes "true")
            || equal token (codes "false")
            || is_json_number_token token)
          ≡ true
        → IsIdText token
    known h = elim (Bool-cases (equal token (codes "null"))) [
      | inl e ↦ inl ((equal_iff token (codes "null")).0 e)
      | inr e ↦ elim (Bool-cases (equal token (codes "true"))) [
        | inl f ↦ inr (inl ((equal_iff token (codes "true")).0 f))
        | inr f ↦ elim (Bool-cases (equal token (codes "false"))) [
          | inl g ↦ inr (inr (inl ((equal_iff token (codes "false")).0 g)))
          | inr g ↦ inr (inr (inr (inl (is_json_number_token-IsNumber token (ground arith)))))
        ]
      ]
    ]

-- Whatever the bytes of a request are, the id that the reply echoes is a JSON value by itself: null, a
-- truth value, a number of the JSON grammar with nothing before or behind it, or a string between quotes
-- that nothing in it ends early, without control bytes and with valid escapes only.
pub extract_json_id-IsIdText : (json : Bytes) → IsIdText (extract_json_id json)
unfolding extract_json_id id_found id_at
extract_json_id-IsIdText json =
    found (do
      marker ← find (codes "\"id\"") json
      colon ← find_byte b':' marker
      skip_blank (tail colon))
  where
    found : (o : Option Bytes) → IsIdText (id_found o)
    found none = inl refl
    found (some []) = inl refl
    found (some (c ∷ t)) =
        if_holds IsIdText (c == b'"') (λ e. quoted_id-IsIdText t) λ e. scalar_id-IsIdText _

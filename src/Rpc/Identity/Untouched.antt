-- ===== src/Rpc/Identity/Untouched.antt =====
-- An id that is a string's body already is echoed as it came.
use streammate_studio_host.Prelude.{
  ◌⊎◌, inl, inr, Bool-cases, ℕ, zero, suc, ◌≡◌, refl, sym, ap, ◌∙◌, true, false, ◌||◌, none, some,
  [], ◌∷◌, ◌==◌, ltb, Bytes, arith, ==_iff, subst,
}
use streammate_studio_host.Json.Escape.{json_escape, escape_byte}
use streammate_studio_host.Rpc.Identity.{
  is_hex, is_short_escape, four_hex, escape_length, backslash, sanitize_from,
  sanitize_json_string_token,
}
use streammate_studio_host.Rpc.Identity.StringBody.{
  Awaits, escaped, digits, next, rests, reads, IsStringBody, reads-cons,
}

-- How many bytes are copied from here.
pending : Awaits → Bytes → ℕ
pending escaped s = escape_length s
pending (digits n) s = n

escape_byte-plain : (c : ℕ) → next (digits 0) c ≡ some (digits 0) → escape_byte c ≡ c ∷ []
unfolding next escape_byte
escape_byte-plain c h = ground arith

four_hex-reads : (t : Bytes) → reads (digits 4) t ≡ true → four_hex t ≡ true
unfolding reads next four_hex rests
four_hex-reads (a ∷ b ∷ c ∷ d ∷ t) h = ground arith
four_hex-reads [] h = cc
four_hex-reads (a ∷ []) h = ground arith
four_hex-reads (a ∷ b ∷ []) h = ground arith
four_hex-reads (a ∷ b ∷ c ∷ []) h = ground arith

reads-none : (a : Awaits) (c : ℕ) (t : Bytes) → next a c ≡ none → reads a (c ∷ t) ≡ true → ⊥
unfolding reads
reads-none a c t e h =
    let stuck : reads a (c ∷ t) ≡ false =
      subst (λ o. elim o [ none ↦ false | some z ↦ reads z t ] ≡ false) (sym e) refl in
    cc

reads-tail :
    (a b : Awaits) (c : ℕ) (t : Bytes)
    → next a c ≡ some b
    → reads a (c ∷ t) ≡ true
    → reads b t ≡ true
reads-tail a b c t e h = sym (reads-cons a b c t e) ∙ h

-- A valid escape behind a backslash is copied as a whole.
copied_escape :
    (c : ℕ) (t : Bytes)
    → reads escaped (c ∷ t) ≡ true
    → (escape_length (c ∷ t) ≡ 1) × (reads (digits 0) t ≡ true)
      ⊎ (escape_length (c ∷ t) ≡ 5) × (reads (digits 4) t ≡ true)
unfolding next escape_length
copied_escape c t h = elim (Bool-cases (is_short_escape c)) [
  | inl e ↦ inl (rw e refl, reads-tail escaped (digits 0) c t (rw e refl) h)
  | inr e ↦ elim (Bool-cases (c == b'u')) [
    | inl u ↦
        let hex = reads-tail escaped (digits 4) c t (rw (e, u) refl) h in
        inr (rw (e, u, four_hex-reads t hex) refl, hex)
    | inr u ↦ absurd (reads-none escaped c t (rw (e, u) refl) h)
  ]
]

-- Where a string may go on: a byte that is written as it is, or a backslash.
plain_or_backslash :
    (c : ℕ) (t : Bytes)
    → reads (digits 0) (c ∷ t) ≡ true
    → ((c == b'\\') ≡ true) × (reads escaped t ≡ true)
      ⊎ ((c == b'\\') ≡ false) × (escape_byte c ≡ c ∷ []) × (reads (digits 0) t ≡ true)
unfolding next
plain_or_backslash c t h = elim (Bool-cases (c == b'\\')) [
  | inl e ↦ inl (e, reads-tail (digits 0) escaped c t (rw e refl) h)
  | inr e ↦ elim (Bool-cases (c == b'"' || ltb c 0x20)) [
    | inl u ↦ absurd (reads-none (digits 0) c t (rw (e, u) refl) h)
    | inr u ↦
        let plain : next (digits 0) c ≡ some (digits 0) = rw (e, u) refl in
        inr (e, escape_byte-plain c plain, reads-tail (digits 0) (digits 0) c t plain h)
  ]
]

hex_digit :
    (n c : ℕ) (t : Bytes) → reads (digits (suc n)) (c ∷ t) ≡ true → reads (digits n) t ≡ true
unfolding next
hex_digit n c t h = elim (Bool-cases (is_hex c)) [
  | inl e ↦ reads-tail (digits (suc n)) (digits n) c t (rw e refl) h
  | inr e ↦ absurd (reads-none (digits (suc n)) c t (rw e refl) h)
]

backslash-escape : (t : Bytes) → reads escaped t ≡ true → backslash (escape_length t) ≡ b'\\' ∷ []
unfolding backslash reads rests
backslash-escape [] h = cc
backslash-escape (c ∷ t) h = elim (copied_escape c t h) [
  | inl p ↦ ap backslash p.0
  | inr p ↦ ap backslash p.0
]

sanitize_from-nil : (n : ℕ) → sanitize_from n [] ≡ []
unfolding sanitize_from
sanitize_from-nil n = refl

sanitize_from-reads :
    (s : Bytes) (a : Awaits) → reads a s ≡ true → sanitize_from (pending a s) s ≡ s
unfolding sanitize_from json_escape pending
sanitize_from-reads [] escaped h = refl
sanitize_from-reads [] (digits n) h = sanitize_from-nil n
sanitize_from-reads (c ∷ t) (digits (suc n)) h =
    ap (λ x. c ∷ x) (sanitize_from-reads t (digits n) (hex_digit n c t h))
sanitize_from-reads (c ∷ t) escaped h = elim (copied_escape c t h) [
  | inl p ↦
      ap (λ n. sanitize_from n (c ∷ t)) p.0 ∙ ap (λ x. c ∷ x) (sanitize_from-reads t (digits 0) p.1)
  | inr p ↦
      ap (λ n. sanitize_from n (c ∷ t)) p.0 ∙ ap (λ x. c ∷ x) (sanitize_from-reads t (digits 4) p.1)
]
sanitize_from-reads (c ∷ t) (digits zero) h = elim (plain_or_backslash c t h) [
  | inl (e, p) ↦
      rw (e, backslash-escape t p, sanitize_from-reads t escaped p)
        (ap (λ x. x ∷ t) (sym ((==_iff c b'\\').0 e)))
  | inr (e, k, p) ↦ rw (e, k, sanitize_from-reads t (digits 0) p) refl
]

-- An id that can stand between the quotes of a JSON string is echoed as it came, with its escapes.
pub sanitize_json_string_token-same :
    (raw : Bytes) → IsStringBody raw → sanitize_json_string_token raw ≡ raw
unfolding sanitize_json_string_token pending
sanitize_json_string_token-same raw h = sanitize_from-reads raw (digits 0) h

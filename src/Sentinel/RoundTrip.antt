-- ===== src/Sentinel/RoundTrip.antt =====
-- What `serialize` writes is read back by `load_or_throw`.
use streammate_studio_host.Prelude.{
  is_empty, ℕ, suc, ◌≤◌, ◌<◌, ◌≡◌, refl, subst, ◌-◌, ◌∙◌, inl, inr, arith, Bool, true, false, not,
  ◌||◌, List, [], ◌∷◌, Bytes, codes, equal, length, Bool-cases,
}
use streammate_studio_host.Prelude.Ordered.{less, add, member}
use streammate_studio_host.Prelude.Result.{ok, err}
use streammate_studio_host.Json.Escape.{json_escape, escape_byte}
use streammate_studio_host.Scanner.{consume, eof}
use streammate_studio_host.Manifest.{is_module_ref, expect}
use streammate_studio_host.Sentinel.{
  max_sentinel_bytes, schema, idle, State, fresh, quote, suspects_text, refs_text, module_ref_text,
  serialize,
}
use streammate_studio_host.Sentinel.Parse.{
  Reading, is_phase, field, fields_loop, unread, parse_fields, finish, parse, written,
  load_or_throw,
}
use streammate_studio_host.Sentinel.WellFormed.{
  IsRef, IsWellFormed, checked_string-quote, is_phase-IsText,
}
use streammate_studio_host.Sentinel.Arrays.{
  fields_loop_comma, fields_loop_end, length-quote, read_so_far, parse_suspects-suspects_text,
  parse_retries-refs_text,
}

abbrev k_schema : Bytes
k_schema = codes "schema"

abbrev k_phase : Bytes
k_phase = codes "phase"

abbrev k_module_ref : Bytes
k_module_ref = codes "moduleRef"

abbrev k_suspects : Bytes
k_suspects = codes "suspects"

abbrev k_retries : Bytes
k_retries = codes "consumedRetries"

-- The text of `serialize`, key by key.
abbrev text_from_suspects : State → Bytes
text_from_suspects s = quote k_suspects (
    b':'
    ∷ b'{'
    ∷ suspects_text true s.suspects (
        b'}'
        ∷ b','
        ∷ quote k_retries (b':' ∷ b'[' ∷ refs_text true s.consumed_retries (b']' ∷ b'}' ∷ []))))

abbrev text_from_module_ref : Bytes → State → Bytes
text_from_module_ref [] s = b',' ∷ text_from_suspects s
text_from_module_ref (c ∷ ref) s =
    b',' ∷ quote k_module_ref (b':' ∷ quote (c ∷ ref) (b',' ∷ text_from_suspects s))

abbrev text_from_phase : State → Bytes
text_from_phase s =
    b',' ∷ quote k_phase (b':' ∷ quote s.phase (text_from_module_ref s.module_ref s))

abbrev text_from_schema : State → Bytes
text_from_schema s = quote k_schema (b':' ∷ quote schema (text_from_phase s))

module_ref_text-eq :
    (ref : Bytes) (s : State)
    → module_ref_text ref (b',' ∷ text_from_suspects s) ≡ text_from_module_ref ref s
unfolding module_ref_text json_escape escape_byte
module_ref_text-eq [] s = refl
module_ref_text-eq (c ∷ ref) s = refl

serialize-eq : (s : State) → serialize s ≡ b'{' ∷ text_from_schema s
unfolding serialize json_escape escape_byte
serialize-eq s = rw (← module_ref_text-eq s.module_ref s)

abbrev reading : State → Bool → Bool → List Bytes → Reading
reading s a b seen = record { state = s; saw_schema = a; saw_phase = b; seen = seen }

module _ (s : State) (w : IsWellFormed s) (a b : Bool) (seen : List Bytes) (rest : Bytes) where
  field_suspects :
      field k_suspects
        (b'{' ∷ suspects_text true s.suspects (b'}' ∷ rest))
        (reading (read_so_far s.phase s.module_ref [] []) a b seen)
      ≡ ok (reading (read_so_far s.phase s.module_ref s.suspects []) a b seen, rest)
  unfolding field equal
  field_suspects = rw (
      parse_suspects-suspects_text s.phase s.module_ref s.suspects rest w.suspects w.suspects_order
        w.suspects_bound)

  field_retries :
      field k_retries
        (b'[' ∷ refs_text true s.consumed_retries (b']' ∷ rest))
        (reading (read_so_far s.phase s.module_ref s.suspects []) a b seen)
      ≡ ok (reading s a b seen, rest)
  unfolding field equal
  field_retries = rw (
      parse_retries-refs_text s.phase s.module_ref s.suspects s.consumed_retries rest w.retries
        w.retries_order)

module _ (p r : Bytes) (a b : Bool) (seen : List Bytes) (rest : Bytes) where
  field-schema :
      field k_schema (quote schema rest) (reading fresh a b seen)
      ≡ ok (reading fresh true b seen, rest)
  unfolding field equal
  field-schema = rw (checked_string-quote (λ v. equal v schema) schema rest (omega arith) refl)

  field_phase :
      is_phase p ≡ true
      → field k_phase (quote p rest) (reading fresh a b seen)
        ≡ ok (reading (read_so_far p [] [] []) a true seen, rest)
  unfolding field equal
  field_phase h = rw (checked_string-quote is_phase p rest (is_phase-IsText p h) h)

  field_module_ref :
      IsRef r
      → field k_module_ref (quote r rest) (reading (read_so_far p [] [] []) a b seen)
        ≡ ok (reading (read_so_far p r [] []) a b seen, rest)
  unfolding field equal
  field_module_ref h = rw (checked_string-quote is_module_ref r rest h.1 h.0)

abbrev final : State → List Bytes → Reading
final s seen = reading s true true (add k_retries (add k_suspects seen))

module _ (s : State) (w : IsWellFormed s) where
  suspects_round :
      (fuel : ℕ) (seen : List Bytes)
      → member k_suspects seen ≡ false
      → member k_retries (add k_suspects seen) ≡ false
      → fields_loop
          (suc (suc fuel))
          (text_from_suspects s)
          (reading (read_so_far s.phase s.module_ref [] []) true true seen)
        ≡ ok (final s seen, [])
  suspects_round fuel seen n1 n2 =
      fields_loop_comma k_suspects _ _ _ _ (omega arith) n1 (suc fuel)
        (field_suspects s w true true (add k_suspects seen) _)
      ∙ fields_loop_end k_retries _ [] _ _ (omega arith) n2 fuel
          (field_retries s w true true (add k_retries (add k_suspects seen)) _)

abbrev seen_phase : List Bytes
seen_phase = add k_phase (add k_schema [])

abbrev seen_before_suspects : Bytes → List Bytes
seen_before_suspects [] = seen_phase
seen_before_suspects (c ∷ ref) = add k_module_ref seen_phase

ref_of : (s : State) → IsWellFormed s → {r : Bytes} {c : ℕ} → s.module_ref ≡ c ∷ r → IsRef (c ∷ r)
ref_of s w e = elim w.module_ref [ inl n ↦ cc | inr h ↦ subst IsRef e h ]

phase_round :
    (s : State) (w : IsWellFormed s) (fuel : ℕ) (ref : Bytes)
    → s.module_ref ≡ ref
    → fields_loop
        (suc (suc (suc (suc fuel))))
        (quote k_phase (b':' ∷ quote s.phase (text_from_module_ref ref s)))
        (reading fresh true false (add k_schema []))
      ≡ ok (final s (seen_before_suspects ref), [])
unfolding member add less equal
phase_round s w fuel [] e =
    fields_loop_comma k_phase _ _ _ _ (omega arith) refl (suc (suc (suc fuel)))
      (field_phase s.phase [] true false seen_phase _ w.phase)
    ∙ subst
        (λ r.
          fields_loop (suc (suc (suc fuel))) (text_from_suspects s)
            (reading (read_so_far s.phase r [] []) true true seen_phase)
          ≡ ok (final s seen_phase, []))
        e (suspects_round s w (suc fuel) seen_phase refl refl)
phase_round s w fuel (c ∷ ref) e =
    fields_loop_comma k_phase _ _ _ _ (omega arith) refl (suc (suc (suc fuel)))
      (field_phase s.phase [] true false seen_phase _ w.phase)
    ∙ fields_loop_comma k_module_ref _ _ _ _ (omega arith) refl (suc (suc fuel)) (
        field_module_ref s.phase (c ∷ ref) true true (add k_module_ref seen_phase) _ (ref_of s w e))
    ∙ subst
        (λ r.
          fields_loop (suc (suc fuel)) (text_from_suspects s)
            (reading (read_so_far s.phase r [] []) true true (add k_module_ref seen_phase))
          ≡ ok (final s (add k_module_ref seen_phase), []))
        e (suspects_round s w fuel (add k_module_ref seen_phase) refl refl)

schema_round :
    (s : State) (w : IsWellFormed s) (fuel : ℕ)
    → fields_loop (suc (suc (suc (suc (suc fuel))))) (text_from_schema s) unread
      ≡ ok (final s (seen_before_suspects s.module_ref), [])
unfolding member
schema_round s w fuel =
    fields_loop_comma k_schema _ _ _ _ (omega arith) refl (suc (suc (suc (suc fuel))))
      (field-schema [] [] false false (add k_schema []) _)
    ∙ phase_round s w fuel s.module_ref refl

parse_fields-serialize :
    (s : State)
    → IsWellFormed s
    → parse_fields (serialize s) ≡ ok (final s (seen_before_suspects s.module_ref), [])
unfolding parse_fields expect consume
parse_fields-serialize s w =
    let text = text_from_schema s in
    let n = length text in
    let enough : suc (suc (suc (suc (n - 4)))) ≡ n = omega (
      arith,
      length-quote k_schema (b':' ∷ quote schema (text_from_phase s)),
      length-quote schema (text_from_phase s),
    ) in
    rw serialize-eq (
      subst
        (λ k.
          fields_loop (suc k) text unread ≡ ok (final s (seen_before_suspects s.module_ref), []))
        enough (schema_round s w (n - 4)))

attributed_test : (p r : Bytes) → (r ≡ [] → p ≡ idle) → (equal p idle || not (is_empty r)) ≡ true
unfolding equal
attributed_test p [] h = rw (h refl)
attributed_test p (c ∷ r) h = elim (Bool-cases (equal p idle)) [ inl e ↦ rw e | inr e ↦ rw e ]

finish-final : (s : State) (seen : List Bytes) → IsWellFormed s → finish (final s seen) [] ≡ ok s
unfolding finish eof
finish-final s seen w = rw (attributed_test s.phase s.module_ref w.attributed)

-- A well-formed state is read back from its text.
pub parse-serialize : (s : State) → IsWellFormed s → parse (serialize s) ≡ ok s
unfolding parse
parse-serialize s w =
    rw (parse_fields-serialize s w) (finish-final s (seen_before_suspects s.module_ref) w)

load_written :
    (text : Bytes) (s : State)
    → length text ≤ max_sentinel_bytes
    → parse text ≡ ok s
    → load_or_throw (written text) ≡ ok s
unfolding load_or_throw
load_written text s h e = ground arith

load_written_too_large :
    (text : Bytes)
    → max_sentinel_bytes < length text
    → load_or_throw (written text)
      ≡ err (codes "invalid --plugin-load-sentinel: sentinel-too-large")
unfolding load_or_throw
load_written_too_large text h = ground arith

-- A well-formed state whose text fits the limit on the file's size is read back at the next launch.
pub load-serialize :
    (s : State)
    → IsWellFormed s
    → length (serialize s) ≤ max_sentinel_bytes
    → load_or_throw (written (serialize s)) ≡ ok s
load-serialize s w h = load_written (serialize s) s h (parse-serialize s w)

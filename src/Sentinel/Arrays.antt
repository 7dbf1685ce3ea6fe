-- ===== src/Sentinel/Arrays.antt =====
-- The suspects and the used retries are read back from their texts.
use streammate_studio_host.Prelude.{
  ℕ, zero, suc, ◌+◌, ◌≤◌, ◌<◌, ◌≡◌, refl, ◌∙◌, arith, Bool, true, false, List, [], ◌∷◌, ◌++◌,
  append_assoc, Bytes, length, length-append, All, IsText,
}
use streammate_studio_host.Prelude.Ordered.{Map, add, member}
use streammate_studio_host.Prelude.Ordered.Laws.{
  keys, keys-append, insert_last, add_last, member_fresh, Follows, Ascending, Ascending-Follows,
}
use streammate_studio_host.Prelude.Result.{ok}
use streammate_studio_host.Json.Escape.{json_escape}
use streammate_studio_host.Scanner.{consume}
use streammate_studio_host.Scanner.Strings.{string-json_escape}
use streammate_studio_host.Manifest.{is_module_ref, expect}
use streammate_studio_host.Sentinel.{
  max_suspects, State, quote, comma_unless, suspects_text, refs_text,
}
use streammate_studio_host.Sentinel.Parse.{
  Reading, is_kind, suspects_loop, retries_loop, parse_suspects, parse_retries, field, fields_loop,
}
use streammate_studio_host.Sentinel.WellFormed.{
  lt→leb, IsRef, IsSuspect, checked_string-quote, is_kind-IsText,
}

pub retries_loop-refs_text :
    (fuel : ℕ) (ref : Bytes) (refs : List Bytes) (rest : Bytes) (s : State)
    → length refs < fuel
    → All IsRef (ref ∷ refs)
    → Follows s.consumed_retries (ref ∷ refs)
    → retries_loop fuel (refs_text true (ref ∷ refs) (b']' ∷ rest)) s
      ≡ ok (record s { consumed_retries = s.consumed_retries ++ ref ∷ refs }, rest)
unfolding retries_loop refs_text consume expect
retries_loop-refs_text zero ref refs rest s f h g = absurd (omega arith)
retries_loop-refs_text (suc fuel) ref [] rest s f (h, _) (g, _) =
    rw
      (
        checked_string-quote is_module_ref ref (b']' ∷ rest) h.1 h.0,
        member_fresh ref s.consumed_retries g,
        add_last ref s.consumed_retries g,
      )
      refl
retries_loop-refs_text (suc fuel) ref (next ∷ refs) rest s f (h, hs) (g, gs) =
    rw
      (
        checked_string-quote is_module_ref ref (refs_text false (next ∷ refs) (b']' ∷ rest)) h.1
            h.0,
        member_fresh ref s.consumed_retries g,
        add_last ref s.consumed_retries g,
      )
      (retries_loop-refs_text fuel next refs rest
          (record s { consumed_retries = s.consumed_retries ++ ref ∷ [] }) (omega arith) hs gs
        ∙ rw append_assoc)

abbrev pub full : State → Map Bytes → State
full s m = record s { suspects = s.suspects ++ m }

pub suspects_loop-suspects_text :
    (fuel : ℕ) (ref kind : Bytes) (m : Map Bytes) (rest : Bytes) (s : State)
    → length m < fuel
    → All IsSuspect ((ref, kind) ∷ m)
    → Follows (keys s.suspects) (ref ∷ keys m)
    → length s.suspects + suc (length m) ≤ max_suspects
    → suspects_loop fuel (suspects_text true ((ref, kind) ∷ m) (b'}' ∷ rest)) (keys s.suspects) s
      ≡ ok (full s ((ref, kind) ∷ m), rest)
unfolding suspects_loop suspects_text consume expect
suspects_loop-suspects_text zero ref kind m rest s f h g b = absurd (omega arith)
suspects_loop-suspects_text (suc fuel) ref kind [] rest s f (h, _) (g, _) b = rw (
  checked_string-quote is_module_ref ref (b':' ∷ quote kind (b'}' ∷ rest)) h.0.1 h.0.0,
  member_fresh ref (keys s.suspects) g,
  checked_string-quote is_kind kind (b'}' ∷ rest) (is_kind-IsText kind h.1) h.1,
  lt→leb max_suspects (length s.suspects) (omega arith),
  insert_last ref kind s.suspects g,
)
suspects_loop-suspects_text (suc fuel) ref kind ((r, k) ∷ m) rest s f (h, hs) (g, gs) b =
    rw
      (
        checked_string-quote is_module_ref ref
            (b':' ∷ quote kind (suspects_text false ((r, k) ∷ m) (b'}' ∷ rest))) h.0.1 h.0.0,
        member_fresh ref (keys s.suspects) g,
        checked_string-quote is_kind kind (suspects_text false ((r, k) ∷ m) (b'}' ∷ rest))
            (is_kind-IsText kind h.1) h.1,
        lt→leb max_suspects (length s.suspects) (omega arith),
        insert_last ref kind s.suspects g,
        add_last ref (keys s.suspects) g,
        ← keys-append s.suspects ((ref, kind) ∷ []),
      )
      (suspects_loop-suspects_text fuel r k m rest (full s ((ref, kind) ∷ [])) (omega arith) hs
          (rw (keys-append s.suspects ((ref, kind) ∷ [])) gs)
          (omega (arith, length-append {0} s.suspects ((ref, kind) ∷ [])))
        ∙ rw append_assoc)

pub length-quote : (s rest : Bytes) → length rest + 2 ≤ length (quote s rest)
length-quote s rest = omega (arith, length-append {0} (json_escape s) (b'"' ∷ rest))

pub length-comma_unless :
    (first : Bool) (rest : Bytes) → length rest ≤ length (comma_unless first rest)
length-comma_unless true rest = omega arith
length-comma_unless false rest = omega arith

pub length-suspects_text :
    (first : Bool) (m : Map Bytes) (rest : Bytes) → length m ≤ length (suspects_text first m rest)
unfolding suspects_text
length-suspects_text first [] rest = omega arith
length-suspects_text first ((k, v) ∷ m) rest = omega (
  arith,
  length-suspects_text false m rest,
  length-quote v (suspects_text false m rest),
  length-quote k (b':' ∷ quote v (suspects_text false m rest)),
  length-comma_unless first (quote k (b':' ∷ quote v (suspects_text false m rest))),
)

pub length-refs_text :
    (first : Bool) (refs : List Bytes) (rest : Bytes)
    → length refs ≤ length (refs_text first refs rest)
unfolding refs_text
length-refs_text first [] rest = omega arith
length-refs_text first (ref ∷ refs) rest = omega (
  arith,
  length-refs_text false refs rest,
  length-quote ref (refs_text false refs rest),
  length-comma_unless first (quote ref (refs_text false refs rest)),
)

abbrev pub read_so_far : Bytes → Bytes → Map Bytes → List Bytes → State
read_so_far p r m refs = record { phase = p; module_ref = r; suspects = m; consumed_retries = refs }

pub parse_suspects-suspects_text :
    (p r : Bytes) (m : Map Bytes) (rest : Bytes)
    → All IsSuspect m
    → Ascending (keys m)
    → length m ≤ max_suspects
    → parse_suspects (b'{' ∷ suspects_text true m (b'}' ∷ rest)) (read_so_far p r [] [])
      ≡ ok (read_so_far p r m [], rest)
unfolding parse_suspects expect consume
parse_suspects-suspects_text p r [] rest h a b = unfold suspects_text in refl
parse_suspects-suspects_text p r ((k, v) ∷ m) rest h a b =
    unfold suspects_text in
    suspects_loop-suspects_text (suc (length (suspects_text true ((k, v) ∷ m) (b'}' ∷ rest)))) k v m
      rest (read_so_far p r [] [])
      (omega (arith, length-suspects_text true ((k, v) ∷ m) (b'}' ∷ rest))) h
      (Ascending-Follows (k ∷ keys m) a) (omega arith)

pub parse_retries-refs_text :
    (p r : Bytes) (m : Map Bytes) (refs : List Bytes) (rest : Bytes)
    → All IsRef refs
    → Ascending refs
    → parse_retries (b'[' ∷ refs_text true refs (b']' ∷ rest)) (read_so_far p r m [])
      ≡ ok (read_so_far p r m refs, rest)
unfolding parse_retries expect consume
parse_retries-refs_text p r m [] rest h a = unfold refs_text in refl
parse_retries-refs_text p r m (ref ∷ refs) rest h a =
    unfold refs_text in
    retries_loop-refs_text (suc (length (refs_text true (ref ∷ refs) (b']' ∷ rest)))) ref refs rest
      (read_so_far p r m []) (omega (arith, length-refs_text true (ref ∷ refs) (b']' ∷ rest))) h
      (Ascending-Follows (ref ∷ refs) a)

-- One round of the loop over the keys: a key, its value, and the comma or the end behind it.
module _ (key text after : Bytes) (r r' : Reading) (named : IsText key)
    (new : member key r.seen ≡ false) where
  pub fields_loop_comma :
      (fuel : ℕ)
      → field key text (record r { seen = add key r.seen }) ≡ ok (r', b',' ∷ after)
      → fields_loop (suc fuel) (quote key (b':' ∷ text)) r ≡ fields_loop fuel after r'
  unfolding fields_loop expect consume
  fields_loop_comma fuel e = rw (string-json_escape key (b':' ∷ text) named, new, e)

  pub fields_loop_end :
      (fuel : ℕ)
      → field key text (record r { seen = add key r.seen }) ≡ ok (r', b'}' ∷ after)
      → fields_loop (suc fuel) (quote key (b':' ∷ text)) r ≡ ok (r', after)
  unfolding fields_loop expect consume
  fields_loop_end fuel e = rw (string-json_escape key (b':' ∷ text) named, new, e)

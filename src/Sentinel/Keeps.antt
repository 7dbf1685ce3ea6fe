-- ===== src/Sentinel/Keeps.antt =====
-- Every state that the host writes is well formed.
use streammate_studio_host.Prelude.{
  ◌≤◌, ◌≡◌, ◌≢◌, refl, sym, ◌∙◌, ◌⊎◌, inl, inr, arith, Bool, true, false, List, [], ◌∷◌,
  if◌then◌else◌, Bytes, codes, equal, equal_iff, length, All, Bool-cases,
}
use streammate_studio_host.Prelude.Ordered.{Map, insert, erase, member}
use streammate_studio_host.Prelude.Ordered.Laws.{keys, Ascending}
use streammate_studio_host.Prelude.Ordered.Order.{
  insert-Ascending, erase-Ascending, add-Ascending, length-erase, All-insert, All-erase, All-add,
}
use streammate_studio_host.Prelude.Result.{ok}
use streammate_studio_host.Manifest.{is_module_ref}
use streammate_studio_host.Sentinel.{
  State, Resolution, promote, grant, resolve, idle, loading, deadline_exceeded, max_suspects,
  at_rest, attempting, timed_out,
}
use streammate_studio_host.Sentinel.Parse.{is_kind, is_phase}
use streammate_studio_host.Sentinel.Resolve.{resolve-eq-ok}
use streammate_studio_host.Sentinel.WellFormed.{IsRef, IsSuspect, IsWellFormed}

-- The part of a well-formed state that a launch carries over.
record IsCarried (r : Resolution) : Type 0 where
  suspects : All IsSuspect r.suspects
  suspects_order : Ascending (keys r.suspects)
  suspects_bound : length r.suspects ≤ max_suspects
  retries : All IsRef r.consumed_retries
  retries_order : Ascending r.consumed_retries

choose : (P : Map Bytes → Type 0) (b : Bool) (m n : Map Bytes) → P m → P n → P (if b then m else n)
choose P true m n hm hn = hm
choose P false m n hm hn = hn

grant-IsCarried :
    (s : State) (retry : List Bytes) (out : Resolution)
    → All IsRef retry
    → IsCarried out
    → IsCarried (grant s retry out)
unfolding grant
grant-IsCarried s [] out h c = c
grant-IsCarried s (ref ∷ retry) out (h, hs) c = grant-IsCarried s retry _ hs (
    let b = member ref s.consumed_retries in
    let m = out.suspects in
    record {
      suspects =
          choose (All IsSuspect) b m (erase ref m) c.suspects
            (All-erase IsSuspect ref m c.suspects);
      suspects_order =
          choose (λ n. Ascending (keys n)) b m (erase ref m) c.suspects_order
            (erase-Ascending ref m c.suspects_order);
      suspects_bound =
          choose (λ n. length n ≤ max_suspects) b m (erase ref m) c.suspects_bound
            (omega (arith, length-erase ref m, c.suspects_bound));
      retries = All-add IsRef ref out.consumed_retries h c.retries;
      retries_order = add-Ascending ref out.consumed_retries c.retries_order;
    })

-- What the launch keeps of the suspects, promoted or not.
record IsPromoted (m : Map Bytes) : Type 0 where
  suspects : All IsSuspect m
  order : Ascending (keys m)

-- A load in progress has a module.
ref_of_attempt : (s : State) → IsWellFormed s → s.phase ≢ idle → IsRef s.module_ref
ref_of_attempt s w n = elim w.module_ref [ inl e ↦ absurd (n (w.attributed e)) | inr h ↦ h ]

blame-IsPromoted :
    (s : State) (kind : Bytes)
    → IsWellFormed s
    → is_kind kind ≡ true
    → s.phase ≢ idle
    → IsPromoted (insert s.module_ref kind s.suspects)
blame-IsPromoted s kind w k n =
    let h = ref_of_attempt s w n in
    record {
      suspects =
          All-insert IsSuspect s.module_ref kind s.suspects (h, k) w.suspects (λ j v hj. (hj.0, k));
      order = insert-Ascending s.module_ref kind s.suspects w.suspects_order;
    }

loading-ne-idle : loading ≢ idle
loading-ne-idle = cc

deadline_exceeded-ne-idle : deadline_exceeded ≢ idle
deadline_exceeded-ne-idle = cc

promote-IsPromoted : (s : State) → IsWellFormed s → IsPromoted (promote s)
unfolding promote
promote-IsPromoted s w = elim (Bool-cases (equal s.phase loading)) [
  | inl e ↦ rw e (
      blame-IsPromoted s (codes "crash") w (unfold is_kind equal in refl)
        (λ i. loading-ne-idle (sym ((equal_iff s.phase loading).0 e) ∙ i)))
  | inr n ↦ rw n (elim (Bool-cases (equal s.phase deadline_exceeded)) [
    | inl e ↦ rw e (
        blame-IsPromoted s (codes "hang") w (unfold is_kind equal in refl)
          (λ i. deadline_exceeded-ne-idle (sym ((equal_iff s.phase deadline_exceeded).0 e) ∙ i)))
    | inr m ↦ rw m (record { suspects = w.suspects; order = w.suspects_order })
  ])
]

resolve-IsCarried :
    (s : State) (retry : List Bytes) {r : Resolution}
    → IsWellFormed s
    → All IsRef retry
    → resolve s retry ≡ ok r
    → IsCarried r
resolve-IsCarried s retry w h e =
    let (shape, bound) = resolve-eq-ok s retry e in
    let p = promote-IsPromoted s w in
    rw shape (
      grant-IsCarried s retry _ h (record {
        suspects = p.suspects;
        suspects_order = p.order;
        suspects_bound = bound;
        retries = tt;
        retries_order = tt;
      }))

IsCarried-IsWellFormed :
    (r : Resolution) (phase ref : Bytes)
    → IsCarried r
    → is_phase phase ≡ true
    → (ref ≡ []) ⊎ IsRef ref
    → (ref ≡ [] → phase ≡ idle)
    → IsWellFormed (record {
      phase = phase;
      module_ref = ref;
      suspects = r.suspects;
      consumed_retries = r.consumed_retries;
    })
IsCarried-IsWellFormed r phase ref c p m a = record {
  phase = p;
  module_ref = m;
  attributed = a;
  suspects = c.suspects;
  suspects_order = c.suspects_order;
  suspects_bound = c.suspects_bound;
  retries = c.retries;
  retries_order = c.retries_order;
}

-- A module reference is not empty.
IsRef-ne-nil : (ref : Bytes) → IsRef ref → ref ≢ []
unfolding is_module_ref
IsRef-ne-nil [] h = cc (h.0)
IsRef-ne-nil (c ∷ ref) h = cc

-- From a well-formed state and a manifest of module references, every state that a launch may write
-- from then on is well formed: the one at rest, and for each module the two that blame it.
pub resolve-IsWellFormed :
    (s : State) (retry : List Bytes) {r : Resolution} (ref : Bytes)
    → IsWellFormed s
    → All IsRef retry
    → IsRef ref
    → resolve s retry ≡ ok r
    → IsWellFormed (at_rest r) × IsWellFormed (attempting r ref) × IsWellFormed (timed_out r ref)
resolve-IsWellFormed s retry {r} ref w hs h e =
    let c = resolve-IsCarried s retry w hs e in
    (
      IsCarried-IsWellFormed r idle [] c (unfold is_phase equal in refl) (inl refl) (λ _. refl),
      IsCarried-IsWellFormed r loading ref c (unfold is_phase equal in refl) (inr h)
          (λ n. absurd (IsRef-ne-nil ref h n)),
      IsCarried-IsWellFormed r deadline_exceeded ref c (unfold is_phase equal in refl) (inr h)
          (λ n. absurd (IsRef-ne-nil ref h n)),
    )

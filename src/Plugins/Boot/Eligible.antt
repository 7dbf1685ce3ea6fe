-- ===== src/Plugins/Boot/Eligible.antt =====
-- The candidates of the load plan.
use streammate_studio_host.Prelude.{
  ◌≡◌, refl, ◌⊎◌, inl, inr, ◌↔◌, ◌∙◌, true, false, List, [], ◌∷◌, Bytes, equal_iff, is_empty, arith,
}
use streammate_studio_host.Prelude.Ordered.{member}
use streammate_studio_host.Manifest.{Manifest}
use streammate_studio_host.Plugins.Record.{UserPluginRecord, discovered}
use streammate_studio_host.Plugins.Plan.{plan_one, build_load_plan}
use streammate_studio_host.Plugins.Boot.Blame.{IsCandidate}

-- A module that discovery has not refused, for an architecture of the host if both are known, and
-- selected if there is a selection.
pub record IsEligible (host_arch : Bytes) (m : Manifest) (r : UserPluginRecord) : Type 0 where
  pub lifecycle : r.lifecycle ≡ discovered
  pub unrefused : r.reason_detail ≡ []
  pub runs_here : (r.observed_arch ≡ false) ⊎ ((host_arch ≡ []) ⊎ (member host_arch r.archs ≡ true))
  pub selected : (m.has_selected ≡ false) ⊎ (member r.module_ref m.selected ≡ true)

-- Some module of the list is eligible and has this reference.
abbrev pub HasEligible : Bytes → Manifest → List UserPluginRecord → Bytes → Type 0
HasEligible host_arch m [] ref = ⊥
HasEligible host_arch m (r ∷ rs) ref =
    ((IsEligible host_arch m r) × (r.module_ref ≡ ref)) ⊎ HasEligible host_arch m rs ref

is_empty-eq : (s : Bytes) → is_empty s ≡ true → s ≡ []
is_empty-eq [] h = refl
is_empty-eq (c ∷ s) h = cc

plan_one-module_ref :
    (host_arch : Bytes) (m : Manifest) (r : UserPluginRecord)
    → (plan_one host_arch m r).entry.module_ref ≡ r.module_ref
unfolding plan_one
plan_one-module_ref host_arch m r = ground arith

plan_one-IsEligible :
    (host_arch : Bytes) (m : Manifest) (r : UserPluginRecord)
    → (plan_one host_arch m r).candidate ≡ true
    → IsEligible host_arch m r
unfolding plan_one
plan_one-IsEligible host_arch m r e = record {
  lifecycle = ground (arith, equal_iff r.lifecycle discovered);
  unrefused = is_empty-eq r.reason_detail (ground arith);
  runs_here = ground (arith, is_empty-eq host_arch);
  selected = ground arith;
}

IsEligible-plan_one :
    (host_arch : Bytes) (m : Manifest) (r : UserPluginRecord)
    → IsEligible host_arch m r
    → (plan_one host_arch m r).candidate ≡ true
unfolding plan_one
IsEligible-plan_one host_arch m r k =
    ground
      (arith, equal_iff r.lifecycle discovered, k.lifecycle, k.unrefused, k.runs_here, k.selected)

plan_candidates :
    (host_arch : Bytes) (m : Manifest) (rs : List UserPluginRecord) (ref : Bytes)
    → IsCandidate (build_load_plan host_arch m rs) ref
    → HasEligible host_arch m rs ref
unfolding build_load_plan
plan_candidates host_arch m [] ref c = c
plan_candidates host_arch m (r ∷ rs) ref (inl (c, e)) =
    inl (plan_one-IsEligible host_arch m r c, rw (plan_one-module_ref host_arch m r) at e)
plan_candidates host_arch m (r ∷ rs) ref (inr c) = inr (plan_candidates host_arch m rs ref c)

eligible_planned :
    (host_arch : Bytes) (m : Manifest) (rs : List UserPluginRecord) (ref : Bytes)
    → HasEligible host_arch m rs ref
    → IsCandidate (build_load_plan host_arch m rs) ref
unfolding build_load_plan
eligible_planned host_arch m [] ref c = c
eligible_planned host_arch m (r ∷ rs) ref (inl (k, e)) =
    inl (IsEligible-plan_one host_arch m r k, plan_one-module_ref host_arch m r ∙ e)
eligible_planned host_arch m (r ∷ rs) ref (inr c) = inr (eligible_planned host_arch m rs ref c)

-- The plan attempts exactly the modules that discovery has not refused, that hold an architecture of
-- the host where both are known, and that are selected where there is a selection.
pub build_load_plan-IsCandidate :
    (host_arch : Bytes) (m : Manifest) (rs : List UserPluginRecord) (ref : Bytes)
    → IsCandidate (build_load_plan host_arch m rs) ref ↔ HasEligible host_arch m rs ref
build_load_plan-IsCandidate host_arch m rs ref =
    (plan_candidates host_arch m rs ref, eligible_planned host_arch m rs ref)

-- ===== src/Plugins/Boot/Blame.antt =====
-- How a load phase can end, and what the sentinel holds then.
use streammate_studio_host.Prelude.{
  ◌≡◌, refl, ◌⊎◌, inl, inr, arith, Bool, true, false, not, none, List, [], ◌∷◌, ◌++◌, if◌then◌else◌,
  Bytes, Bool-cases,
}
use streammate_studio_host.Prelude.Ordered.{Map, lookup, member}
use streammate_studio_host.Sentinel.{State, Resolution, at_rest, attempting, timed_out}
use streammate_studio_host.Plugins.Record.{UserPluginRecord}
use streammate_studio_host.Plugins.Plan.{Planned}
use streammate_studio_host.Plugins.Load.{
  World, Attempt, initialised, refused, crashes, hangs, OpenFailure, missing_exports,
  incompatible_version, failed_to_open, fails, opens, crashes_again, hangs_again, classify_failure,
  classify_failed_dlopen, probed, behind_refusal, Phase, going, crashed, watchdog_exit, stuck,
  conclude, load_candidate, load_planned, load_loop, resume,
}
use streammate_studio_host.Plugins.Boot.{
  refuse_found, refuse_suspect, refuse_suspects, LaunchEnd, finished, died, hung, settle, boot,
}

-- The sentinel blames this module, as a crash or as a hang.
abbrev pub Blames : Resolution → Bytes → State → Type 0
Blames r ref d = (d ≡ attempting r ref) ⊎ (d ≡ timed_out r ref)

-- What the sentinel may hold while the load phase is going.
abbrev pub Holds : Resolution → State → Type 0
Holds r d = (d ≡ at_rest r) ⊎ ((ref : Bytes) × Blames r ref d)

abbrev pub IsCandidate : List Planned → Bytes → Type 0
IsCandidate [] ref = ⊥
IsCandidate (p ∷ ps) ref = ((p.candidate ≡ true) × (p.entry.module_ref ≡ ref)) ⊎ IsCandidate ps ref

-- A hang that the watchdog does not end: the probe behind a failed open never returns. The sentinel
-- still says that this module is loading.
abbrev pub HangsUnwatched : World → Resolution → Bytes → State → Type 0
HangsUnwatched w r ref d =
    (d ≡ attempting r ref) × (w.attempt ref ≡ refused (failed_to_open true hangs_again))

-- The phase goes on, or it has died or hangs unwatched on a candidate that the sentinel blames.
abbrev EndsWell : World → Resolution → List Planned → Phase → Type 0
EndsWell w r ps (going qs d types) = Holds r d
EndsWell w r ps (crashed d) = (ref : Bytes) × IsCandidate ps ref × Blames r ref d
EndsWell w r ps (watchdog_exit d) = (ref : Bytes) × IsCandidate ps ref × Blames r ref d
EndsWell w r ps (stuck d) = (ref : Bytes) × IsCandidate ps ref × HangsUnwatched w r ref d

abbrev one : UserPluginRecord → List Planned
one e = record { entry = e; candidate = true } ∷ []

choose : (P : Phase → Type 0) (b : Bool) (x y : Phase) → P x → P y → P (if b then x else y)
choose P true x y hx hy = hx
choose P false x y hx hy = hy

choose_if :
    (P : Phase → Type 0) (b : Bool) (x y : Phase) → (b ≡ true → P x) → P y → P (if b then x else y)
choose_if P true x y hx hy = hx refl
choose_if P false x y hx hy = hy

module _ (w : World) (r : Resolution) where
  later :
      (p : Planned) (ps : List Planned) (x : Phase) → EndsWell w r ps x → EndsWell w r (p ∷ ps) x
  later p ps (going qs d types) h = h
  later p ps (crashed d) (ref, c, b) = (ref, inr c, b)
  later p ps (watchdog_exit d) (ref, c, b) = (ref, inr c, b)
  later p ps (stuck d) (ref, c, b) = (ref, inr c, b)

  -- Behind a refusal: only the second open can crash or hang.
  refusal_ends :
      (why : OpenFailure) (e : UserPluginRecord) (types : List (List Bytes))
      → w.attempt e.module_ref ≡ refused why
      → EndsWell w r
          (one e)
          (behind_refusal (classify_failure why e) (attempting r e.module_ref) types)
  unfolding classify_failure classify_failed_dlopen probed
  refusal_ends missing_exports e types h = inr (e.module_ref, inl refl)
  refusal_ends incompatible_version e types h = inr (e.module_ref, inl refl)
  refusal_ends (failed_to_open false second) e types h = inr (e.module_ref, inl refl)
  refusal_ends (failed_to_open true (fails text)) e types h = inr (e.module_ref, inl refl)
  refusal_ends (failed_to_open true opens) e types h = inr (e.module_ref, inl refl)
  refusal_ends (failed_to_open true crashes_again) e types h =
      (e.module_ref, inl (refl, refl), inl refl)
  refusal_ends (failed_to_open true hangs_again) e types h =
      (e.module_ref, inl (refl, refl), (refl, h))

  conclude_ends :
      (a : Attempt) (e : UserPluginRecord) (types : List (List Bytes))
      → w.attempt e.module_ref ≡ a
      → EndsWell w r (one e) (conclude w true r a e (attempting r e.module_ref) types)
  unfolding conclude
  conclude_ends (initialised true after) e types h = inr (e.module_ref, inl refl)
  conclude_ends (initialised false after) e types h = inr (e.module_ref, inl refl)
  conclude_ends (refused why) e types h = refusal_ends why e types h
  conclude_ends crashes e types h = (e.module_ref, inl (refl, refl), inl refl)
  conclude_ends hangs e types h = elim (Bool-cases (w.deadline_written e.module_ref)) [
    | inl y ↦ rw y (e.module_ref, inl (refl, refl), inr refl)
    | inr n ↦ rw n (e.module_ref, inl (refl, refl), inl refl)
  ]

  load_candidate_ends :
      (e : UserPluginRecord) (d : State) (types : List (List Bytes))
      → Holds r d
      → EndsWell w r (one e) (load_candidate w true r e d types)
  unfolding load_candidate
  load_candidate_ends e d types h =
      let P = EndsWell w r (one e) in
      choose P (member e.label w.bundled) _ _ h (
        choose P (not (w.confined e.module_ref)) _ _ h (
          choose P (not (w.loading_written e.module_ref)) _ _ h
            (conclude_ends (w.attempt e.module_ref) e types refl)))

  widen :
      (p : Planned) (ps : List Planned) (x : Phase)
      → p.candidate ≡ true
      → EndsWell w r (one p.entry) x
      → EndsWell w r (p ∷ ps) x
  widen p ps (going qs d types) c h = h
  widen p ps (crashed d) c (ref, inl (_, e), b) = (ref, inl (c, e), b)
  widen p ps (crashed d) c (ref, inr n, b) = absurd n
  widen p ps (watchdog_exit d) c (ref, inl (_, e), b) = (ref, inl (c, e), b)
  widen p ps (watchdog_exit d) c (ref, inr n, b) = absurd n
  widen p ps (stuck d) c (ref, inl (_, e), b) = (ref, inl (c, e), b)
  widen p ps (stuck d) c (ref, inr n, b) = absurd n

  load_planned_ends :
      (p : Planned) (ps : List Planned) (d : State) (types : List (List Bytes))
      → Holds r d
      → EndsWell w r (p ∷ ps) (load_planned w true r p d types)
  unfolding load_planned
  load_planned_ends p ps d types h =
      choose_if (EndsWell w r (p ∷ ps)) p.candidate _ _
        (λ c. widen p ps _ c (load_candidate_ends p.entry d types h)) h

  resume_ends :
      (p : Planned) (ps : List Planned) (x : Phase)
      (next : List Planned → State → List (List Bytes) → Phase)
      → EndsWell w r (p ∷ ps) x
      → ((qs : List Planned) (d : State) (types : List (List Bytes))
          → Holds r d
          → EndsWell w r ps (next qs d types))
      → EndsWell w r (p ∷ ps) (resume x next)
  resume_ends p ps (going qs d types) next h k = later p ps (next qs d types) (k qs d types h)
  resume_ends p ps (crashed d) next h k = h
  resume_ends p ps (watchdog_exit d) next h k = h
  resume_ends p ps (stuck d) next h k = h

  load_loop_ends :
      (done ps : List Planned) (d : State) (types : List (List Bytes))
      → Holds r d
      → EndsWell w r ps (load_loop w true r done ps d types)
  unfolding load_loop
  load_loop_ends done [] d types h = h
  load_loop_ends done (p ∷ ps) d types h =
      resume_ends p ps (load_planned w true r p d types) _ (load_planned_ends p ps d types h)
        λ qs d' types' h'. load_loop_ends (done ++ qs) ps d' types' h'

refuse_suspect_keeps :
    (suspects : Map Bytes) (p : Planned) (ref : Bytes)
    → (refuse_suspect suspects p).candidate ≡ true
    → (refuse_suspect suspects p).entry.module_ref ≡ ref
    → (p.candidate ≡ true) × (p.entry.module_ref ≡ ref) × (lookup ref suspects ≡ none)
unfolding refuse_suspect refuse_found
refuse_suspect_keeps suspects p ref c e = ground arith

-- The filter leaves only candidates that are not suspected.
IsCandidate-refuse :
    (suspects : Map Bytes) (ps : List Planned) (ref : Bytes)
    → IsCandidate (refuse_suspects suspects ps) ref
    → IsCandidate ps ref × (lookup ref suspects ≡ none)
unfolding refuse_suspects
IsCandidate-refuse suspects [] ref c = elim c [ ]
IsCandidate-refuse suspects (p ∷ ps) ref (inr c) =
    let (c', n) = IsCandidate-refuse suspects ps ref c in (inr c', n)
IsCandidate-refuse suspects (p ∷ ps) ref (inl (c, e)) =
    let (c', e', n) = refuse_suspect_keeps suspects p ref c e in (inl (c', e'), n)

-- How a launch ended, from the sentinel `d`.
abbrev pub EndsLaunch : World → Resolution → List Planned → LaunchEnd → Type 0
EndsLaunch w r ps (finished qs d) = Holds r d
EndsLaunch w r ps (died d) =
    (ref : Bytes) × IsCandidate ps ref × (lookup ref r.suspects ≡ none) × Blames r ref d
EndsLaunch w r ps (hung d) =
    (ref : Bytes) × IsCandidate ps ref × (lookup ref r.suspects ≡ none) × HangsUnwatched w r ref d

settle_ends :
    (w : World) (r : Resolution) (idle_written : Bool) (ps : List Planned) (x : Phase)
    → EndsWell w r (refuse_suspects r.suspects ps) x
    → EndsLaunch w r ps (settle r idle_written x)
unfolding settle
settle_ends w r true ps (going qs d types) h = inl refl
settle_ends w r false ps (going qs d types) h = h
settle_ends w r b ps (crashed d) (ref, c, blame) =
    let (c', n) = IsCandidate-refuse r.suspects ps ref c in (ref, c', n, blame)
settle_ends w r b ps (watchdog_exit d) (ref, c, blame) =
    let (c', n) = IsCandidate-refuse r.suspects ps ref c in (ref, c', n, blame)
settle_ends w r b ps (stuck d) (ref, c, blame) =
    let (c', n) = IsCandidate-refuse r.suspects ps ref c in (ref, c', n, blame)

-- With containment every launch that does not finish was at a candidate that was not suspected, and
-- the sentinel blames that module, whichever of its writes went through; the suspects and the used
-- grants stay in it in every case. A hang that nothing ends is one of the second `dlopen`, which
-- probes behind a failed open with the watchdog disarmed: any other hang ends in the watchdog's exit.
pub boot_ends :
    (w : World) (r : Resolution) (idle_written : Bool) (ps : List Planned)
    → EndsLaunch w r ps (boot w r idle_written ps)
unfolding boot
boot_ends w r idle_written ps =
    settle_ends w r idle_written ps _
      (load_loop_ends w r [] (refuse_suspects r.suspects ps) (at_rest r) w.types_before (inl refl))

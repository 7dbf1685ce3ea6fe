-- ===== src/Plugins/Boot/Loop.antt =====
-- Launches in a row with the same retries: no module ends two of them.
use streammate_studio_host.Prelude.{
  ◌≡◌, ◌≢◌, sym, subst, ◌∙◌, inl, inr, arith, Bool, true, none, some, List, [], ◌∷◌, if◌then◌else◌,
  Bytes, codes, equal, equal_iff, All,
}
use streammate_studio_host.Prelude.Ordered.{lookup, member}
use streammate_studio_host.Prelude.Result.{ok, bind-eq-ok}
use streammate_studio_host.Sentinel.{
  State, Resolution, resolve, at_rest, attempting, timed_out, idle, loading, deadline_exceeded,
}
use streammate_studio_host.Sentinel.Resolve.{recorded, resolve_lem}
use streammate_studio_host.Plugins.Plan.{Planned}
use streammate_studio_host.Plugins.Load.{World}
use streammate_studio_host.Plugins.Boot.{LaunchEnd, finished, died, hung, boot, launch}
use streammate_studio_host.Plugins.Boot.Blame.{Blames, Holds, EndsLaunch, IsCandidate, boot_ends}

-- Every retry of the manifest has had its attempt.
abbrev pub IsUsed : List Bytes → State → Type 0
IsUsed retry s = (ref : Bytes) → member ref retry ≡ true → member ref s.consumed_retries ≡ true

-- A launch that did not finish and left this sentinel: it died, or it hung until someone ended it.
abbrev pub IsDeath : LaunchEnd → State → Type 0
IsDeath (finished qs d') d = ⊥
IsDeath (died d') d = d' ≡ d
IsDeath (hung d') d = d' ≡ d

-- Launches one after another, each with modules, a file system and a plan of its own, and the modules
-- that the sentinel blames for the launches that died or hung.
pub data Run (retry : List Bytes) : State → List Bytes → Type 0 where
  stop : {s : State} → Run retry s []
  survives :
      {s : State} {dead : List Bytes} (w : World) (probe_written idle_written : Bool)
      (ps qs : List Planned) (d : State)
      → launch w retry probe_written idle_written ps s ≡ ok (finished qs d)
      → Run retry d dead
      → Run retry s dead
  dies :
      {s : State} {dead : List Bytes} (w : World) (probe_written idle_written : Bool)
      (ps : List Planned) (end : LaunchEnd) (d : State) (ref : Bytes)
      → launch w retry probe_written idle_written ps s ≡ ok end
      → IsDeath end d
      → d.module_ref ≡ ref
      → Run retry d dead
      → Run retry s (ref ∷ dead)

-- No item twice.
abbrev pub Distinct : List Bytes → Type 0
Distinct [] = Unit
Distinct (ref ∷ refs) = All (λ j. j ≢ ref) refs × Distinct refs

launch-eq-ok :
    (w : World) (retry : List Bytes) (probe_written idle_written : Bool) (ps : List Planned)
    (s : State) {e : LaunchEnd}
    → launch w retry probe_written idle_written ps s ≡ ok e
    → (r : Resolution) × (resolve s retry ≡ ok r) × (boot w r idle_written ps ≡ e)
unfolding launch
launch-eq-ok w retry probe_written idle_written ps s h =
    let (r, shape, rest) = bind-eq-ok (resolve s retry) _ h in (r, shape, ground arith)

-- While no grant is open, a launch suspects what the file records.
resolve_used :
    (s : State) (retry : List Bytes) {r : Resolution} (ref : Bytes)
    → IsUsed retry s
    → resolve s retry ≡ ok r
    → lookup ref r.suspects ≡ recorded s ref
resolve_used s retry ref u h = (resolve_lem s retry ref h).0 ∙ ground (arith, u ref)

-- A launch uses up the manifest's retries, whatever the sentinel holds behind it.
holds-IsUsed :
    (s : State) (retry : List Bytes) {r : Resolution} (d : State)
    → resolve s retry ≡ ok r
    → d.consumed_retries ≡ r.consumed_retries
    → IsUsed retry d
holds-IsUsed s retry d h e = λ ref m. rw e ((resolve_lem s retry ref h).1 ∙ m)

recorded-attempting :
    (r : Resolution) (ref j : Bytes)
    → recorded (attempting r ref) j
      ≡ (if equal ref j then some (codes "crash") else lookup j r.suspects)
recorded-attempting r ref j =
    ground (arith, equal_iff loading loading, equal_iff loading deadline_exceeded)

recorded-timed_out :
    (r : Resolution) (ref j : Bytes)
    → recorded (timed_out r ref) j
      ≡ (if equal ref j then some (codes "hang") else lookup j r.suspects)
recorded-timed_out r ref j =
    ground
      (arith, equal_iff deadline_exceeded loading, equal_iff deadline_exceeded deadline_exceeded)

recorded-at_rest : (r : Resolution) (j : Bytes) → recorded (at_rest r) j ≡ lookup j r.suspects
recorded-at_rest r j = ground (arith, equal_iff idle loading, equal_iff idle deadline_exceeded)

-- Behind a launch the file still records whatever was suspected.
Blames-records :
    (r : Resolution) (ref j : Bytes) (d : State)
    → Blames r ref d
    → lookup j r.suspects ≢ none
    → recorded d j ≢ none
Blames-records r ref j d (inl e) n = rw (e, recorded-attempting r ref j) (ground arith)
Blames-records r ref j d (inr e) n = rw (e, recorded-timed_out r ref j) (ground arith)

Holds-records :
    (r : Resolution) (j : Bytes) (d : State)
    → Holds r d
    → lookup j r.suspects ≢ none
    → recorded d j ≢ none
Holds-records r j d (inl e) n = rw (e, recorded-at_rest r j) n
Holds-records r j d (inr (ref, b)) n = Blames-records r ref j d b n

-- The module that is blamed is recorded.
Blames-itself : (r : Resolution) (ref : Bytes) (d : State) → Blames r ref d → recorded d ref ≢ none
Blames-itself r ref d (inl e) =
    rw (e, recorded-attempting r ref ref) (ground (arith, equal_iff ref ref))
Blames-itself r ref d (inr e) =
    rw (e, recorded-timed_out r ref ref) (ground (arith, equal_iff ref ref))

Blames-ref : (r : Resolution) (ref : Bytes) (d : State) → Blames r ref d → d.module_ref ≡ ref
Blames-ref r ref d (inl e) = rw e
Blames-ref r ref d (inr e) = rw e

Blames-consumed :
    (r : Resolution) (ref : Bytes) (d : State)
    → Blames r ref d
    → d.consumed_retries ≡ r.consumed_retries
Blames-consumed r ref d (inl e) = rw e
Blames-consumed r ref d (inr e) = rw e

Holds-consumed : (r : Resolution) (d : State) → Holds r d → d.consumed_retries ≡ r.consumed_retries
Holds-consumed r d (inl e) = rw e
Holds-consumed r d (inr (ref, b)) = Blames-consumed r ref d b

-- Whom the sentinel blames for a launch that did not finish.
abbrev Blamed : Resolution → List Planned → State → Type 0
Blamed r ps d = (ref : Bytes) × IsCandidate ps ref × (lookup ref r.suspects ≡ none) × Blames r ref d

death-Blamed :
    (w : World) (r : Resolution) (ps : List Planned) (end : LaunchEnd) (d : State)
    → IsDeath end d
    → EndsLaunch w r ps end
    → Blamed r ps d
death-Blamed w r ps (finished qs d') d h = absurd h
death-Blamed w r ps (died d') d h = λ b. subst (Blamed r ps) h b
death-Blamed w r ps (hung d') d h =
    λ (ref, c, new, (e, _)). subst (Blamed r ps) h (ref, c, new, inl e)

module _ (retry : List Bytes) where
  -- A module that the file records ends no launch.
  Run-spares :
      {s : State} {dead : List Bytes} (j : Bytes)
      → IsUsed retry s
      → Run retry s dead
      → recorded s j ≢ none
      → All (λ i. i ≢ j) dead
  Run-spares j u stop n = tt
  Run-spares {s} j u (survives w a b ps qs d e run) n =
      let (r, shape, booted) = launch-eq-ok w retry a b ps s e in
      let held : Holds r d = subst (EndsLaunch w r ps) booted (boot_ends w r b ps) in
      let suspected =
        λ (q : lookup j r.suspects ≡ none). n (sym (resolve_used s retry j u shape) ∙ q) in
      Run-spares j (holds-IsUsed s retry d shape (Holds-consumed r d held)) run
        (Holds-records r j d held suspected)
  Run-spares {s} j u (dies w a b ps end d ref e x m run) n =
      let (r, shape, booted) = launch-eq-ok w retry a b ps s e in
      let (blamed, c, new, blame) =
        death-Blamed w r ps end d x (subst (EndsLaunch w r ps) booted (boot_ends w r b ps)) in
      let suspected =
        λ (q : lookup j r.suspects ≡ none). n (sym (resolve_used s retry j u shape) ∙ q) in
      let same : ref ≡ blamed = sym m ∙ Blames-ref r blamed d blame in
      (
        (λ q. suspected (subst (λ k. lookup k r.suspects ≡ none) (sym same ∙ q) new)),
        Run-spares j (holds-IsUsed s retry d shape (Blames-consumed r blamed d blame)) run
            (Blames-records r blamed j d blame suspected),
      )

  launch-IsUsed :
      (s : State) (w : World) (a b : Bool) (ps qs : List Planned) (d : State)
      → launch w retry a b ps s ≡ ok (finished qs d)
      → IsUsed retry d
  launch-IsUsed s w a b ps qs d e =
      let (r, shape, booted) = launch-eq-ok w retry a b ps s e in
      let held : Holds r d = subst (EndsLaunch w r ps) booted (boot_ends w r b ps) in
      holds-IsUsed s retry d shape (Holds-consumed r d held)

  -- What a launch that dies leaves behind: no grant is open, and the module is recorded.
  death_leaves :
      (s : State) (w : World) (a b : Bool) (ps : List Planned) (end : LaunchEnd) (d : State)
      → launch w retry a b ps s ≡ ok end
      → IsDeath end d
      → IsUsed retry d × (recorded d d.module_ref ≢ none)
  death_leaves s w a b ps end d e x =
      let (r, shape, booted) = launch-eq-ok w retry a b ps s e in
      let (ref, c, new, blame) =
        death-Blamed w r ps end d x (subst (EndsLaunch w r ps) booted (boot_ends w r b ps)) in
      (
        holds-IsUsed s retry d shape (Blames-consumed r ref d blame),
        subst (λ k. recorded d k ≢ none) (sym (Blames-ref r ref d blame))
            (Blames-itself r ref d blame),
      )

  -- While no grant is open, each launch that dies blames another module.
  Run-Distinct : {s : State} {dead : List Bytes} → IsUsed retry s → Run retry s dead → Distinct dead
  Run-Distinct u stop = tt
  Run-Distinct {s} u (survives w a b ps qs d e run) =
      Run-Distinct (launch-IsUsed s w a b ps qs d e) run
  Run-Distinct {s} u (dies w a b ps end d ref e x m run) =
      let (used, left) = death_leaves s w a b ps end d e x in
      (Run-spares ref used run (subst (λ k. recorded d k ≢ none) m left), Run-Distinct used run)

  -- There is no restart loop: in any row of launches with the same retries, whatever the modules and
  -- the file system do in each, no module is blamed twice for the launches that die, or hang until
  -- someone ends them, behind the first one that does. (That one may be the attempt that an open
  -- grant gives.)
  pub Run-deaths :
      {s : State} {ref : Bytes} {dead : List Bytes} → Run retry s (ref ∷ dead) → Distinct dead
  Run-deaths {s} (survives w a b ps qs d e run) =
      (Run-Distinct (launch-IsUsed s w a b ps qs d e) run).1
  Run-deaths {s} (dies w a b ps end d ref e x m run) =
      Run-Distinct (death_leaves s w a b ps end d e x).0 run

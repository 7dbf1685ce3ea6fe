-- ===== src/Plugins/Load.antt =====
-- `load_user_plugin_candidates` of src/studio_host.cpp with its watchdog, in the build with libobs.
-- What the modules and the file system do is a `World`: for each module reference, what an attempt to
-- load it comes to and whether each write of the sentinel goes through. The sentinel's file is the
-- state that it holds (Sentinel/RoundTrip shows that it is read back), and a failed write leaves it.
use streammate_studio_host.Prelude.{
  Bool, true, false, not, ◌&&◌, List, [], ◌∷◌, ◌++◌, if◌then◌else◌, Bytes, codes, contains_text,
}
use streammate_studio_host.Prelude.Ordered.{member}
use streammate_studio_host.Sentinel.{State, Resolution, attempting, timed_out}
use streammate_studio_host.Plugins.Portable.{is_portable_type_id}
use streammate_studio_host.Plugins.Record.{
  UserPluginRecord, excluded, loaded, duplicate_of_bundled, module_load_failed,
  architecture_mismatch, failed,
}
use streammate_studio_host.Plugins.Plan.{Planned}

-- What the second `dlopen` comes to, which probes why the first one failed: it fails with the text of
-- `dlerror`, or it succeeds, or a constructor that it runs ends the process or never returns.
pub data SecondOpen : Type 0 where
  fails : Bytes → SecondOpen
  opens crashes_again hangs_again : SecondOpen

-- Why a module is refused; a failed open with whether its file exists, and the probe behind it.
pub data OpenFailure : Type 0 where
  missing_exports incompatible_version : OpenFailure
  failed_to_open : Bool → SecondOpen → OpenFailure

-- What an attempt comes to. The list holds the registered types behind it, kind by kind.
pub data Attempt : Type 0 where
  initialised : Bool → List (List Bytes) → Attempt
  refused : OpenFailure → Attempt
  crashes hangs : Attempt

pub record World : Type 0 where
  pub bundled : List Bytes
  pub types_before : List (List Bytes)
  pub confined : Bytes → Bool
  pub attempt : Bytes → Attempt
  pub loading_written : Bytes → Bool
  pub deadline_written : Bytes → Bool

-- How the load phase stands: still going, with the types known so far, or ended by a crash, by the
-- watchdog, or by a hang that nothing ends.
pub data Phase : Type 0 where
  going : List Planned → State → List (List Bytes) → Phase
  crashed : State → Phase
  watchdog_exit : State → Phase
  stuck : State → Phase

-- `plugin_sentinel::write`: the new content if the write goes through.
abbrev pub write : Bool → State → State → State
write persists disk new = if persists then new else disk

-- A classification returns the record, or it does not return.
pub data Classified : Type 0 where
  classified : UserPluginRecord → Classified
  ends_process never_returns : Classified

unfoldable pub probed : SecondOpen → UserPluginRecord → Classified
unfolding contains_text
probed opens r = classified (failed r module_load_failed (codes "dlopen-failed"))
probed crashes_again r = ends_process
probed hangs_again r = never_returns
probed (fails text) r = classified (
    if contains_text (codes "Library not loaded") text
    then record (failed r (codes "dependency_missing") (codes "library-not-loaded")) {
      observed_dependencies = true;
    }
    else if contains_text (codes "architecture") text
    then failed r architecture_mismatch (codes "wrong-architecture")
    else failed r module_load_failed (codes "dlopen-failed"))

-- `classify_failed_dlopen` (POSIX).
unfoldable pub classify_failed_dlopen : Bool → SecondOpen → UserPluginRecord → Classified
unfolding probed
classify_failed_dlopen exists second r =
    if not exists
    then classified (failed r module_load_failed (codes "file-not-found"))
    else probed second r

unfoldable pub classify_failure : OpenFailure → UserPluginRecord → Classified
unfolding classify_failed_dlopen
classify_failure missing_exports r =
    classified (record (failed r module_load_failed (codes "missing-exports")) {
      observed_dependencies = true;
    })
classify_failure incompatible_version r =
    classified
      (record (failed r (codes "libobs_version_mismatch") (codes "incompatible-module-version")) {
        observed_dependencies = true;
      })
classify_failure (failed_to_open exists second) r = classify_failed_dlopen exists second r

-- The ids of one kind that are new and that the wire format admits.
new_types : List Bytes → List Bytes → List Bytes
new_types before [] = []
new_types before (id ∷ after) =
    let rest = new_types before after in
    if not (member id before) && is_portable_type_id id then id ∷ rest else rest

unfoldable pub new_registrations : List (List Bytes) → List (List Bytes) → List (List Bytes)
unfolding new_types
new_registrations [] after = []
new_registrations (b ∷ before) [] = []
new_registrations (b ∷ before) (a ∷ after) = new_types b a ∷ new_registrations before after

none_registered : List (List Bytes) → Bool
none_registered [] = true
none_registered ([] ∷ kinds) = none_registered kinds
none_registered ((id ∷ ids) ∷ kinds) = false

registered : UserPluginRecord → List (List Bytes) → UserPluginRecord
unfolding none_registered
registered r types = record r {
  lifecycle = loaded;
  observed_dependencies = true;
  has_registered_types = true;
  registered_types = types;
  state = if none_registered types then codes "type_not_registered" else r.state;
}

-- A bind of phases: what an ended phase holds stays.
abbrev pub resume : Phase → (List Planned → State → List (List Bytes) → Phase) → Phase
resume (going ps disk types) next = next ps disk types
resume (crashed disk) next = crashed disk
resume (watchdog_exit disk) next = watchdog_exit disk
resume (stuck disk) next = stuck disk

abbrev attempted : UserPluginRecord → List Planned
attempted r = record { entry = r; candidate = true } ∷ []

-- The watchdog is disarmed before the classification, so that nothing ends a hang in it.
abbrev pub behind_refusal : Classified → State → List (List Bytes) → Phase
behind_refusal (classified r) disk before = going (attempted r) disk before
behind_refusal ends_process disk before = crashed disk
behind_refusal never_returns disk before = stuck disk

module _ (world : World) (contained : Bool) (resolved : Resolution) where
  -- From `obs_open_module` on, when the loading record is written and the watchdog armed.
  unfoldable pub conclude : Attempt → UserPluginRecord → State → List (List Bytes) → Phase
  unfolding registered classify_failure
  conclude (initialised true after) r disk before =
      going (attempted (registered r (new_registrations before after))) disk after
  conclude (initialised false after) r disk before =
      going
        (attempted (record (failed r module_load_failed (codes "module-init-failed")) {
          observed_dependencies = true;
        }))
        disk after
  conclude (refused why) r disk before = behind_refusal (classify_failure why r) disk before
  conclude crashes r disk before = crashed disk
  conclude hangs r disk before =
      if contained
      then watchdog_exit
          (write (world.deadline_written r.module_ref) disk (timed_out resolved r.module_ref))
      else stuck disk

  -- The body of the loop for one candidate.
  unfoldable pub load_candidate : UserPluginRecord → State → List (List Bytes) → Phase
  load_candidate r disk before =
      if member r.label world.bundled
      then going (attempted (record r { lifecycle = duplicate_of_bundled })) disk before
      else if not (world.confined r.module_ref)
      then going (attempted (failed r module_load_failed (codes "symlink-refused"))) disk before
      else if not contained
      then conclude (world.attempt r.module_ref) r disk before
      else if not (world.loading_written r.module_ref)
      then going
          (attempted
            (record r { lifecycle = excluded; reason_detail = codes "sentinel-write-failed" }))
          disk before
      else conclude (world.attempt r.module_ref) r (attempting resolved r.module_ref) before

  unfoldable pub load_planned : Planned → State → List (List Bytes) → Phase
  load_planned p disk before =
      if p.candidate then load_candidate p.entry disk before else going (p ∷ []) disk before

  -- The loop; `done` are the records behind it.
  unfoldable pub load_loop : List Planned → List Planned → State → List (List Bytes) → Phase
  load_loop done [] disk before = going done disk before
  load_loop done (p ∷ ps) disk before =
      resume (load_planned p disk before)
        λ one disk' before'. load_loop (done ++ one) ps disk' before'

-- ===== src/Recording/Confined.antt =====
-- Recordings and replays write under the state directory only.
use streammate_studio_host.Prelude.{
  suc, ◌≡◌, refl, sym, subst, true, not, ◌||◌, Option, none, some, List, [], ◌∷◌, Bytes, codes,
  equal, if◌then◌else◌, All, All-append, if_holds,
}
use streammate_studio_host.Prelude.Maybe.{◌>>=◌}
use streammate_studio_host.Prelude.Ordered.{Map, insert, lookup, less}
use streammate_studio_host.Recording.{
  FilePath, World, join, begins_with, studio, confined_path, RecordSession, ReplaySession,
  Controller, Outcome, id_of, record_to, record_full, record_relative, record_home, start_record,
  stop_found, stop_record, replay_relative, replay_home, start_replay, save_full, save_found,
  save_replay, stop_replay_found, stop_replay, segment, next_save, Operation, starts_record,
  stops_record, starts_replay, saves_replay, stops_replay, takes_event, run, written_by,
  new_controller, recording_at, stopped_recording, buffering,
}

abbrev AllValues : {V : Type 0} → (V → Type 0) → Map V → Type 0
AllValues P m = All (λ e. P e.1) m

insert-AllValues :
    {V : Type 0} (P : V → Type 0) (k : Bytes) (v : V) (m : Map V)
    → P v
    → AllValues P m
    → AllValues P (insert k v m)
unfolding insert
insert-AllValues P k v [] h hs = (h, tt)
insert-AllValues P k v ((j, w) ∷ m) h (hw, hs) =
    if_holds (AllValues P) (less k j) (λ e. (h, (hw, hs)))
      λ e. if_holds (AllValues P) (less j k) (λ e. (hw, insert-AllValues P k v m h hs)) λ e. (h, hs)

abbrev OfSome : {A : Type 0} → (A → Type 0) → Option A → Type 0
OfSome P none = Unit
OfSome P (some a) = P a

lookup-OfSome :
    {V : Type 0} (P : V → Type 0) (k : Bytes) (m : Map V) → AllValues P m → OfSome P (lookup k m)
unfolding lookup
lookup-OfSome P k [] hs = tt
lookup-OfSome P k ((j, w) ∷ m) (hw, hs) =
    if_holds (OfSome P) (equal j k) (λ e. hw) λ e. lookup-OfSome P k m hs

-- Under the directory `studio` of the home as it is behind its symbolic links.
abbrev pub IsConfined : FilePath → FilePath → Type 0
IsConfined base full = begins_with (join base studio) full ≡ true

-- The environment and the home's own links stay as they are.
abbrev pub HasHome : FilePath → FilePath → World → Type 0
HasHome home base w = (w.home ≡ some home) × (w.weakly_canonical home ≡ some base)

abbrev pub SameHome : FilePath → FilePath → Operation → Type 0
SameHome home base (starts_record w request) = HasHome home base w
SameHome home base (stops_record w request) = HasHome home base w
SameHome home base (starts_replay w request) = HasHome home base w
SameHome home base (saves_replay w request) = HasHome home base w
SameHome home base (stops_replay request) = Unit
SameHome home base takes_event = Unit

module _ (home base : FilePath) where
  abbrev RecordKept : RecordSession → Type 0
  RecordKept s = IsConfined base s.full_path

  abbrev ReplayKept : ReplaySession → Type 0
  ReplayKept s = s.home ≡ home

  abbrev Kept : Controller → Type 0
  Kept c = AllValues RecordKept c.records × AllValues ReplayKept c.replays

  abbrev Safe : Outcome → Type 0
  Safe out = Kept out.controller × All (IsConfined base) out.written

  confined_path-OfSome :
      (w : World) (relative : FilePath)
      → HasHome home base w
      → OfSome (IsConfined base) (confined_path w home relative)
  unfolding confined_path
  confined_path-OfSome w relative (e, canon) =
      rw canon (below (w.weakly_canonical (join (join home studio) relative)))
    where
      below :
          (found : Option FilePath)
          → OfSome
              (IsConfined base)
              (found >>= λ full. if begins_with (join base studio) full then some full else none)
      below none = tt
      below (some full) =
          if_holds (OfSome (IsConfined base)) (begins_with (join base studio) full) (λ e. e) λ e. tt

  record_to-Safe :
      (w : World) (id : Bytes) (relative full : FilePath) (c : Controller)
      → IsConfined base full
      → Kept c
      → Safe (record_to w id relative full c)
  unfolding record_to
  record_to-Safe w id relative full c h k =
      if_holds Safe (not (w.directories_created full) || not (w.opens full)) (λ e. (k, tt))
        λ e. (
          (insert-AllValues RecordKept id (recording_at id relative full) c.records h k.0, k.1),
          (h, tt),
        )

  record_full-Safe :
      (w : World) (id : Bytes) (relative : FilePath) (found : Option FilePath) (c : Controller)
      → OfSome (IsConfined base) found
      → Kept c
      → Safe (record_full w id relative found c)
  unfolding record_full
  record_full-Safe w id relative none c h k = (k, tt)
  record_full-Safe w id relative (some full) c h k = record_to-Safe w id relative full c h k

  record_relative-Safe :
      (w : World) (id : Bytes) (relative : Option FilePath) (c : Controller)
      → HasHome home base w
      → Kept c
      → Safe (record_relative w id home relative c)
  unfolding record_relative
  record_relative-Safe w id none c h k = (k, tt)
  record_relative-Safe w id (some relative) c h k =
      record_full-Safe w id relative _ c (confined_path-OfSome w relative h) k

  start_record-Safe :
      (w : World) (request : Bytes) (c : Controller)
      → HasHome home base w
      → Kept c
      → Safe (start_record w request c)
  unfolding start_record record_home
  start_record-Safe w request c h k =
      subst
        (λ found.
          Safe
            (record_home w request (id_of request (codes "recordId") (codes "recording")) found c))
        (sym (h.0)) (record_relative-Safe w _ _ c h k)

  stop_found-Safe :
      (w : World) (id : Bytes) (found : Option RecordSession) (c : Controller)
      → OfSome RecordKept found
      → Kept c
      → Safe (stop_found w id found c)
  unfolding stop_found
  stop_found-Safe w id none c h k = (k, tt)
  stop_found-Safe w id (some s) c h k =
      if_holds Safe (not s.running) (λ e. (k, tt))
        λ e.
          if_holds Safe (not (w.opens s.full_path)) (λ e. (k, tt))
            λ e. (
              (insert-AllValues RecordKept id (stopped_recording w s) c.records h k.0, k.1),
              (h, tt),
            )

  replay_relative-Safe :
      (id : Bytes) (relative : Option FilePath) (c : Controller)
      → Kept c
      → Safe (replay_relative id home relative c)
  unfolding replay_relative
  replay_relative-Safe id none c k = (k, tt)
  replay_relative-Safe id (some relative) c k =
      ((k.0, insert-AllValues ReplayKept id (buffering id home) c.replays refl k.1), tt)

  start_replay-Safe :
      (w : World) (request : Bytes) (c : Controller)
      → HasHome home base w
      → Kept c
      → Safe (start_replay w request c)
  unfolding start_replay replay_home
  start_replay-Safe w request c h k = rw (h.0) (replay_relative-Safe _ _ c k)

  save_full-Safe :
      (w : World) (relative : FilePath) (found : Option FilePath) (s : ReplaySession)
      (c : Controller)
      → OfSome (IsConfined base) found
      → Kept c
      → Safe (save_full w relative found s c)
  unfolding save_full
  save_full-Safe w relative none s c h k = (k, tt)
  save_full-Safe w relative (some full) s c h k =
      if_holds Safe (not (w.directories_created full) || not (w.opens full)) (λ e. (k, tt))
        λ e. (k, (h, tt))

  save_found-Safe :
      (w : World) (id : Bytes) (found : Option ReplaySession) (c : Controller)
      → HasHome home base w
      → OfSome ReplayKept found
      → Kept c
      → Safe (save_found w id found c)
  unfolding save_found
  save_found-Safe w id none c h r k = (k, tt)
  save_found-Safe w id (some s) c h r k =
      if_holds Safe (not s.running) (λ e. (k, tt))
        λ e.
          save_full-Safe w _ _ _ _ (rw r (confined_path-OfSome w (segment w id (suc s.save_seq)) h))
            (k.0, insert-AllValues ReplayKept id (next_save s) c.replays r k.1)

  stop_replay_found-Safe :
      (id : Bytes) (found : Option ReplaySession) (c : Controller)
      → OfSome ReplayKept found
      → Kept c
      → Safe (stop_replay_found id found c)
  unfolding stop_replay_found
  stop_replay_found-Safe id none c r k = (k, tt)
  stop_replay_found-Safe id (some s) c r k =
      ((k.0, insert-AllValues ReplayKept id _ c.replays r k.1), tt)

  run-Safe : (op : Operation) (c : Controller) → SameHome home base op → Kept c → Safe (run op c)
  unfolding run stop_record save_replay stop_replay
  run-Safe (starts_record w request) c h k = start_record-Safe w request c h k
  run-Safe (stops_record w request) c h k =
      stop_found-Safe w _ _ c (lookup-OfSome RecordKept _ c.records k.0) k
  run-Safe (starts_replay w request) c h k = start_replay-Safe w request c h k
  run-Safe (saves_replay w request) c h k =
      save_found-Safe w _ _ c h (lookup-OfSome ReplayKept _ c.replays k.1) k
  run-Safe (stops_replay request) c h k =
      stop_replay_found-Safe _ _ c (lookup-OfSome ReplayKept _ c.replays k.1) k
  run-Safe takes_event c h k = (k, tt)

  written_from :
      (ops : List Operation) (c : Controller)
      → All (SameHome home base) ops
      → Kept c
      → All (IsConfined base) (written_by ops c)
  unfolding written_by
  written_from [] c hs k = tt
  written_from (op ∷ ops) c (h, hs) k =
      let (k', w) = run-Safe op c h k in
      All-append (IsConfined base) (run op c).written _ w
        (written_from ops (run op c).controller hs k')

  -- In a session during which the environment and the home's own links stay as they are, every path
  -- that is opened for writing lies under the directory `studio` of the resolved home, whatever the
  -- requests are and whatever else the file system answers.
  pub written_by-IsConfined :
      (ops : List Operation)
      → All (SameHome home base) ops
      → All (IsConfined base) (written_by ops new_controller)
  written_by-IsConfined ops hs = written_from ops new_controller hs (tt, tt)

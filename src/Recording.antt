-- ===== src/Recording.antt =====
-- `class RecordReplayController` of src/studio_host.cpp. A path is the list of its elements, as
-- `std::filesystem::path` iterates over them: one that starts with the root `/` is absolute. What the
-- standard library and the file system do is a `World`. Not modelled: the JSON texts of replies and
-- events, the contents of the files, and the outputs of libobs that nothing calls.
pub mod Confined
use streammate_studio_host.Prelude.{
  ℕ, suc, Bool, true, false, not, ◌||◌, Option, none, some, List, [], ◌∷◌, ◌++◌, if◌then◌else◌,
  Bytes, codes, equal, is_empty, contains_text,
}
use streammate_studio_host.Prelude.Maybe.{◌>>=◌}
use streammate_studio_host.Prelude.Ordered.{Map, insert, lookup, member}
use streammate_studio_host.Rpc.Reply.{Reply, refused, answered}
use streammate_studio_host.Rpc.Fields.{extract_json_string}

abbrev pub FilePath : Type 0
FilePath = List Bytes

-- `path_from_utf8`, `std::to_string`, STREAMMATE_HOME, `weakly_canonical` (`none` where it throws),
-- and for a file to write whether its directory can be made, whether it opens, and its size.
pub record World : Type 0 where
  pub parts : Bytes → FilePath
  pub to_string : ℕ → Bytes
  pub home : Option FilePath
  pub weakly_canonical : FilePath → Option FilePath
  pub directories_created : FilePath → Bool
  pub opens : FilePath → Bool
  pub file_size : FilePath → ℕ

abbrev pub is_absolute : FilePath → Bool
is_absolute [] = false
is_absolute (p ∷ ps) = equal p (codes "/")

-- `operator/`: an absolute path replaces what it is appended to.
abbrev pub join : FilePath → FilePath → FilePath
join p q = if is_absolute q then q else p ++ q

-- The walk over the trusted prefix.
unfoldable pub begins_with : FilePath → FilePath → Bool
begins_with [] full = true
begins_with (p ∷ trusted) [] = false
begins_with (p ∷ trusted) (q ∷ full) = if equal q p then begins_with trusted full else false

abbrev pub studio : FilePath
studio = codes "studio" ∷ []

unfoldable pub confined_path : World → FilePath → FilePath → Option FilePath
confined_path w home relative = do
  base ← w.weakly_canonical home
  full ← w.weakly_canonical (join (join home studio) relative)
  if begins_with (join base studio) full then some full else none

unfoldable pub sanitized_relative : World → Bytes → Bytes → Bytes → Option FilePath
sanitized_relative w destination subdir default_name =
    if is_empty destination
    then some (join (w.parts subdir) (w.parts default_name))
    else if contains_text (codes "://") destination
    then none
    else if is_absolute (w.parts destination) || member (codes "..") (w.parts destination)
    then none
    else some (join (w.parts subdir) (w.parts destination))

pub record RecordSession : Type 0 where
  pub record_id : Bytes
  pub full_path : FilePath
  pub relative : FilePath
  pub status : Bytes
  pub running : Bool
  pub frame_count : ℕ
  pub bytes : ℕ

pub record ReplaySession : Type 0 where
  pub replay_id : Bytes
  pub home : FilePath
  pub status : Bytes
  pub running : Bool
  pub save_seq : ℕ
  pub chunks : ℕ

pub data Event : Type 0 where
  record_started record_stopped : RecordSession → Event
  replay_saved : ReplaySession → FilePath → Event

pub record Controller : Type 0 where
  pub records : Map RecordSession
  pub replays : Map ReplaySession
  pub pending_event : Option Event

-- What an operation leaves: the controller, its reply, and the files that it has opened for writing.
pub record Outcome : Type 0 where
  pub controller : Controller
  pub reply : Reply
  pub written : List FilePath

abbrev pub refuse : Controller → ℕ → Bytes → Outcome
refuse c code message = record { controller = c; reply = refused code message; written = [] }

abbrev pub id_of : Bytes → Bytes → Bytes → Bytes
id_of request key default =
    if is_empty (extract_json_string request key) then default else extract_json_string request key

abbrev bad_record_path : Bytes
bad_record_path = codes "record destination must be a relative path under the state directory"

abbrev bad_replay_path : Bytes
bad_replay_path = codes "replay destination must be a relative path under the state directory"

abbrev pub recording_at : Bytes → FilePath → FilePath → RecordSession
recording_at id relative full = record {
  record_id = id;
  full_path = full;
  relative = relative;
  status = codes "recording";
  running = true;
  frame_count = 1;
  bytes = 0;
}

-- `start_record` with a path that is confined.
unfoldable pub record_to : World → Bytes → FilePath → FilePath → Controller → Outcome
record_to w id relative full c =
    if not (w.directories_created full) || not (w.opens full)
    then refuse c 32603 (codes "record output could not be created")
    else record {
      controller = record c {
        records = insert id (recording_at id relative full) c.records;
        pending_event = some (record_started (recording_at id relative full));
      };
      reply = answered;
      written = full ∷ [];
    }

-- `start_record` behind the sanitising of its destination, and behind the check of its path.
unfoldable pub record_full : World → Bytes → FilePath → Option FilePath → Controller → Outcome
record_full w id relative none c = refuse c 32602 bad_record_path
record_full w id relative (some full) c = record_to w id relative full c

unfoldable pub record_relative : World → Bytes → FilePath → Option FilePath → Controller → Outcome
record_relative w id home none c = refuse c 32602 bad_record_path
record_relative w id home (some relative) c =
    record_full w id relative (confined_path w home relative) c

unfoldable pub record_home : World → Bytes → Bytes → Option FilePath → Controller → Outcome
record_home w request id none c = refuse c 32602 (codes "STREAMMATE_HOME is required")
record_home w request id (some home) c =
    record_relative w id home
      (sanitized_relative w (extract_json_string request (codes "destination")) (codes "recordings")
        (id ++ codes ".mkv"))
      c

unfoldable pub start_record : World → Bytes → Controller → Outcome
start_record w request c =
    record_home w request (id_of request (codes "recordId") (codes "recording")) w.home c

abbrev pub stopped_recording : World → RecordSession → RecordSession
stopped_recording w s = record s {
  frame_count = 3;
  running = false;
  status = codes "stopped";
  bytes = w.file_size s.full_path;
}

unfoldable pub stop_found : World → Bytes → Option RecordSession → Controller → Outcome
stop_found w id none c = refuse c 32602 (codes "recording is not running")
stop_found w id (some s) c =
    if not s.running
    then record { controller = c; reply = answered; written = [] }
    else if not (w.opens s.full_path)
    then refuse c 32603 (codes "record output could not be finalized")
    else record {
      controller = record c {
        records = insert id (stopped_recording w s) c.records;
        pending_event = some (record_stopped (stopped_recording w s));
      };
      reply = answered;
      written = s.full_path ∷ [];
    }

unfoldable pub stop_record : World → Bytes → Controller → Outcome
stop_record w request c =
    let id = id_of request (codes "recordId") (codes "recording") in
    stop_found w id (lookup id c.records) c

abbrev pub buffering : Bytes → FilePath → ReplaySession
buffering id home = record {
  replay_id = id;
  home = home;
  status = codes "buffering";
  running = true;
  save_seq = 0;
  chunks = 4;
}

unfoldable pub replay_relative : Bytes → FilePath → Option FilePath → Controller → Outcome
replay_relative id home none c = refuse c 32602 bad_replay_path
replay_relative id home (some relative) c = record {
  controller = record c { replays = insert id (buffering id home) c.replays };
  reply = answered;
  written = [];
}

unfoldable pub replay_home : World → Bytes → Bytes → Option FilePath → Controller → Outcome
replay_home w request id none c = refuse c 32602 (codes "STREAMMATE_HOME is required")
replay_home w request id (some home) c =
    replay_relative id home
      (sanitized_relative w (extract_json_string request (codes "destination")) (codes "replays")
        (id ++ codes ".mkv"))
      c

unfoldable pub start_replay : World → Bytes → Controller → Outcome
start_replay w request c =
    replay_home w request (id_of request (codes "replayId") (codes "replay")) w.home c

-- `++session.save_seq`, which stays if the save fails.
abbrev pub next_save : ReplaySession → ReplaySession
next_save s = record s { save_seq = suc s.save_seq }

abbrev pub with_replay : Bytes → ReplaySession → Controller → Controller
with_replay id s c = record c { replays = insert id s c.replays }

abbrev pub segment : World → Bytes → ℕ → FilePath
segment w id seq =
    join (w.parts (codes "replays")) (w.parts (id ++ codes "-" ++ w.to_string seq ++ codes ".mkv"))

unfoldable pub save_full : World → FilePath → Option FilePath → ReplaySession → Controller → Outcome
save_full w relative none s c = refuse c 32602 bad_replay_path
save_full w relative (some full) s c =
    if not (w.directories_created full) || not (w.opens full)
    then refuse c 32603 (codes "replay could not be materialized")
    else record {
      controller = record c { pending_event = some (replay_saved s relative) };
      reply = answered;
      written = full ∷ [];
    }

unfoldable pub save_found : World → Bytes → Option ReplaySession → Controller → Outcome
save_found w id none c = refuse c 32602 (codes "replay buffer is not running")
save_found w id (some s) c =
    if not s.running
    then refuse c 32602 (codes "replay buffer is not running")
    else save_full w (segment w id (suc s.save_seq))
        (confined_path w s.home (segment w id (suc s.save_seq))) (next_save s)
        (with_replay id (next_save s) c)

unfoldable pub save_replay : World → Bytes → Controller → Outcome
save_replay w request c =
    let id = id_of request (codes "replayId") (codes "replay") in
    save_found w id (lookup id c.replays) c

unfoldable pub stop_replay_found : Bytes → Option ReplaySession → Controller → Outcome
stop_replay_found id none c = refuse c 32602 (codes "replay buffer is not running")
stop_replay_found id (some s) c = record {
  controller =
      with_replay id (record s { running = false; status = codes "stopped"; chunks = 0 }) c;
  reply = answered;
  written = [];
}

unfoldable pub stop_replay : Bytes → Controller → Outcome
stop_replay request c =
    let id = id_of request (codes "replayId") (codes "replay") in
    stop_replay_found id (lookup id c.replays) c

abbrev pub take_event : Controller → Controller × Option Event
take_event c = (record c { pending_event = none }, c.pending_event)

-- The requests of a session, each with the file system as it then is.
pub data Operation : Type 0 where
  starts_record stops_record starts_replay saves_replay : World → Bytes → Operation
  stops_replay : Bytes → Operation
  takes_event : Operation

unfoldable pub run : Operation → Controller → Outcome
run (starts_record w request) c = start_record w request c
run (stops_record w request) c = stop_record w request c
run (starts_replay w request) c = start_replay w request c
run (saves_replay w request) c = save_replay w request c
run (stops_replay request) c = stop_replay request c
run takes_event c = record { controller = (take_event c).0; reply = answered; written = [] }

-- The files that a session opens for writing.
unfoldable pub written_by : List Operation → Controller → List FilePath
written_by [] c = []
written_by (op ∷ ops) c = (run op c).written ++ written_by ops (run op c).controller

abbrev pub new_controller : Controller
new_controller = record { records = []; replays = []; pending_event = none }

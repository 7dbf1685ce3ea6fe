-- ===== src/Tests/Recording.antt =====
-- A recording that is started and stopped and a replay that is saved, on a disk without links.
use streammate_studio_host.Prelude.{◌≡◌, refl, true, some, List, [], ◌∷◌, Bytes, codes, All}
use streammate_studio_host.Prelude.{equal}
use streammate_studio_host.Prelude.Ordered.{insert, lookup, less}
use streammate_studio_host.Rpc.Fields.{extract_json_string}
use streammate_studio_host.Recording.{
  run, start_record, record_home, record_relative, record_full, record_to, sanitized_relative,
  confined_path, begins_with, stop_record, stop_found, start_replay, replay_home, replay_relative,
  save_replay, save_found, save_full, FilePath, World, Operation, starts_record, stops_record,
  starts_replay, saves_replay, written_by, new_controller,
}
use streammate_studio_host.Recording.Confined.{IsConfined, written_by-IsConfined}

abbrev home_path : FilePath
home_path = codes "/" ∷ codes "home" ∷ []

abbrev pub linkless : World
linkless = record {
  parts = λ text. text ∷ [];
  to_string = λ n. codes "1";
  home = some home_path;
  weakly_canonical = λ path. some path;
  directories_created = λ path. true;
  opens = λ path. true;
  file_size = λ path. 100;
}

abbrev session : List Operation
session =
    starts_record linkless (codes "{\"recordId\":\"a\"}")
    ∷ stops_record linkless (codes "{\"recordId\":\"a\"}")
    ∷ starts_replay linkless (codes "{}")
    ∷ saves_replay linkless (codes "{}")
    ∷ []

written_by-IsConfined_example : All (IsConfined home_path) (written_by session new_controller)
written_by-IsConfined_example =
    written_by-IsConfined home_path home_path session
      ((refl, refl), ((refl, refl), ((refl, refl), ((refl, refl), tt))))

abbrev below_home : Bytes → Bytes → FilePath
below_home directory file = codes "/" ∷ codes "home" ∷ codes "studio" ∷ directory ∷ file ∷ []

session_files :
    written_by session new_controller
    ≡ below_home (codes "recordings") (codes "a.mkv")
      ∷ below_home (codes "recordings") (codes "a.mkv")
      ∷ below_home (codes "replays") (codes "replay-1.mkv")
      ∷ []
unfolding written_by run start_record record_home record_relative record_full record_to
    sanitized_relative confined_path begins_with stop_record stop_found start_replay replay_home
    replay_relative save_replay save_found save_full insert lookup less equal extract_json_string
session_files = refl

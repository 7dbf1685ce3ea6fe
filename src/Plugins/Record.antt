-- ===== src/Plugins/Record.antt =====
-- `UserPluginRecord` of src/studio_host.cpp, with the strings that its fields take.
use streammate_studio_host.Prelude.{Bool, List, Bytes, codes}

pub record UserPluginRecord : Type 0 where
  pub module_ref : Bytes
  pub label : Bytes
  pub file_name : Bytes
  pub root_ref : Bytes
  pub sha256 : Bytes
  pub archs : List Bytes
  pub observed_arch : Bool
  pub lifecycle : Bytes
  pub reason_detail : Bytes
  pub state : Bytes
  pub observed_dependencies : Bool
  pub has_registered_types : Bool
  pub registered_types : List (List Bytes)

abbrev pub discovered : Bytes
discovered = codes "discovered"

abbrev pub excluded : Bytes
excluded = codes "excluded"

abbrev pub loaded : Bytes
loaded = codes "loaded"

abbrev pub load_failed : Bytes
load_failed = codes "load_failed"

abbrev pub duplicate_of_bundled : Bytes
duplicate_of_bundled = codes "duplicate_of_bundled"

abbrev pub module_load_failed : Bytes
module_load_failed = codes "module_load_failed"

abbrev pub architecture_mismatch : Bytes
architecture_mismatch = codes "architecture_mismatch"

-- The record of a load that failed in the way given.
abbrev pub failed : UserPluginRecord → Bytes → Bytes → UserPluginRecord
failed r state' reason = record r {
  lifecycle = load_failed;
  state = state';
  reason_detail = reason;
}

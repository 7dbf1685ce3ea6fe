-- ===== src/Plugins/Plan.antt =====
-- `build_user_plugin_load_plan` of src/studio_host.cpp. `plan.candidates` holds the indices of some of
-- the records, in order; here each record carries a mark that says whether its index is there.
use streammate_studio_host.Prelude.{
  Bool, true, false, not, ◌&&◌, List, [], ◌∷◌, if◌then◌else◌, Bytes, codes, equal, is_empty,
}
use streammate_studio_host.Prelude.Ordered.{member}
use streammate_studio_host.Manifest.{Manifest}
use streammate_studio_host.Plugins.Record.{UserPluginRecord, discovered, architecture_mismatch}

pub record Planned : Type 0 where
  pub entry : UserPluginRecord
  pub candidate : Bool

-- One round of the loop; `host_arch` is `kHostCpuArch`.
unfoldable pub plan_one : Bytes → Manifest → UserPluginRecord → Planned
plan_one host_arch manifest r =
    if not (equal r.lifecycle discovered)
    then record { entry = r; candidate = false }
    else if not (is_empty r.reason_detail)
    then record { entry = r; candidate = false }
    else if r.observed_arch && not (is_empty host_arch) && not (member host_arch r.archs)
    then record { entry = record r { state = architecture_mismatch }; candidate = false }
    else if manifest.has_selected && not (member r.module_ref manifest.selected)
    then record { entry = record r { reason_detail = codes "not-selected" }; candidate = false }
    else record { entry = r; candidate = true }

unfoldable pub build_load_plan : Bytes → Manifest → List UserPluginRecord → List Planned
unfolding plan_one
build_load_plan host_arch manifest [] = []
build_load_plan host_arch manifest (r ∷ rs) =
    plan_one host_arch manifest r ∷ build_load_plan host_arch manifest rs

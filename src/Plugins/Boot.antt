-- ===== src/Plugins/Boot.antt =====
-- A launch with containment: the part of `parse_args` that reads and probes the sentinel, and
-- `build_user_plugins_boot_report_json` up to the report (src/studio_host.cpp).
pub mod Blame
pub mod Loop
pub mod Eligible
use streammate_studio_host.Prelude.{
  Bool, true, false, not, ◌&&◌, Option, none, some, List, [], ◌∷◌, if◌then◌else◌, Bytes, codes,
  equal,
}
use streammate_studio_host.Prelude.Ordered.{Map, lookup}
use streammate_studio_host.Prelude.Result.{Result, ok, err, ◌>>=◌, ◌>>◌, guard}
use streammate_studio_host.Sentinel.{State, Resolution, resolve, at_rest}
use streammate_studio_host.Plugins.Record.{UserPluginRecord, excluded}
use streammate_studio_host.Plugins.Plan.{Planned}
use streammate_studio_host.Plugins.Load.{
  World, Phase, going, crashed, watchdog_exit, stuck, write, load_loop,
}

refuse : UserPluginRecord → Bytes → Planned
refuse r kind = record {
  entry = record r {
    lifecycle = excluded;
    state = codes "runtime_crash";
    reason_detail =
        if equal kind (codes "hang") then codes "hang-suspected" else codes "crash-suspected";
  };
  candidate = false;
}

unfoldable pub refuse_found : Option Bytes → Planned → Planned
unfolding refuse
refuse_found none p = p
refuse_found (some kind) p = refuse p.entry kind

-- One round of the filter: a suspected candidate is refused before any attempt.
unfoldable pub refuse_suspect : Map Bytes → Planned → Planned
refuse_suspect suspects p =
    if p.candidate then refuse_found (lookup p.entry.module_ref suspects) p else p

unfoldable pub refuse_suspects : Map Bytes → List Planned → List Planned
refuse_suspects suspects [] = []
refuse_suspects suspects (p ∷ ps) = refuse_suspect suspects p ∷ refuse_suspects suspects ps

-- How the load phase of a launch ends, and what the sentinel holds then.
pub data LaunchEnd : Type 0 where
  finished : List Planned → State → LaunchEnd
  died : State → LaunchEnd
  hung : State → LaunchEnd

-- Behind the loop the sentinel is written at rest again; that write's result is not looked at.
unfoldable pub settle : Resolution → Bool → Phase → LaunchEnd
settle r idle_written (going ps disk types) = finished ps (write idle_written disk (at_rest r))
settle r idle_written (crashed disk) = died disk
settle r idle_written (watchdog_exit disk) = died disk
settle r idle_written (stuck disk) = hung disk

unfoldable pub boot : World → Resolution → Bool → List Planned → LaunchEnd
boot world r idle_written ps =
    settle r idle_written
      (load_loop world true r [] (refuse_suspects r.suspects ps) (at_rest r) world.types_before)

-- From the sentinel of the last run; `probe_written` says whether the launch can write its own.
unfoldable pub launch : World → List Bytes → Bool → Bool → List Planned → State → Result LaunchEnd
launch world retry probe_written idle_written ps s = do
  r ← resolve s retry
  guard probe_written (codes "invalid --plugin-load-sentinel: sentinel-unwritable")
  ok (boot world r idle_written ps)

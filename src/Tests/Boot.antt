-- ===== src/Tests/Boot.antt =====
-- The theorems on the load phase at a row of launches in which every module crashes.
use streammate_studio_host.Prelude.{◌≡◌, refl, true, false, List, [], ◌∷◌, Bytes, codes, equal}
use streammate_studio_host.Prelude.Ordered.{lookup, insert, erase, add, member, less}
use streammate_studio_host.Prelude.Result.{ok}
use streammate_studio_host.Sentinel.{State, fresh, resolve, promote, grant, loading}
use streammate_studio_host.Plugins.Record.{discovered}
use streammate_studio_host.Plugins.Plan.{Planned}
use streammate_studio_host.Plugins.Load.{
  World, crashes, load_loop, load_planned, load_candidate, conclude,
}
use streammate_studio_host.Plugins.Boot.{
  boot, launch, died, refuse_suspects, refuse_suspect, refuse_found, settle,
}
use streammate_studio_host.Plugins.Boot.Blame.{EndsLaunch, boot_ends}
use streammate_studio_host.Plugins.Boot.Loop.{stop, dies, Distinct, Run-deaths}

abbrev plugin : Bytes → Planned
plugin ref = record {
  entry = record {
    module_ref = ref;
    label = ref;
    file_name = [];
    root_ref = [];
    sha256 = [];
    lifecycle = discovered;
    state = [];
    reason_detail = [];
    observed_arch = false;
    archs = [];
    observed_dependencies = false;
    has_registered_types = false;
    registered_types = [];
  };
  candidate = true;
}

abbrev three_plugins : List Planned
three_plugins =
    plugin (codes "module:a") ∷ plugin (codes "module:b") ∷ plugin (codes "module:c") ∷ []

abbrev crashing : World
crashing = record {
  bundled = [];
  types_before = [];
  confined = λ ref. true;
  attempt = λ ref. crashes;
  loading_written = λ ref. true;
  deadline_written = λ ref. true;
}

abbrev retries : List Bytes
retries = codes "module:a" ∷ []

abbrev first_end : State
first_end = record {
  phase = loading;
  module_ref = codes "module:a";
  suspects = [];
  consumed_retries = retries;
}

abbrev second_end : State
second_end = record {
  phase = loading;
  module_ref = codes "module:b";
  suspects = (codes "module:a", codes "crash") ∷ [];
  consumed_retries = retries;
}

abbrev third_end : State
third_end = record {
  phase = loading;
  module_ref = codes "module:c";
  suspects = (codes "module:a", codes "crash") ∷ (codes "module:b", codes "crash") ∷ [];
  consumed_retries = retries;
}

first_launch : launch crashing retries true true three_plugins fresh ≡ ok (died first_end)
unfolding launch resolve promote grant insert erase add member equal less boot settle load_loop
    refuse_suspects load_planned refuse_suspect refuse_found lookup load_candidate conclude
first_launch = refl

second_launch : launch crashing retries true true three_plugins first_end ≡ ok (died second_end)
unfolding launch resolve promote grant insert erase add member equal less boot settle load_loop
    refuse_suspects load_planned refuse_suspect refuse_found lookup load_candidate conclude
second_launch = refl

third_launch : launch crashing retries true true three_plugins second_end ≡ ok (died third_end)
unfolding launch resolve promote grant insert erase add member equal less boot settle load_loop
    refuse_suspects load_planned refuse_suspect refuse_found lookup load_candidate conclude
third_launch = refl

Run-deaths_example : Distinct (codes "module:b" ∷ codes "module:c" ∷ [])
Run-deaths_example = Run-deaths retries (
    dies crashing true true three_plugins (died first_end) first_end (codes "module:a") first_launch
      refl refl
      (dies crashing true true three_plugins (died second_end) second_end (codes "module:b")
        second_launch refl refl
        (dies crashing true true three_plugins (died third_end) third_end (codes "module:c")
          third_launch refl refl stop)))

boot_ends_example :
    EndsLaunch crashing
      (record { suspects = []; consumed_retries = retries })
      three_plugins
      (boot crashing (record { suspects = []; consumed_retries = retries }) true three_plugins)
boot_ends_example =
    boot_ends crashing (record { suspects = []; consumed_retries = retries }) true three_plugins

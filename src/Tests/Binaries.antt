-- ===== src/Tests/Binaries.antt =====
-- The theorems on plugins' binaries and on the load plan at concrete inputs.
use streammate_studio_host.Prelude.{
  ◌≡◌, ◌↔◌, refl, true, false, some, List, [], ◌∷◌, ◌++◌, Bytes, codes, equal, replicate,
}
use streammate_studio_host.Prelude.Ordered.{member}
use streammate_studio_host.Manifest.{Manifest}
use streammate_studio_host.Plugins.Record.{UserPluginRecord, discovered}
use streammate_studio_host.Plugins.Plan.{build_load_plan}
use streammate_studio_host.Plugins.Boot.Blame.{IsCandidate}
use streammate_studio_host.Plugins.Boot.Eligible.{HasEligible, build_load_plan-IsCandidate}
use streammate_studio_host.Plugins.Image.{
  read_u32_at, fat_archs, fat_table, fat_entries, macho_archs, cpu_type_label, parse_macho_archs,
  parse_pe_archs,
}
use streammate_studio_host.Plugins.Image.Safe.{
  IsSafe, parse_macho_archs-IsSafe, parse_pe_archs-IsSafe,
}

abbrev entry : Bytes → Bytes
entry cputype = cputype ++ replicate 16 0

-- A universal image with two architectures.
abbrev universal : Bytes
universal =
    0xCA
    ∷ 0xFE
    ∷ 0xBA
    ∷ 0xBE
    ∷ 0
    ∷ 0
    ∷ 0
    ∷ 2
    ∷ (entry (1 ∷ 0 ∷ 0 ∷ 0x0C ∷ []) ++ entry (1 ∷ 0 ∷ 0 ∷ 7 ∷ []))

universal_archs : parse_macho_archs universal ≡ some (some (codes "arm64" ∷ codes "x86_64" ∷ []))
unfolding parse_macho_archs read_u32_at macho_archs fat_archs fat_table fat_entries member equal
    cpu_type_label
universal_archs = refl

parse_macho_archs-IsSafe_example : IsSafe (parse_macho_archs universal)
parse_macho_archs-IsSafe_example = parse_macho_archs-IsSafe universal

parse_pe_archs-IsSafe_example : IsSafe (parse_pe_archs (b'M' ∷ b'Z' ∷ replicate 80 0))
parse_pe_archs-IsSafe_example = parse_pe_archs-IsSafe (b'M' ∷ b'Z' ∷ replicate 80 0)

abbrev chosen : Manifest
chosen = record {
  roots = [];
  has_selected = true;
  selected = codes "module:a" ∷ [];
  exclude = [];
  retry = [];
}

abbrev found : Bytes → UserPluginRecord
found ref = record {
  module_ref = ref;
  label = ref;
  file_name = [];
  root_ref = [];
  sha256 = [];
  archs = codes "arm64" ∷ [];
  observed_arch = true;
  lifecycle = discovered;
  reason_detail = [];
  state = [];
  observed_dependencies = false;
  has_registered_types = false;
  registered_types = [];
}

abbrev both : List UserPluginRecord
both = found (codes "module:a") ∷ found (codes "module:b") ∷ []

build_load_plan-IsCandidate_example :
    IsCandidate (build_load_plan (codes "arm64") chosen both) (codes "module:a")
    ↔ HasEligible (codes "arm64") chosen both (codes "module:a")
build_load_plan-IsCandidate_example =
    build_load_plan-IsCandidate (codes "arm64") chosen both (codes "module:a")

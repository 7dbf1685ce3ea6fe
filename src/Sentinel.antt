-- ===== src/Sentinel.antt =====
-- `namespace plugin_sentinel` of src/studio_host.cpp: the record of a plugin load in progress.
-- The file system is met through the answers that `load_or_throw` gets from it.
pub mod Parse
pub mod WellFormed
pub mod Arrays
pub mod RoundTrip
pub mod Resolve
pub mod Keeps
use streammate_studio_host.Prelude.{
  ℕ, Bool, true, false, not, ◌&&◌, ◌||◌, Option, none, some, List, [], ◌∷◌, ◌++◌, ltb,
  if◌then◌else◌, Bytes, codes, equal, length,
}
use streammate_studio_host.Prelude.Ordered.{Map, insert, erase, add, member}
use streammate_studio_host.Prelude.Result.{Result, ok, err}
use streammate_studio_host.Json.Escape.{json_escape}

abbrev pub max_sentinel_bytes : ℕ
max_sentinel_bytes = 65536

abbrev pub max_suspects : ℕ
max_suspects = 256

abbrev pub schema : Bytes
schema = codes "plugin-load-sentinel.v1"

abbrev pub idle : Bytes
idle = codes "idle"

abbrev pub loading : Bytes
loading = codes "loading"

abbrev pub deadline_exceeded : Bytes
deadline_exceeded = codes "deadline-exceeded"

pub record State : Type 0 where
  pub phase : Bytes
  pub module_ref : Bytes
  pub suspects : Map Bytes
  pub consumed_retries : List Bytes

-- A default-constructed `State`.
abbrev pub fresh : State
fresh = record { phase = idle; module_ref = []; suspects = []; consumed_retries = [] }

-- A text between quotes, in front of what follows.
abbrev pub quote : Bytes → Bytes → Bytes
quote s rest = b'"' ∷ (json_escape s ++ b'"' ∷ rest)

-- `if (!first) out << ","`
abbrev pub comma_unless : Bool → Bytes → Bytes
comma_unless true rest = rest
comma_unless false rest = b',' ∷ rest

-- The two loops of `serialize`, in front of what follows; the flag is `first`.
unfoldable pub suspects_text : Bool → Map Bytes → Bytes → Bytes
suspects_text first [] rest = rest
suspects_text first ((ref, kind) ∷ m) rest =
    comma_unless first (quote ref (b':' ∷ quote kind (suspects_text false m rest)))

unfoldable pub refs_text : Bool → List Bytes → Bytes → Bytes
refs_text first [] rest = rest
refs_text first (ref ∷ refs) rest = comma_unless first (quote ref (refs_text false refs rest))

unfoldable pub module_ref_text : Bytes → Bytes → Bytes
module_ref_text [] rest = rest
module_ref_text (c ∷ ref) rest = codes ",\"moduleRef\":" ++ quote (c ∷ ref) rest

unfoldable pub serialize : State → Bytes
serialize s =
    codes "{\"schema\":\"plugin-load-sentinel.v1\",\"phase\":"
    ++ quote s.phase (
        module_ref_text s.module_ref (
          codes ",\"suspects\":{"
          ++ suspects_text true s.suspects
              (codes "},\"consumedRetries\":[" ++ refs_text true s.consumed_retries (codes "]}"))))

pub record Resolution : Type 0 where
  pub suspects : Map Bytes
  pub consumed_retries : List Bytes

-- A load that did not end is attributed to its module.
unfoldable pub promote : State → Map Bytes
promote s =
    if equal s.phase loading
    then insert s.module_ref (codes "crash") s.suspects
    else if equal s.phase deadline_exceeded
    then insert s.module_ref (codes "hang") s.suspects
    else s.suspects

-- The loop over the manifest's retries.
unfoldable pub grant : State → List Bytes → Resolution → Resolution
grant s [] out = out
grant s (ref ∷ retry) out = grant s retry (record {
  suspects = if member ref s.consumed_retries then out.suspects else erase ref out.suspects;
  consumed_retries = add ref out.consumed_retries;
})

abbrev pub suspects_overflow : Bytes
suspects_overflow = codes "invalid --plugin-load-sentinel: suspects-overflow"

unfoldable pub resolve : State → List Bytes → Result Resolution
resolve s retry =
    if ltb max_suspects (length (promote s))
    then err suspects_overflow
    else ok (grant s retry (record { suspects = promote s; consumed_retries = [] }))

-- The states that the host writes from then on: at the launch and behind the load phase, before each
-- attempt, and by the watchdog.
abbrev pub at_rest : Resolution → State
at_rest r = record {
  phase = idle;
  module_ref = [];
  suspects = r.suspects;
  consumed_retries = r.consumed_retries;
}

abbrev pub attempting : Resolution → Bytes → State
attempting r ref = record (at_rest r) { phase = loading; module_ref = ref }

abbrev pub timed_out : Resolution → Bytes → State
timed_out r ref = record (at_rest r) { phase = deadline_exceeded; module_ref = ref }

-- ===== src/Tests/Sentinel.antt =====
-- The theorems on the sentinel at concrete states.
use streammate_studio_host.Prelude.{
  ◌≤◌, ◌≡◌, refl, inl, inr, arith, none, some, [], ◌∷◌, if◌then◌else◌, Bytes, codes, equal, length,
  after_prefix,
}
use streammate_studio_host.Prelude.Ordered.{lookup, insert, erase, add, member, less}
use streammate_studio_host.Prelude.Result.{ok}
use streammate_studio_host.Json.Escape.{json_escape, escape_byte}
use streammate_studio_host.Manifest.{is_module_ref}
use streammate_studio_host.Sentinel.{
  State, Resolution, serialize, resolve, promote, grant, at_rest, attempting, timed_out, timed_out,
  loading, suspects_text, refs_text, module_ref_text, max_sentinel_bytes,
}
use streammate_studio_host.Sentinel.Parse.{parse, written, load_or_throw, is_kind, is_phase}
use streammate_studio_host.Sentinel.WellFormed.{IsRef, IsWellFormed}
use streammate_studio_host.Sentinel.RoundTrip.{parse-serialize, load-serialize}
use streammate_studio_host.Sentinel.Resolve.{is_granted, recorded, resolve_lem, resolve_twice}
use streammate_studio_host.Sentinel.Keeps.{resolve-IsWellFormed}

abbrev obs_foo : Bytes
obs_foo = codes "module:foo"

abbrev obs_goo : Bytes
obs_goo = codes "module:goo"

-- A run that ended in the load of `foo`, with `goo` suspected from before.
abbrev interrupted : State
interrupted = record {
  phase = loading;
  module_ref = obs_foo;
  suspects = (obs_goo, codes "hang") ∷ [];
  consumed_retries = obs_goo ∷ [];
}

abbrev resumed : Resolution
resumed = record { suspects = (obs_foo, codes "crash") ∷ []; consumed_retries = obs_goo ∷ [] }

abbrev goo_resumed : State
goo_resumed = record {
  phase = codes "idle";
  module_ref = [];
  suspects = (obs_foo, codes "crash") ∷ (obs_goo, codes "hang") ∷ [];
  consumed_retries = [];
}

obs_foo-IsRef : IsRef obs_foo
unfolding is_module_ref after_prefix
obs_foo-IsRef = (refl, omega arith)

obs_goo-IsRef : IsRef obs_goo
unfolding is_module_ref after_prefix
obs_goo-IsRef = (refl, omega arith)

interrupted-IsWellFormed : IsWellFormed interrupted
unfolding is_phase is_kind equal
interrupted-IsWellFormed = record {
  phase = refl;
  module_ref = inr obs_foo-IsRef;
  attributed = λ e. ground arith;
  suspects = ((obs_goo-IsRef, refl), tt);
  suspects_order = (tt, tt);
  suspects_bound = omega arith;
  retries = (obs_goo-IsRef, tt);
  retries_order = (tt, tt);
}

-- `goo` is retried for the first time; the load of `foo` is held against it.
goo_is_granted : resolve goo_resumed (obs_goo ∷ []) ≡ ok resumed
unfolding resolve promote grant insert erase add member equal
goo_is_granted = refl

interrupted_resolves :
    resolve (attempting resumed obs_goo) (obs_goo ∷ [])
    ≡ ok (record {
      suspects = (obs_foo, codes "crash") ∷ (obs_goo, codes "crash") ∷ [];
      consumed_retries = obs_goo ∷ [];
    })
unfolding resolve promote grant insert erase add member equal less
interrupted_resolves = refl

parse-serialize_example : parse (serialize interrupted) ≡ ok interrupted
parse-serialize_example = parse-serialize interrupted interrupted-IsWellFormed

interrupted_fits : length (serialize interrupted) ≤ max_sentinel_bytes
unfolding serialize suspects_text refs_text module_ref_text json_escape escape_byte
interrupted_fits = omega arith

load-serialize_example : load_or_throw (written (serialize interrupted)) ≡ ok interrupted
load-serialize_example = load-serialize interrupted interrupted-IsWellFormed interrupted_fits

resolve_lem_example :
    (lookup obs_goo resumed.suspects ≡ (
      if is_granted goo_resumed (obs_goo ∷ []) obs_goo then none else recorded goo_resumed obs_goo))
    × (member obs_goo resumed.consumed_retries ≡ member obs_goo (obs_goo ∷ []))
resolve_lem_example = resolve_lem goo_resumed (obs_goo ∷ []) obs_goo goo_is_granted

hang_resolves :
    resolve (timed_out resumed obs_goo) (obs_goo ∷ [])
    ≡ ok (record {
      suspects = (obs_foo, codes "crash") ∷ (obs_goo, codes "hang") ∷ [];
      consumed_retries = obs_goo ∷ [];
    })
unfolding resolve promote grant insert erase add member equal less
hang_resolves = refl

resolve_twice_example :
    (lookup obs_goo ((obs_foo, codes "crash") ∷ (obs_goo, codes "crash") ∷ [])
      ≡ some (codes "crash"))
    × (lookup obs_goo ((obs_foo, codes "crash") ∷ (obs_goo, codes "hang") ∷ [])
        ≡ some (codes "hang"))
resolve_twice_example =
    resolve_twice goo_resumed (obs_goo ∷ []) obs_goo goo_is_granted interrupted_resolves
      hang_resolves

goo_resumed-IsWellFormed : IsWellFormed goo_resumed
unfolding is_phase is_kind equal less
goo_resumed-IsWellFormed = record {
  phase = refl;
  module_ref = inl refl;
  attributed = λ e. refl;
  suspects = ((obs_foo-IsRef, refl), ((obs_goo-IsRef, refl), tt));
  suspects_order = ((refl, tt), (tt, tt));
  suspects_bound = omega arith;
  retries = tt;
  retries_order = tt;
}

resolve-IsWellFormed_example :
    IsWellFormed (at_rest resumed)
    × IsWellFormed (attempting resumed obs_foo)
    × IsWellFormed (timed_out resumed obs_foo)
resolve-IsWellFormed_example =
    resolve-IsWellFormed goo_resumed (obs_goo ∷ []) obs_foo goo_resumed-IsWellFormed
      (obs_goo-IsRef, tt) obs_foo-IsRef goo_is_granted

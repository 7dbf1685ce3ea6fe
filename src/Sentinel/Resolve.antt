-- ===== src/Sentinel/Resolve.antt =====
-- What `resolve` makes of the sentinel that the last run left behind.
use streammate_studio_host.Prelude.{
  ◌≤◌, ◌≡◌, refl, arith, Bool, not, ◌&&◌, ◌||◌, Option, none, some, List, [], ◌∷◌, if◌then◌else◌,
  Bytes, codes, equal, equal_iff, length,
}
use streammate_studio_host.Prelude.Ordered.{lookup, erase, add, member}
use streammate_studio_host.Prelude.Ordered.Laws.{lookup-insert, lookup-erase, member-add}
use streammate_studio_host.Prelude.Result.{ok}
use streammate_studio_host.Sentinel.{
  State, Resolution, attempting, timed_out, promote, grant, resolve, loading, deadline_exceeded,
  max_suspects,
}

-- A grant is open for a module that the manifest retries and that has not had its attempt.
abbrev pub is_granted : State → List Bytes → Bytes → Bool
is_granted s retry ref = member ref retry && not (member ref s.consumed_retries)

lookup-grant :
    (s : State) (retry : List Bytes) (out : Resolution) (ref : Bytes)
    → lookup ref (grant s retry out).suspects
      ≡ (if is_granted s retry ref then none else lookup ref out.suspects)
unfolding grant member
lookup-grant s [] out ref = refl
lookup-grant s (r ∷ retry) out ref = ground (
  arith,
  equal_iff r ref,
  lookup-erase r ref out.suspects,
  lookup-grant s retry
      (record {
        suspects = if member r s.consumed_retries then out.suspects else erase r out.suspects;
        consumed_retries = add r out.consumed_retries;
      })
      ref,
)

member-grant :
    (s : State) (retry : List Bytes) (out : Resolution) (ref : Bytes)
    → member ref (grant s retry out).consumed_retries
      ≡ (member ref retry || member ref out.consumed_retries)
unfolding grant member
member-grant s [] out ref = refl
member-grant s (r ∷ retry) out ref = ground (
  arith,
  member-add r ref out.consumed_retries,
  member-grant s retry
      (record {
        suspects = if member r s.consumed_retries then out.suspects else erase r out.suspects;
        consumed_retries = add r out.consumed_retries;
      })
      ref,
)

-- What the file says of a module: the load that did not end, or else the durable record.
abbrev pub recorded : State → Bytes → Option Bytes
recorded s ref =
    if equal s.module_ref ref && equal s.phase loading
    then some (codes "crash")
    else if equal s.module_ref ref && equal s.phase deadline_exceeded
    then some (codes "hang")
    else lookup ref s.suspects

lookup-promote : (s : State) (ref : Bytes) → lookup ref (promote s) ≡ recorded s ref
unfolding promote
lookup-promote s ref = ground (
  arith,
  lookup-insert s.module_ref ref (codes "crash") s.suspects,
  lookup-insert s.module_ref ref (codes "hang") s.suspects,
  equal_iff s.phase loading,
  equal_iff s.phase deadline_exceeded,
)

abbrev start : State → Resolution
start s = record { suspects = promote s; consumed_retries = [] }

pub resolve-eq-ok :
    (s : State) (retry : List Bytes) {r : Resolution}
    → resolve s retry ≡ ok r
    → (r ≡ grant s retry (start s)) × (length (promote s) ≤ max_suspects)
unfolding resolve
resolve-eq-ok s retry h = ground arith

-- A launch that goes on suspects exactly the modules that the file records, less those with an open
-- grant, and notes exactly the manifest's retries as used.
pub resolve_lem :
    (s : State) (retry : List Bytes) {r : Resolution} (ref : Bytes)
    → resolve s retry ≡ ok r
    → (lookup ref r.suspects ≡ (if is_granted s retry ref then none else recorded s ref))
      × (member ref r.consumed_retries ≡ member ref retry)
unfolding member
resolve_lem s retry {r} ref h =
    let e = (resolve-eq-ok s retry h).0 in
    (
      rw (e, lookup-grant s retry (start s) ref, lookup-promote s ref),
      rw (e, member-grant s retry (start s) ref) (ground arith),
    )

-- A grant is good for one attempt: if the attempt of any module does not end, be it by a crash or by a
-- hang that the watchdog ends, the next launch with the same manifest suspects that module, as a crash
-- or as a hang, whether or not the manifest retries it.
pub resolve_twice :
    (s : State) (retry : List Bytes) {r r' r'' : Resolution} (ref : Bytes)
    → resolve s retry ≡ ok r
    → resolve (attempting r ref) retry ≡ ok r'
    → resolve (timed_out r ref) retry ≡ ok r''
    → (lookup ref r'.suspects ≡ some (codes "crash"))
      × (lookup ref r''.suspects ≡ some (codes "hang"))
resolve_twice s retry {r} {r'} {r''} ref h h' h'' =
    let (_, used) = resolve_lem s retry ref h in
    let (crashed, _) = resolve_lem (attempting r ref) retry ref h' in
    let (hung, _) = resolve_lem (timed_out r ref) retry ref h'' in
    (
      ground (arith, crashed, used, equal_iff ref ref, equal_iff loading loading),
      ground (
        arith,
        hung,
        used,
        equal_iff ref ref,
        equal_iff deadline_exceeded loading,
        equal_iff deadline_exceeded deadline_exceeded,
      ),
    )

-- ===== src/Sentinel/Parse.antt =====
-- `plugin_sentinel::load_or_throw` of src/studio_host.cpp. A failure is the code behind the prefix
-- of the message; `load_or_throw` puts the prefix in front. Loops take fuel, one unit a round.
use streammate_studio_host.Prelude.{
  is_empty, ℕ, zero, suc, Bool, true, false, not, ◌&&◌, ◌||◌, Option, none, some, List, [], ◌++◌,
  ltb, leb, if◌then◌else◌, Bytes, codes, equal, length,
}
use streammate_studio_host.Prelude.Ordered.{insert, add, member}
use streammate_studio_host.Prelude.Result.{Result, ok, err, ◌>>=◌, ◌>>◌, guard}
use streammate_studio_host.Scanner.{consume, string, eof}
use streammate_studio_host.Manifest.{is_module_ref, expect, require}
use streammate_studio_host.Sentinel.{
  max_sentinel_bytes, max_suspects, schema, idle, loading, deadline_exceeded, State, fresh,
}

abbrev pub malformed : Bytes
malformed = codes "malformed-sentinel"

-- The variables of the loop over the keys.
pub record Reading : Type 0 where
  pub state : State
  pub saw_schema : Bool
  pub saw_phase : Bool
  pub seen : List Bytes

unfoldable pub is_phase : Bytes → Bool
is_phase p = equal p idle || equal p loading || equal p deadline_exceeded

unfoldable pub is_kind : Bytes → Bool
is_kind k = equal k (codes "crash") || equal k (codes "hang")

-- A string that must pass a test.
unfoldable pub checked_string : (Bytes → Bool) → Bytes → Result (Bytes × Bytes)
unfolding require
checked_string test t = do
  (value, t) ← require (string t) malformed
  guard (test value) malformed
  ok (value, t)

unfoldable pub suspects_loop : ℕ → Bytes → List Bytes → State → Result (State × Bytes)
unfolding expect checked_string
suspects_loop zero t seen s = err malformed
suspects_loop (suc fuel) t seen s = do
  (ref, t) ← checked_string is_module_ref t
  guard (not (member ref seen)) malformed
  t ← expect b':' malformed t
  (kind, t) ← checked_string is_kind t
  guard (not (leb max_suspects (length s.suspects))) (codes "suspects-overflow")
  let s' = record s { suspects = insert ref kind s.suspects }
  let comma = consume b',' t
  let more = suspects_loop fuel comma.1 (add ref seen) s'
  let last = (do t ← expect b'}' malformed comma.1; ok (s', t))
  if comma.0 then more else last

unfoldable pub retries_loop : ℕ → Bytes → State → Result (State × Bytes)
unfolding expect checked_string
retries_loop zero t s = err malformed
retries_loop (suc fuel) t s = do
  (ref, t) ← checked_string is_module_ref t
  guard (not (member ref s.consumed_retries)) malformed
  let s' = record s { consumed_retries = add ref s.consumed_retries }
  let comma = consume b',' t
  let more = retries_loop fuel comma.1 s'
  let last = (do t ← expect b']' malformed comma.1; ok (s', t))
  if comma.0 then more else last

unfoldable pub parse_suspects : Bytes → State → Result (State × Bytes)
unfolding expect
parse_suspects t s = do
  t ← expect b'{' malformed t
  let empty = consume b'}' t
  if empty.0 then ok (s, empty.1) else suspects_loop (suc (length empty.1)) empty.1 [] s

unfoldable pub parse_retries : Bytes → State → Result (State × Bytes)
unfolding expect
parse_retries t s = do
  t ← expect b'[' malformed t
  let empty = consume b']' t
  if empty.0 then ok (s, empty.1) else retries_loop (suc (length empty.1)) empty.1 s

unfoldable pub field : Bytes → Bytes → Reading → Result (Reading × Bytes)
unfolding checked_string
field key t r =
    if equal key (codes "schema")
    then (do
      (value, t) ← checked_string (λ v. equal v schema) t
      ok (record r { saw_schema = true }, t))
    else if equal key (codes "phase")
    then (do
      (value, t) ← checked_string is_phase t
      ok (record r { state = record r.state { phase = value }; saw_phase = true }, t))
    else if equal key (codes "moduleRef")
    then (do
      (value, t) ← checked_string is_module_ref t
      ok (record r { state = record r.state { module_ref = value } }, t))
    else if equal key (codes "suspects")
    then (do (s, t) ← parse_suspects t r.state; ok (record r { state = s }, t))
    else if equal key (codes "consumedRetries")
    then (do (s, t) ← parse_retries t r.state; ok (record r { state = s }, t))
    else err malformed

unfoldable pub fields_loop : ℕ → Bytes → Reading → Result (Reading × Bytes)
unfolding expect require
fields_loop zero t r = err malformed
fields_loop (suc fuel) t r = do
  (key, t) ← require (string t) malformed
  guard (not (member key r.seen)) malformed
  t ← expect b':' malformed t
  (r, t) ← field key t (record r { seen = add key r.seen })
  let comma = consume b',' t
  let more = fields_loop fuel comma.1 r
  let last = (do t ← expect b'}' malformed comma.1; ok (r, t))
  if comma.0 then more else last

abbrev pub unread : Reading
unread = record { state = fresh; saw_schema = false; saw_phase = false; seen = [] }

-- The object up to its closing brace.
unfoldable pub parse_fields : Bytes → Result (Reading × Bytes)
parse_fields t = do
  t ← expect b'{' malformed t
  let empty = consume b'}' t
  if empty.0 then ok (unread, empty.1) else fields_loop (suc (length empty.1)) empty.1 unread

-- The checks behind the object.
unfoldable pub finish : Reading → Bytes → Result State
finish r t = do
  guard (eof t) malformed
  guard (r.saw_schema && r.saw_phase) malformed
  guard (equal r.state.phase idle || not (is_empty r.state.module_ref)) malformed
  ok r.state

-- The text of the file.
unfoldable pub parse : Bytes → Result State
parse t = do (r, t) ← parse_fields t; finish r t

-- What the file system answers: `exists` and `file_size` (`none` for an error), whether the stream
-- opens, and the bytes read from it.
pub record SentinelFile : Type 0 where
  pub present : Option Bool
  pub size : Option ℕ
  pub opens : Bool
  pub text : Bytes

-- The file system's answers for a file that holds `text`.
abbrev pub written : Bytes → SentinelFile
written text = record { present = some true; size = some (length text); opens = true; text = text }

with_prefix : Bytes → Bytes
with_prefix code = codes "invalid --plugin-load-sentinel: " ++ code

unfoldable pub load_text : Bytes → Result State
load_text text =
    if ltb max_sentinel_bytes (length text) then err (codes "sentinel-too-large") else parse text

load_present : SentinelFile → Result State
unfolding load_text
load_present f = elim f.size [
  | none ↦ err (codes "unreadable-file")
  | some n ↦
      (if ltb max_sentinel_bytes n
        then err (codes "sentinel-too-large")
        else if f.opens
        then load_text f.text
        else err (codes "unreadable-file"))
]

load : SentinelFile → Result State
unfolding load_present
load f = elim f.present [
  | none ↦ err (codes "unreadable-file")
  | some false ↦ ok fresh
  | some true ↦ load_present f
]

unfoldable pub load_or_throw : SentinelFile → Result State
unfolding load with_prefix
load_or_throw f = elim (load f) [ ok s ↦ ok s | err code ↦ err (with_prefix code) ]

-- ===== src/Manifest.antt =====
-- The user plugins' manifest (`user_plugins` of src/studio_host.cpp): `Root`, `Manifest`, the tests
-- on paths and references, and the arrays of `parse_manifest_text`, whose top is in Manifest/Parse.
-- A failure is the reason code that the code's `fail` returns. Each `while (true)` is a function of
-- its own on fuel, one unit more than the bytes of the text that is left.
pub mod Parse
pub mod Checks
pub mod Sound
use streammate_studio_host.Prelude.{
  is_empty, ℕ, zero, suc, Bool, true, false, not, ◌&&◌, ◌||◌, Option, none, some, List, [], ◌∷◌,
  ◌++◌, ◌==◌, ltb, if◌then◌else◌, Bytes, codes, equal, after_prefix, length,
}
use streammate_studio_host.Prelude.Int.{ℤ, equals}
use streammate_studio_host.Prelude.Result.{Result, ok, err, ◌>>=◌, ◌>>◌, guard}
use streammate_studio_host.Scanner.{consume, literal, string, eof}
use streammate_studio_host.Scanner.Number.{integer}
use streammate_studio_host.Scanner.Value.{skip_value}

pub record Root : Type 0 where
  pub binary_dir : Bytes
  pub data_dir : Bytes

pub record Manifest : Type 0 where
  pub roots : List Root
  pub has_selected : Bool
  pub selected : List Bytes
  pub exclude : List Bytes
  pub retry : List Bytes

abbrev pub malformed_json : Bytes
malformed_json = codes "malformed-json"

abbrev pub duplicate_key : Bytes
duplicate_key = codes "duplicate-key"

abbrev pub unsupported_version : Bytes
unsupported_version = codes "unsupported-version"

abbrev pub invalid_roots : Bytes
invalid_roots = codes "invalid-roots"

abbrev pub invalid_selected : Bytes
invalid_selected = codes "invalid-selected"

abbrev pub invalid_exclude : Bytes
invalid_exclude = codes "invalid-exclude"

abbrev pub invalid_retry : Bytes
invalid_retry = codes "invalid-retry"

-- `std::filesystem::path::is_absolute` where paths are POSIX paths.
unfoldable pub is_absolute_manifest_path : Bytes → Bool
is_absolute_manifest_path [] = false
is_absolute_manifest_path (c ∷ path) = c == b'/'

-- More than the prefix `module:`.
unfoldable pub is_module_ref : Bytes → Bool
unfolding after_prefix
is_module_ref value = elim (after_prefix (codes "module:") value) [
  | some (c ∷ name) ↦ true
  | _ ↦ false
]

unfoldable pub contains : List Bytes → Bytes → Bool
contains [] key = false
contains (k ∷ ks) key = equal k key || contains ks key

-- `if (!scan.consume(c)) return fail(code);`
unfoldable pub expect : ℕ → Bytes → Bytes → Result Bytes
expect c code t = let found = consume c t in if found.0 then ok found.1 else err code

-- `if (!value) return fail(code);`
unfoldable pub require {ℓ} : {A : Type ℓ} → Option A → Bytes → Result A
require none code = err code
require (some a) code = ok a

-- The rounds of an array of module references.
unfoldable pub refs_loop : ℕ → Bytes → Bytes → List Bytes → Result (List Bytes × Bytes)
unfolding expect require
refs_loop zero code t refs = err malformed_json
refs_loop (suc fuel) code t refs = do
  (value, t) ← require (string t) code
  guard (is_module_ref value) code
  let comma = consume b',' t
  let more = refs_loop fuel code comma.1 (refs ++ value ∷ [])
  let last = (do t ← expect b']' malformed_json comma.1; ok (refs ++ value ∷ [], t))
  if comma.0 then more else last

unfoldable pub parse_refs : Bytes → Bytes → List Bytes → Result (List Bytes × Bytes)
unfolding refs_loop expect
parse_refs code t refs = do
  t ← expect b'[' code t
  let empty = consume b']' t
  if empty.0 then ok (refs, empty.1) else refs_loop (suc (length empty.1)) code empty.1 refs

-- What the loop over one root's keys has read.
pub record RootKeys : Type 0 where
  pub root : Root
  pub saw_binary_dir : Bool
  pub seen : List Bytes

data_dir_value : Bytes → Result (Bytes × Bytes)
unfolding require
data_dir_value t =
    let null = literal (codes "null") t in
    if null.0 then ok ([], null.1) else require (string null.1) invalid_roots

unfoldable pub root_value : Bytes → Bytes → RootKeys → Result (RootKeys × Bytes)
unfolding data_dir_value require
root_value key t r =
    if equal key (codes "binaryDir")
    then (do
      (value, t) ← require (string t) invalid_roots
      ok (
        record r {
          root = record { binary_dir = value; data_dir = r.root.data_dir };
          saw_binary_dir = true;
        },
        t,
      ))
    else if equal key (codes "dataDir")
    then (do
      (value, t) ← data_dir_value t
      ok (record r { root = record { binary_dir = r.root.binary_dir; data_dir = value } }, t))
    else (do t ← require (skip_value t) malformed_json; ok (r, t))

unfoldable pub root_loop : ℕ → Bytes → RootKeys → Result (RootKeys × Bytes)
unfolding expect require
root_loop zero t r = err malformed_json
root_loop (suc fuel) t r = do
  (key, t) ← require (string t) malformed_json
  guard (not (contains r.seen key)) duplicate_key
  t ← expect b':' malformed_json t
  (r, t) ← root_value key t (record r { seen = key ∷ r.seen })
  let comma = consume b',' t
  let more = root_loop fuel comma.1 r
  let last = (do t ← expect b'}' malformed_json comma.1; ok (r, t))
  if comma.0 then more else last

abbrev fresh_root : RootKeys
fresh_root = record {
  root = record { binary_dir = []; data_dir = [] };
  saw_binary_dir = false;
  seen = [];
}

unfoldable pub parse_root : Bytes → Result (Root × Bytes)
unfolding root_loop expect
parse_root t = do
  t ← expect b'{' invalid_roots t
  let empty = consume b'}' t
  (r, t) ←
      if empty.0
      then ok (fresh_root, empty.1)
      else root_loop (suc (length empty.1)) empty.1 fresh_root
  guard r.saw_binary_dir invalid_roots
  ok (r.root, t)

unfoldable pub roots_loop : ℕ → Bytes → List Root → Result (List Root × Bytes)
unfolding expect
roots_loop zero t roots = err malformed_json
roots_loop (suc fuel) t roots = do
  (root, t) ← parse_root t
  let comma = consume b',' t
  let more = roots_loop fuel comma.1 (roots ++ root ∷ [])
  let last = (do t ← expect b']' malformed_json comma.1; ok (roots ++ root ∷ [], t))
  if comma.0 then more else last

unfoldable pub parse_roots : Bytes → List Root → Result (List Root × Bytes)
unfolding roots_loop expect
parse_roots t roots = do
  t ← expect b'[' invalid_roots t
  let empty = consume b']' t
  if empty.0 then ok (roots, empty.1) else roots_loop (suc (length empty.1)) empty.1 roots

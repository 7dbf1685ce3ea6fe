-- ===== src/Manifest/Parse.antt =====
-- `parse_manifest_text` (src/studio_host.cpp): the manifest's keys and the checks behind them.
use streammate_studio_host.Prelude.{
  is_empty, ℕ, zero, suc, Bool, true, false, not, ◌&&◌, ◌||◌, Option, none, some, List, [], ◌∷◌,
  if◌then◌else◌, Bytes, codes, equal, length,
}
use streammate_studio_host.Prelude.Int.{ℤ, equals}
use streammate_studio_host.Prelude.Result.{Result, ok, err, ◌>>=◌, ◌>>◌, guard}
use streammate_studio_host.Scanner.{consume, literal, string, eof}
use streammate_studio_host.Scanner.Number.{integer}
use streammate_studio_host.Scanner.Value.{skip_value}
use streammate_studio_host.Manifest.{
  Root, Manifest, malformed_json, duplicate_key, unsupported_version, invalid_roots,
  invalid_selected, invalid_exclude, invalid_retry, is_absolute_manifest_path, contains, expect,
  require, parse_refs, parse_roots,
}

-- The variables of the loop over the manifest's keys.
pub record Progress : Type 0 where
  pub manifest : Manifest
  pub saw_version : Bool
  pub version_ok : Bool
  pub saw_roots : Bool
  pub seen_keys : List Bytes

-- Whether the version is the integer 1; any other well-formed value is skipped.
unfoldable pub version_of : Option ℤ → Bytes → Result (Bool × Bytes)
unfolding require
version_of (some n) t = ok (equals n 1, t)
version_of none t = do t ← require (skip_value t) malformed_json; ok (false, t)

unfoldable pub version_value : Bytes → Result (Bool × Bytes)
unfolding version_of
version_value t = let v = integer t in version_of v.0 v.1

unfoldable pub selected_value : Bytes → Manifest → Result (Manifest × Bytes)
selected_value t m =
    let null = literal (codes "null") t in
    if null.0 then ok (record m { has_selected = false; selected = [] }, null.1) else (do
      (refs, t) ← parse_refs invalid_selected null.1 m.selected
      ok (record m { has_selected = true; selected = refs }, t))

unfoldable pub key_value : Bytes → Bytes → Progress → Result (Progress × Bytes)
unfolding version_value selected_value require
key_value key t p =
    if equal key (codes "version")
    then (do
      (good, t) ← version_value t
      ok (record p { saw_version = true; version_ok = good }, t))
    else if equal key (codes "roots")
    then (do
      (roots, t) ← parse_roots t p.manifest.roots
      ok (record p { saw_roots = true; manifest = record p.manifest { roots = roots } }, t))
    else if equal key (codes "selected")
    then (do (m, t) ← selected_value t p.manifest; ok (record p { manifest = m }, t))
    else if equal key (codes "exclude")
    then (do
      (refs, t) ← parse_refs invalid_exclude t p.manifest.exclude
      ok (record p { manifest = record p.manifest { exclude = refs } }, t))
    else if equal key (codes "retry")
    then (do
      (refs, t) ← parse_refs invalid_retry t p.manifest.retry
      ok (record p { manifest = record p.manifest { retry = refs } }, t))
    else (do t ← require (skip_value t) malformed_json; ok (p, t))

unfoldable pub keys_loop : ℕ → Bytes → Progress → Result (Progress × Bytes)
unfolding expect require
keys_loop zero t p = err malformed_json
keys_loop (suc fuel) t p = do
  (key, t) ← require (string t) malformed_json
  guard (not (contains p.seen_keys key)) duplicate_key
  t ← expect b':' malformed_json t
  (p, t) ← key_value key t (record p { seen_keys = key ∷ p.seen_keys })
  let comma = consume b',' t
  let more = keys_loop fuel comma.1 p
  let last = (do t ← expect b'}' malformed_json comma.1; ok (p, t))
  if comma.0 then more else last

abbrev pub no_keys : Progress
no_keys = record {
  manifest = record { roots = []; has_selected = false; selected = []; exclude = []; retry = [] };
  saw_version = false;
  version_ok = false;
  saw_roots = false;
  seen_keys = [];
}

unfoldable pub root_is_absolute : Root → Bool
root_is_absolute root =
    is_absolute_manifest_path root.binary_dir
    && (is_empty root.data_dir || is_absolute_manifest_path root.data_dir)

unfoldable pub all_absolute : List Root → Bool
unfolding root_is_absolute
all_absolute [] = true
all_absolute (root ∷ roots) = root_is_absolute root && all_absolute roots

unfoldable pub parse_manifest_text : Bytes → Result Manifest
unfolding keys_loop expect
parse_manifest_text t = do
  t ← expect b'{' malformed_json t
  let empty = consume b'}' t
  (p, t) ←
      if empty.0 then ok (no_keys, empty.1) else keys_loop (suc (length empty.1)) empty.1 no_keys
  guard (eof t) malformed_json
  guard (p.saw_version && p.version_ok) unsupported_version
  guard p.saw_roots invalid_roots
  guard (all_absolute p.manifest.roots) invalid_roots
  ok p.manifest

-- ===== src/Manifest/Sound.antt =====
-- What `parse_manifest_text` accepts, and how it fails.
use streammate_studio_host.Prelude.{
  is_empty, ℕ, zero, suc, true, not, ◌&&◌, ◌||◌, Option, none, some, List, [], ◌∷◌, ◌≡◌, refl, ◌⊎◌,
  inl, inr, arith, Bytes, codes, All, equal, length,
}
use streammate_studio_host.Prelude.Int.{ℤ}
use streammate_studio_host.Prelude.Result.{guard, Post, Post-bind, Post-if, Post-guard}
use streammate_studio_host.Scanner.{consume, literal, string, eof}
use streammate_studio_host.Scanner.Number.{integer}
use streammate_studio_host.Scanner.Value.{skip_value}
use streammate_studio_host.Manifest.{
  Root, Manifest, is_absolute_manifest_path, contains, expect, require, parse_refs, is_empty,
  parse_roots,
}
use streammate_studio_host.Manifest.Parse.{
  root_is_absolute, all_absolute, Progress, version_of, version_value, selected_value, key_value,
  keys_loop, no_keys, parse_manifest_text,
}
use streammate_studio_host.Manifest.Checks.{
  IsReason, malformed_json, duplicate_key, unsupported_version, invalid_roots, invalid_selected,
  invalid_exclude, invalid_retry, IsModuleRef, IsAbsolute, IsSafeRoot, HasRefs, IsSafeManifest,
  Checked, Anything, step, expect-Checked, require-Checked, guard-Checked, parse_refs-Checked,
  parse_roots-Checked,
}

version_of-Checked : (v : Option ℤ) (t : Bytes) → Checked Anything (version_of v t)
unfolding version_of
version_of-Checked (some n) t = tt
version_of-Checked none t =
    step _ (require (skip_value t) _) _ (require-Checked (skip_value t) _ malformed_json) λ _. tt

selected_value-Checked :
    (t : Bytes) (m : Manifest) → HasRefs m → Checked (λ r. HasRefs r.0) (selected_value t m)
unfolding selected_value
selected_value-Checked t m h =
    let null = literal (codes "null") t in
    Post-if IsReason _ null.0 _ _
      (record { selected = tt; exclude = h.exclude; retry = h.retry; unselected = λ _. refl })
      (Post-bind IsReason (λ r. All IsModuleRef r.0) _ (parse_refs _ null.1 m.selected) _
        (parse_refs-Checked _ null.1 m.selected invalid_selected h.selected)
        λ r a. record { selected = a; exclude = h.exclude; retry = h.retry; unselected = λ e. cc })

key_value-Checked :
    (key t : Bytes) (p : Progress)
    → HasRefs p.manifest
    → Checked (λ r. HasRefs r.0.manifest) (key_value key t p)
unfolding key_value version_value
key_value-Checked key t p h =
    let m = p.manifest in
    Post-if IsReason _ (equal key (codes "version")) _ _
      (step _ (version_of (integer t).0 (integer t).1) _ (version_of-Checked _ _) λ _. h)
      (Post-if IsReason _ (equal key (codes "roots")) _ _
        (step _ (parse_roots t m.roots) _ (parse_roots-Checked t m.roots) λ _. record {
          selected = h.selected;
          exclude = h.exclude;
          retry = h.retry;
          unselected = h.unselected;
        })
        (Post-if IsReason _ (equal key (codes "selected")) _ _
          (Post-bind IsReason (λ r. HasRefs r.0) _ (selected_value t m) _
            (selected_value-Checked t m h) λ r h'. h')
          (Post-if IsReason _ (equal key (codes "exclude")) _ _
            (Post-bind IsReason (λ r. All IsModuleRef r.0) _ (parse_refs _ t m.exclude) _
              (parse_refs-Checked _ t m.exclude invalid_exclude h.exclude)
              λ r a. record {
                selected = h.selected;
                exclude = a;
                retry = h.retry;
                unselected = h.unselected;
              })
            (Post-if IsReason _ (equal key (codes "retry")) _ _
              (Post-bind IsReason (λ r. All IsModuleRef r.0) _ (parse_refs _ t m.retry) _
                (parse_refs-Checked _ t m.retry invalid_retry h.retry)
                λ r a. record {
                  selected = h.selected;
                  exclude = h.exclude;
                  retry = a;
                  unselected = h.unselected;
                })
              (step _ (require (skip_value t) _) _ (require-Checked (skip_value t) _ malformed_json)
                λ _. h)))))

keys_loop-Checked :
    (fuel : ℕ) (t : Bytes) (p : Progress)
    → HasRefs p.manifest
    → Checked (λ r. HasRefs r.0.manifest) (keys_loop fuel t p)
unfolding keys_loop
keys_loop-Checked zero t p h = malformed_json
keys_loop-Checked (suc fuel) t p h =
    step _ (require (string t) _) _ (require-Checked (string t) _ malformed_json) λ k.
      step _ (guard (not (contains p.seen_keys k.0)) _) _ (guard-Checked _ _ duplicate_key) λ _.
        step _ (expect b':' _ k.1) _ (expect-Checked b':' _ k.1 malformed_json) λ t1.
          let p' = record p { seen_keys = k.0 ∷ p.seen_keys } in
          Post-bind IsReason (λ r. HasRefs r.0.manifest) _ (key_value k.0 t1 p') _
            (key_value-Checked k.0 t1 p' h)
            λ v h'.
              let comma = consume b',' v.1 in
              Post-if IsReason _ comma.0 _ _ (keys_loop-Checked fuel comma.1 v.0 h') (
                step _ (expect b'}' _ comma.1) _ (expect-Checked b'}' _ comma.1 malformed_json)
                  λ _. h')

is_absolute_manifest_path-IsAbsolute :
    (path : Bytes) → is_absolute_manifest_path path ≡ true → IsAbsolute path
unfolding is_absolute_manifest_path
is_absolute_manifest_path-IsAbsolute [] h = cc
is_absolute_manifest_path-IsAbsolute (c ∷ path) h = (path, ground arith)

empty_or_IsAbsolute :
    (path : Bytes)
    → (is_empty path || is_absolute_manifest_path path) ≡ true
    → (path ≡ []) ⊎ IsAbsolute path
empty_or_IsAbsolute [] h = inl refl
empty_or_IsAbsolute (c ∷ path) h = inr (is_absolute_manifest_path-IsAbsolute (c ∷ path) h)

root_is_absolute-IsSafeRoot : (root : Root) → root_is_absolute root ≡ true → IsSafeRoot root
unfolding root_is_absolute
root_is_absolute-IsSafeRoot root h = record {
  binary_dir = is_absolute_manifest_path-IsAbsolute root.binary_dir (ground arith);
  data_dir = empty_or_IsAbsolute root.data_dir (ground arith);
}

all_absolute-IsSafeRoot : (roots : List Root) → all_absolute roots ≡ true → All IsSafeRoot roots
unfolding all_absolute
all_absolute-IsSafeRoot [] h = tt
all_absolute-IsSafeRoot (root ∷ roots) h =
    (root_is_absolute-IsSafeRoot root (ground arith), all_absolute-IsSafeRoot roots (ground arith))

-- A manifest that is accepted has absolute roots and well-formed module references only, and none
-- selected unless a selection is given; a refusal carries one of seven fixed reason codes.
pub parse_manifest_text-Checked :
    (text : Bytes) → Post IsSafeManifest IsReason (parse_manifest_text text)
unfolding parse_manifest_text
parse_manifest_text-Checked text =
    step _ (expect b'{' _ text) _ (expect-Checked b'{' _ text malformed_json) λ t1.
      let empty = consume b'}' t1 in
      let none_read : HasRefs no_keys.manifest = record {
        selected = tt;
        exclude = tt;
        retry = tt;
        unselected = λ _. refl;
      } in
      Post-bind IsReason (λ r. HasRefs r.0.manifest) _ _ _
        (Post-if IsReason (λ r. HasRefs r.0.manifest) empty.0 _ _ none_read
          (keys_loop-Checked (suc (length empty.1)) empty.1 no_keys none_read))
        λ r h. step _ (guard (eof r.1) _) _ (guard-Checked _ _ malformed_json) λ _.
          step _ (guard (r.0.saw_version && r.0.version_ok) _) _
            (guard-Checked _ _ unsupported_version)
            λ _. step _ (guard r.0.saw_roots _) _ (guard-Checked _ _ invalid_roots) λ _.
              Post-bind IsReason _ _ (guard (all_absolute r.0.manifest.roots) _) _
                (Post-guard IsReason _ _ invalid_roots)
                λ _ e. record {
                  roots = all_absolute-IsSafeRoot r.0.manifest.roots e;
                  selected = h.selected;
                  exclude = h.exclude;
                  retry = h.retry;
                  unselected = h.unselected;
                }

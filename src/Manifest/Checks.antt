-- ===== src/Manifest/Checks.antt =====
-- How the manifest's parser fails, and what its arrays and objects guarantee.
use streammate_studio_host.Prelude.{
  ℕ, zero, suc, Bool, true, false, not, Option, none, some, List, [], ◌∷◌, ◌++◌, ◌≡◌, refl, ◌⊎◌,
  Bytes, codes, All, All-append, after_prefix, after_prefix-eq, if◌then◌else◌, equal, length,
}
use streammate_studio_host.Prelude.Result.{
  Result, ok, err, ◌>>=◌, guard, Post, Post-bind, Post-if, Post-guard,
}
use streammate_studio_host.Scanner.{consume, literal, string}
use streammate_studio_host.Scanner.Value.{skip_value}
use streammate_studio_host.Manifest.{
  Root, Manifest, is_module_ref, contains, expect, require, RootKeys, refs_loop, parse_refs,
  root_value, root_loop, parse_root, roots_loop, parse_roots,
}

-- The reason codes that a failure may carry. None depends on the text.
pub data IsReason : Bytes → Type 0 where
  malformed_json : IsReason (codes "malformed-json")
  duplicate_key : IsReason (codes "duplicate-key")
  unsupported_version : IsReason (codes "unsupported-version")
  invalid_roots : IsReason (codes "invalid-roots")
  invalid_selected : IsReason (codes "invalid-selected")
  invalid_exclude : IsReason (codes "invalid-exclude")
  invalid_retry : IsReason (codes "invalid-retry")

abbrev pub IsModuleRef : Bytes → Type 0
IsModuleRef ref = (c : ℕ) × (name : Bytes) × (ref ≡ codes "module:" ++ c ∷ name)

abbrev pub IsAbsolute : Bytes → Type 0
IsAbsolute path = (rest : Bytes) × (path ≡ b'/' ∷ rest)

-- The binary directory is an absolute path; the data directory is one too, or none is given.
pub record IsSafeRoot (root : Root) : Type 0 where
  pub binary_dir : IsAbsolute root.binary_dir
  pub data_dir : (root.data_dir ≡ []) ⊎ IsAbsolute root.data_dir

-- What the keys read so far guarantee; the roots are checked only at the end.
pub record HasRefs (m : Manifest) : Type 0 where
  pub selected : All IsModuleRef m.selected
  pub exclude : All IsModuleRef m.exclude
  pub retry : All IsModuleRef m.retry
  pub unselected : m.has_selected ≡ false → m.selected ≡ []

pub record IsSafeManifest (m : Manifest) : Type 0 where
  pub roots : All IsSafeRoot m.roots
  pub selected : All IsModuleRef m.selected
  pub exclude : All IsModuleRef m.exclude
  pub retry : All IsModuleRef m.retry
  pub unselected : m.has_selected ≡ false → m.selected ≡ []

abbrev pub Checked {ℓ} : {A : Type ℓ} → (A → Type 0) → Result A → Type 0
Checked P r = Post P IsReason r

abbrev pub Anything {ℓ} : {A : Type ℓ} → A → Type 0
Anything a = Unit

pub is_module_ref-IsModuleRef : (ref : Bytes) → is_module_ref ref ≡ true → IsModuleRef ref
unfolding is_module_ref
is_module_ref-IsModuleRef ref h = go (after_prefix (codes "module:") ref) refl h
  where
    go :
        (o : Option Bytes)
        → after_prefix (codes "module:") ref ≡ o
        → elim o [ some (c ∷ name) ↦ true | _ ↦ false ] ≡ true
        → IsModuleRef ref
    go none e h = cc
    go (some []) e h = cc
    go (some (c ∷ name)) e h = (c, name, after_prefix-eq (codes "module:") ref e)

-- One step of a `do` block about whose value nothing is claimed.
pub step {ℓ ι} :
    {A : Type ℓ} {B : Type ι} (Q : B → Type 0) (m : Result A) (f : A → Result B)
    → Checked Anything m
    → ((a : A) → Checked Q (f a))
    → Checked Q (m >>= f)
step Q (ok a) f h k = k a
step Q (err e) f h k = h

pub expect-Checked : (c : ℕ) (code t : Bytes) → IsReason code → Checked Anything (expect c code t)
unfolding expect
expect-Checked c code t h = Post-if IsReason Anything (consume c t).0 _ _ tt h

pub require-Checked {ℓ} :
    {A : Type ℓ} (o : Option A) (code : Bytes) → IsReason code → Checked Anything (require o code)
unfolding require
require-Checked none code h = h
require-Checked (some a) code h = tt

pub guard-Checked : (b : Bool) (e : Bytes) → IsReason e → Checked Anything (guard b e)
guard-Checked true e h = tt
guard-Checked false e h = h

pub refs_loop-Checked :
    (fuel : ℕ) (code t : Bytes) (refs : List Bytes)
    → IsReason code
    → All IsModuleRef refs
    → Checked (λ r. All IsModuleRef r.0) (refs_loop fuel code t refs)
unfolding refs_loop
refs_loop-Checked zero code t refs h a = malformed_json
refs_loop-Checked (suc fuel) code t refs h a =
    Post-bind IsReason Anything _ (require (string t) code) _ (require-Checked (string t) code h)
      λ r _.
        Post-bind IsReason _ _ (guard (is_module_ref r.0) code) _ (Post-guard IsReason _ code h)
          λ _ e.
            let a' = All-append _ refs (r.0 ∷ []) a (is_module_ref-IsModuleRef r.0 e, tt) in
            let comma = consume b',' r.1 in
            Post-if IsReason _ comma.0 _ _
              (refs_loop-Checked fuel code comma.1 (refs ++ r.0 ∷ []) h a')
              (Post-bind IsReason Anything _ (expect b']' (codes "malformed-json") comma.1) _
                (expect-Checked b']' _ comma.1 malformed_json) λ _ _. a')

pub parse_refs-Checked :
    (code t : Bytes) (refs : List Bytes)
    → IsReason code
    → All IsModuleRef refs
    → Checked (λ r. All IsModuleRef r.0) (parse_refs code t refs)
unfolding parse_refs
parse_refs-Checked code t refs h a =
    step _ (expect b'[' code t) _ (expect-Checked b'[' code t h) λ t'.
      let empty = consume b']' t' in
      Post-if IsReason _ empty.0 _ _ a
        (refs_loop-Checked (suc (length empty.1)) code empty.1 refs h a)

pub root_value-Checked : (key t : Bytes) (r : RootKeys) → Checked Anything (root_value key t r)
unfolding root_value
root_value-Checked key t r =
    Post-if IsReason _ (equal key (codes "binaryDir")) _ _
      (step _ (require (string t) _) _ (require-Checked (string t) _ invalid_roots) λ _. tt)
      (Post-if IsReason _ (equal key (codes "dataDir")) _ _
        (let null = literal (codes "null") t in
          step _ (if null.0 then ok ([], null.1) else require (string null.1) _) _
            (Post-if IsReason Anything null.0 _ _ tt
              (require-Checked (string null.1) _ invalid_roots))
            λ _. tt)
        (step _ (require (skip_value t) _) _ (require-Checked (skip_value t) _ malformed_json)
          λ _. tt))

pub root_loop-Checked :
    (fuel : ℕ) (t : Bytes) (r : RootKeys) → Checked Anything (root_loop fuel t r)
unfolding root_loop
root_loop-Checked zero t r = malformed_json
root_loop-Checked (suc fuel) t r =
    step _ (require (string t) _) _ (require-Checked (string t) _ malformed_json) λ k.
      step _ (guard (not (contains r.seen k.0)) _) _ (guard-Checked _ _ duplicate_key) λ _.
        step _ (expect b':' _ k.1) _ (expect-Checked b':' _ k.1 malformed_json) λ t1.
          step _ (root_value k.0 t1 _) _ (root_value-Checked k.0 t1 _) λ v.
            let comma = consume b',' v.1 in
            Post-if IsReason _ comma.0 _ _ (root_loop-Checked fuel comma.1 v.0) (
              step _ (expect b'}' _ comma.1) _ (expect-Checked b'}' _ comma.1 malformed_json)
                λ _. tt)

pub parse_root-Checked : (t : Bytes) → Checked Anything (parse_root t)
unfolding parse_root
parse_root-Checked t = step _ (expect b'{' _ t) _ (expect-Checked b'{' _ t invalid_roots) λ t1.
    let empty = consume b'}' t1 in
    step _ _ _
      (Post-if IsReason Anything empty.0 _ _ tt
        (root_loop-Checked (suc (length empty.1)) empty.1 _))
      λ r. step _ (guard r.0.saw_binary_dir _) _ (guard-Checked _ _ invalid_roots) λ _. tt

pub roots_loop-Checked :
    (fuel : ℕ) (t : Bytes) (roots : List Root) → Checked Anything (roots_loop fuel t roots)
unfolding roots_loop
roots_loop-Checked zero t roots = malformed_json
roots_loop-Checked (suc fuel) t roots = step _ (parse_root t) _ (parse_root-Checked t) λ r.
    let comma = consume b',' r.1 in
    Post-if IsReason _ comma.0 _ _ (roots_loop-Checked fuel comma.1 (roots ++ r.0 ∷ []))
      (step _ (expect b']' _ comma.1) _ (expect-Checked b']' _ comma.1 malformed_json) λ _. tt)

pub parse_roots-Checked : (t : Bytes) (roots : List Root) → Checked Anything (parse_roots t roots)
unfolding parse_roots
parse_roots-Checked t roots =
    step _ (expect b'[' _ t) _ (expect-Checked b'[' _ t invalid_roots) λ t1.
      let empty = consume b']' t1 in
      Post-if IsReason _ empty.0 _ _ tt (roots_loop-Checked (suc (length empty.1)) empty.1 roots)

-- ===== src/Prelude/Ordered/Laws.antt =====
-- The laws of ordered maps and sets.
use mathlib.Core.Path.{◌≡◌, refl}
use mathlib.Core.Bool.{true, false}
use mathlib.Core.Option.{none, some}
use mathlib.Core.List.{List, [], ◌∷◌, ◌++◌}
use native.Mathlib.Omega.{arith}
use streammate_studio_host.Prelude.Tests.{if◌then◌else◌}
use streammate_studio_host.Prelude.Lists.{All, All-append}
use streammate_studio_host.Prelude.Text.{Bytes, equal, equal_iff}
use streammate_studio_host.Prelude.Ordered.{less, Map, insert, lookup, erase, add, member}

pub less_irrefl : (a : Bytes) → less a a ≡ false
unfolding less
less_irrefl [] = refl
less_irrefl (x ∷ a) = ground (arith, less_irrefl a)

pub less_asymm : (a b : Bytes) → less a b ≡ true → less b a ≡ false
unfolding less
less_asymm [] [] h = cc
less_asymm [] (y ∷ b) h = refl
less_asymm (x ∷ a) [] h = cc
less_asymm (x ∷ a) (y ∷ b) h = ground (arith, less_asymm a b)

pub less_trans : (a b c : Bytes) → less a b ≡ true → less b c ≡ true → less a c ≡ true
unfolding less
less_trans (x ∷ a) (y ∷ b) (z ∷ c) h k = ground (arith, less_trans a b c)
less_trans _ _ _ h k = ground arith

pub less_total : (a b : Bytes) → less a b ≡ false → less b a ≡ false → a ≡ b
unfolding less
less_total (x ∷ a) (y ∷ b) h k = ground (arith, less_total a b)
less_total _ _ h k = ground arith

-- Both tests fail exactly at the same key.
pub less-equal : (a b : Bytes) → less a b ≡ true → equal a b ≡ false
less-equal a b h = ground (arith, equal_iff a b, less_irrefl a, less_irrefl b)

module _ {V : Type 0} where
  pub lookup-insert :
      (k j : Bytes) (v : V) (m : Map V)
      → lookup j (insert k v m) ≡ (if equal k j then some v else lookup j m)
  unfolding lookup insert
  lookup-insert k j v [] = refl
  lookup-insert k j v ((i, w) ∷ m) =
      ground
        (arith, equal_iff k j, equal_iff i k, equal_iff i j, less_total k i, lookup-insert k j v m)

  pub lookup-erase :
      (k j : Bytes) (m : Map V) → lookup j (erase k m) ≡ (if equal k j then none else lookup j m)
  unfolding lookup erase
  lookup-erase k j [] = ground arith
  lookup-erase k j ((i, w) ∷ m) =
      ground (arith, equal_iff k j, equal_iff i k, equal_iff i j, lookup-erase k j m)

pub member-add :
    (k j : Bytes) (s : List Bytes) → member j (add k s) ≡ (if equal k j then true else member j s)
unfolding member add
member-add k j [] = refl
member-add k j (i ∷ s) =
    ground (arith, equal_iff k j, equal_iff i k, equal_iff i j, less_total k i, member-add k j s)

-- Every one of the keys comes before `k`.
abbrev pub AllBefore : List Bytes → Bytes → Type 0
AllBefore s k = All (λ j. less j k ≡ true) s

pub add_last : (k : Bytes) (s : List Bytes) → AllBefore s k → add k s ≡ s ++ k ∷ []
unfolding add
add_last k [] h = refl
add_last k (j ∷ s) (hj, h) = ground (arith, less_asymm j k hj, add_last k s h)

pub member_fresh : (k : Bytes) (s : List Bytes) → AllBefore s k → member k s ≡ false
unfolding member
member_fresh k [] h = refl
member_fresh k (j ∷ s) (hj, h) = ground (arith, less-equal j k hj, member_fresh k s h)

module _ {V : Type 0} where
  abbrev pub keys : Map V → List Bytes
  keys [] = []
  keys ((k, v) ∷ m) = k ∷ keys m

  pub keys-append : (m n : Map V) → keys (m ++ n) ≡ keys m ++ keys n
  keys-append [] n = refl
  keys-append (e ∷ m) n = rw (keys-append m n)

  pub insert_last :
      (k : Bytes) (v : V) (m : Map V) → AllBefore (keys m) k → insert k v m ≡ m ++ (k, v) ∷ []
  unfolding insert
  insert_last k v [] h = refl
  insert_last k v ((j, w) ∷ m) (hj, h) = ground (arith, less_asymm j k hj, insert_last k v m h)

-- The keys ascend behind those of `done`.
abbrev pub Follows : List Bytes → List Bytes → Type 0
Follows done [] = Unit
Follows done (k ∷ ks) = AllBefore done k × Follows (done ++ k ∷ []) ks

-- The order of a `std::map` or a `std::set`: strictly ascending keys.
abbrev pub Ascending : List Bytes → Type 0
Ascending [] = Unit
Ascending (k ∷ ks) = All (λ j. less k j ≡ true) ks × Ascending ks

AllBefore-append :
    (done : List Bytes) (k : Bytes) (ks : List Bytes)
    → All (AllBefore done) ks
    → All (λ j. less k j ≡ true) ks
    → All (AllBefore (done ++ k ∷ [])) ks
AllBefore-append done k [] h g = tt
AllBefore-append done k (j ∷ ks) (h, hs) (g, gs) =
    (All-append (λ i. less i j ≡ true) done (k ∷ []) h (g, tt), AllBefore-append done k ks hs gs)

Follows-behind : (done ks : List Bytes) → All (AllBefore done) ks → Ascending ks → Follows done ks
Follows-behind done [] h a = tt
Follows-behind done (k ∷ ks) (hk, h) (g, a) =
    (hk, Follows-behind (done ++ k ∷ []) ks (AllBefore-append done k ks h g) a)

AllBefore-nil : (ks : List Bytes) → All (AllBefore []) ks
AllBefore-nil [] = tt
AllBefore-nil (k ∷ ks) = (tt, AllBefore-nil ks)

pub Ascending-Follows : (ks : List Bytes) → Ascending ks → Follows [] ks
Ascending-Follows ks a = Follows-behind [] ks (AllBefore-nil ks) a

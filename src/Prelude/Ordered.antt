-- ===== src/Prelude/Ordered.antt =====
-- `std::map<std::string, V>` and `std::set<std::string>`: lists in the order of their keys, which is
-- the order of `std::string`, byte by byte.
pub mod Laws
pub mod Order
pub mod Restore
use Prim.Native.Nat.{ℕ, suc}
use mathlib.Core.Bool.{Bool, true, false}
use mathlib.Core.Option.{Option, none, some}
use mathlib.Core.List.{List, [], ◌∷◌}
use streammate_studio_host.Prelude.Tests.{ltb, if◌then◌else◌}
use streammate_studio_host.Prelude.Text.{Bytes, equal}

unfoldable pub less : Bytes → Bytes → Bool
less [] [] = false
less [] (y ∷ ys) = true
less (x ∷ xs) [] = false
less (x ∷ xs) (y ∷ ys) = if ltb x y then true else if ltb y x then false else less xs ys

abbrev pub Map : Type 0 → Type 0
Map V = List (Bytes × V)

module _ {V : Type 0} where
  -- `m[k] = v`
  unfoldable pub insert : Bytes → V → Map V → Map V
  insert k v [] = (k, v) ∷ []
  insert k v ((j, w) ∷ m) =
      let behind = insert k v m in
      if less k j then (k, v) ∷ (j, w) ∷ m else if less j k then (j, w) ∷ behind else (j, v) ∷ m

  -- `m.find(k)`
  unfoldable pub lookup : Bytes → Map V → Option V
  lookup k [] = none
  lookup k ((j, w) ∷ m) = if equal j k then some w else lookup k m

  -- `m.erase(k)`
  unfoldable pub erase : Bytes → Map V → Map V
  erase k [] = []
  erase k ((j, w) ∷ m) = let behind = erase k m in if equal j k then behind else (j, w) ∷ behind

-- `s.insert(k)` on a set
unfoldable pub add : Bytes → List Bytes → List Bytes
add k [] = k ∷ []
add k (j ∷ s) =
    let behind = add k s in if less k j then k ∷ j ∷ s else if less j k then j ∷ behind else j ∷ s

-- `s.count(k) != 0`
unfoldable pub member : Bytes → List Bytes → Bool
member k [] = false
member k (j ∷ s) = if equal j k then true else member k s

-- ===== src/Prelude/Ordered/Order.antt =====
-- The operations of ordered maps and sets keep the order of the keys, and bound the size.
use Prim.Native.Nat.{◌≤◌}
use mathlib.Core.Path.{◌≡◌}
use mathlib.Core.Bool.{true}
use mathlib.Core.List.{List, [], ◌∷◌}
use mathlib.Core.Logic.{inl, inr}
use native.Mathlib.Omega.{arith}
use streammate_studio_host.Prelude.Tests.{Bool-cases}
use streammate_studio_host.Prelude.Lists.{All, length}
use streammate_studio_host.Prelude.Text.{Bytes, equal}
use streammate_studio_host.Prelude.Ordered.{less, Map, insert, erase, add}
use streammate_studio_host.Prelude.Ordered.Laws.{less_trans, keys, Ascending}

abbrev pub Above : Bytes → List Bytes → Type 0
Above k ks = All (λ j. less k j ≡ true) ks

pub Above-trans : (i k : Bytes) (ks : List Bytes) → less i k ≡ true → Above k ks → Above i ks
Above-trans i k [] h a = tt
Above-trans i k (j ∷ ks) h (aj, a) = (less_trans i k j h aj, Above-trans i k ks h a)

Above-add : (i k : Bytes) (s : List Bytes) → less i k ≡ true → Above i s → Above i (add k s)
unfolding add
Above-add i k [] h a = (h, tt)
Above-add i k (j ∷ s) h (aj, a) = ground (arith, Above-add i k s h a)

pub add-Ascending : (k : Bytes) (s : List Bytes) → Ascending s → Ascending (add k s)
unfolding add
add-Ascending k [] a = (tt, tt)
add-Ascending k (j ∷ s) (up, a) = elim (Bool-cases (less k j)) [
  | inl lt ↦ rw lt ((lt, Above-trans k j s lt up), (up, a))
  | inr ge ↦ rw ge (elim (Bool-cases (less j k)) [
    | inl gt ↦ rw gt (Above-add j k s gt up, add-Ascending k s a)
    | inr eq ↦ rw eq (up, a)
  ])
]

module _ {V : Type 0} where
  Above-insert :
      (i k : Bytes) (v : V) (m : Map V)
      → less i k ≡ true
      → Above i (keys m)
      → Above i (keys (insert k v m))
  unfolding insert
  Above-insert i k v [] h a = (h, tt)
  Above-insert i k v ((j, w) ∷ m) h (aj, a) = ground (arith, Above-insert i k v m h a)

  pub insert-Ascending :
      (k : Bytes) (v : V) (m : Map V) → Ascending (keys m) → Ascending (keys (insert k v m))
  unfolding insert
  insert-Ascending k v [] a = (tt, tt)
  insert-Ascending k v ((j, w) ∷ m) (up, a) = elim (Bool-cases (less k j)) [
    | inl lt ↦ rw lt ((lt, Above-trans k j (keys m) lt up), (up, a))
    | inr ge ↦ rw ge (elim (Bool-cases (less j k)) [
      | inl gt ↦ rw gt (Above-insert j k v m gt up, insert-Ascending k v m a)
      | inr eq ↦ rw eq (up, a)
    ])
  ]

  Above-erase : (i k : Bytes) (m : Map V) → Above i (keys m) → Above i (keys (erase k m))
  unfolding erase
  Above-erase i k [] a = tt
  Above-erase i k ((j, w) ∷ m) (aj, a) = ground (arith, Above-erase i k m a)

  pub erase-Ascending : (k : Bytes) (m : Map V) → Ascending (keys m) → Ascending (keys (erase k m))
  unfolding erase
  erase-Ascending k [] a = tt
  erase-Ascending k ((j, w) ∷ m) (up, a) = elim (Bool-cases (equal j k)) [
    | inl e ↦ rw e (erase-Ascending k m a)
    | inr n ↦ rw n (Above-erase j k m up, erase-Ascending k m a)
  ]

  pub length-erase : (k : Bytes) (m : Map V) → length (erase k m) ≤ length m
  unfolding erase
  length-erase k [] = omega arith
  length-erase k ((j, w) ∷ m) = ground (arith, length-erase k m)

  module _ (P : Bytes × V → Type 0) where
    pub All-insert :
        (k : Bytes) (v : V) (m : Map V)
        → P (k, v)
        → All P m
        → ((j : Bytes) (w : V) → P (j, w) → P (j, v))
        → All P (insert k v m)
    unfolding insert
    All-insert k v [] h a f = (h, tt)
    All-insert k v ((j, w) ∷ m) h (aj, a) f = elim (Bool-cases (less k j)) [
      | inl lt ↦ rw lt (h, (aj, a))
      | inr ge ↦ rw ge (elim (Bool-cases (less j k)) [
        | inl gt ↦ rw gt (aj, All-insert k v m h a f)
        | inr eq ↦ rw eq (f j w aj, a)
      ])
    ]

    pub All-erase : (k : Bytes) (m : Map V) → All P m → All P (erase k m)
    unfolding erase
    All-erase k [] a = tt
    All-erase k ((j, w) ∷ m) (aj, a) = elim (Bool-cases (equal j k)) [
      | inl e ↦ rw e (All-erase k m a)
      | inr n ↦ rw n (aj, All-erase k m a)
    ]

pub All-add : (P : Bytes → Type 0) (k : Bytes) (s : List Bytes) → P k → All P s → All P (add k s)
unfolding add
All-add P k [] h a = (h, tt)
All-add P k (j ∷ s) h (aj, a) = elim (Bool-cases (less k j)) [
  | inl lt ↦ rw lt (h, (aj, a))
  | inr ge ↦ rw ge (elim (Bool-cases (less j k)) [
    | inl gt ↦ rw gt (aj, All-add P k s h a)
    | inr eq ↦ rw eq (aj, a)
  ])
]

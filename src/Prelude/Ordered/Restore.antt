-- ===== src/Prelude/Ordered/Restore.antt =====
-- An insertion that is undone, and what holds of all entries.
use mathlib.Core.Path.{◌≡◌, refl, ◌∙◌, sym, ap, subst}
use mathlib.Core.Bool.{true}
use mathlib.Core.Option.{none, some}
use mathlib.Core.List.{List, [], ◌∷◌}
use native.Mathlib.Omega.{arith}
use streammate_studio_host.Prelude.Tests.{if◌then◌else◌, if_holds}
use streammate_studio_host.Prelude.Lists.{All}
use streammate_studio_host.Prelude.Text.{Bytes, equal, equal_iff, is_some}
use streammate_studio_host.Prelude.Ordered.{less, Map, insert, lookup, erase, add}
use streammate_studio_host.Prelude.Ordered.Order.{Above, Above-trans}
use streammate_studio_host.Prelude.Ordered.Laws.{
  less_irrefl, less_asymm, less_total, lookup-insert, keys, Ascending,
}

module _ {V : Type 0} where
  pub insert-insert : (k : Bytes) (v w : V) (m : Map V) → insert k v (insert k w m) ≡ insert k v m
  unfolding insert
  insert-insert k v w [] = ground (arith, less_irrefl k)
  insert-insert k v w ((j, u) ∷ m) = ground (arith, less_irrefl k, insert-insert k v w m)

  -- Nothing is found under a key that comes before all others.
  lookup-Above : (k : Bytes) (m : Map V) → Above k (keys m) → lookup k m ≡ none
  unfolding lookup
  lookup-Above k [] h = refl
  lookup-Above k ((j, u) ∷ m) (hj, h) =
      ground (arith, less_irrefl k, equal_iff j k, lookup-Above k m h)

  pub insert_same :
      (k : Bytes) (v : V) (m : Map V) → Ascending (keys m) → lookup k m ≡ some v → insert k v m ≡ m
  unfolding lookup insert
  insert_same k v [] a h = cc
  insert_same k v ((j, u) ∷ m) (up, a) h =
      let before = λ (b : less k j ≡ true). lookup-Above k m (Above-trans k j (keys m) b up) in
      ground (
        arith,
        less_irrefl k,
        equal_iff j k,
        less_asymm k j,
        less_total k j,
        before,
        insert_same k v m a,
      )

  pub erase_absent : (k : Bytes) (m : Map V) → lookup k m ≡ none → erase k m ≡ m
  unfolding lookup erase
  erase_absent k [] h = refl
  erase_absent k ((j, u) ∷ m) h = ground (arith, erase_absent k m)

  pub erase-insert :
      (k : Bytes) (v : V) (m : Map V) → lookup k m ≡ none → erase k (insert k v m) ≡ m
  unfolding lookup erase insert
  erase-insert k v [] h = ground (arith, equal_iff k k)
  erase-insert k v ((j, u) ∷ m) h =
      ground
        (arith, equal_iff k k, equal_iff j k, less_total k j, erase_absent k m, erase-insert k v m)

  pub insert-All :
      (P : Bytes × V → Type 0) (k : Bytes) (v : V) (m : Map V)
      → P (k, v)
      → All P m
      → All P (insert k v m)
  unfolding insert
  insert-All P k v [] h a = (h, tt)
  insert-All P k v ((j, u) ∷ m) h (aj, a) =
      if_holds (All P) (less k j) (λ e. (h, (aj, a)))
        λ before.
          if_holds (All P) (less j k) (λ e. (aj, insert-All P k v m h a))
            λ behind. (subst (λ i. P (i, v)) (less_total k j before behind) h, a)

  pub keys-insert : (k : Bytes) (v : V) (m : Map V) → keys (insert k v m) ≡ add k (keys m)
  unfolding insert add
  keys-insert k v [] = refl
  keys-insert k v ((j, u) ∷ m) = ground (arith, keys-insert k v m)

  pub keys-insert_same :
      (k : Bytes) (v w : V) (m : Map V)
      → Ascending (keys m)
      → lookup k m ≡ some v
      → keys (insert k w m) ≡ keys m
  keys-insert_same k v w m a h =
      keys-insert k w m ∙ sym (keys-insert k v m) ∙ ap keys (insert_same k v m a h)

  -- A key that is present stays present.
  pub lookup-insert_some :
      (k j : Bytes) (v : V) (m : Map V)
      → is_some (lookup j m) ≡ true
      → is_some (lookup j (insert k v m)) ≡ true
  unfolding is_some
  lookup-insert_some k j v m h = ground (arith, lookup-insert k j v m)

-- Maps with the same keys keep the same keys.
pub keys-insert_both :
    {V W : Type 0} (k : Bytes) (v : V) (w : W) (m : Map V) (n : Map W)
    → keys m ≡ keys n
    → keys (insert k v m) ≡ keys (insert k w n)
keys-insert_both k v w m n e = rw (keys-insert k v m, keys-insert k w n, e)

erased : Bytes → List Bytes → List Bytes
erased k [] = []
erased k (j ∷ s) = let behind = erased k s in if equal j k then behind else j ∷ behind

keys-erase : {V : Type 0} (k : Bytes) (m : Map V) → keys (erase k m) ≡ erased k (keys m)
unfolding erase erased
keys-erase k [] = refl
keys-erase k ((j, u) ∷ m) = ground (arith, keys-erase k m)

pub keys-erase_both :
    {V W : Type 0} (k : Bytes) (m : Map V) (n : Map W)
    → keys m ≡ keys n
    → keys (erase k m) ≡ keys (erase k n)
keys-erase_both k m n e = rw (keys-erase k m, keys-erase k n, e)

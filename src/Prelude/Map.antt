-- ===== src/Prelude/Map.antt =====
-- std::map as an association list. The order of the keys is not kept: nothing in the code that is
-- modelled depends on it.
use mathlib.Core.Path.{◌≡◌, refl}
use mathlib.Core.List.{List, [], ◌∷◌}
use mathlib.Core.Option.{Option, none, some}
use native.Mathlib.Omega.{arith}
use cpp_toolkit.Prelude.Tests.{Eq, ◌==◌, if◌then◌else◌}

module _ {ℓ κ} {K : Type ℓ} {V : Type κ} ⦃e : Eq K⦄ where
  unfoldable pub find : K → List (K × V) → Option V
  find k [] = none
  find k ((j, v) ∷ m) = if j == k then some v else find k m

  -- map[k] = v: an entry is replaced, a missing one added.
  unfoldable pub assign : K → V → List (K × V) → List (K × V)
  assign k v [] = (k, v) ∷ []
  assign k v ((j, w) ∷ m) = if j == k then (j, v) ∷ m else (j, w) ∷ assign k v m

  -- std::map::insert: a present entry is kept.
  unfoldable pub insert : K → V → List (K × V) → List (K × V)
  insert k v m = elim (find k m) [ none ↦ assign k v m | some w ↦ m ]

  unfoldable pub erase : K → List (K × V) → List (K × V)
  erase k [] = []
  erase k ((j, w) ∷ m) = let rest = erase k m in if j == k then rest else (j, w) ∷ rest

  pub find-assign :
      (k j : K) (v : V) (m : List (K × V))
      → find j (assign k v m) ≡ (if k == j then some v else find j m)
  unfolding find assign
  find-assign k j v [] = refl
  find-assign k j v ((i, w) ∷ m) =
      ground (arith, e.beq_iff k j, e.beq_iff i k, e.beq_iff i j, find-assign k j v m)

  pub insert_new :
      (k : K) (v : V) (m : List (K × V)) → find k m ≡ none → insert k v m ≡ assign k v m
  unfolding insert
  insert_new k v m h = rw (insert, h) refl

  pub find-erase :
      (k j : K) (m : List (K × V)) → find j (erase k m) ≡ (if k == j then none else find j m)
  unfolding find erase
  find-erase k j [] = ground arith
  find-erase k j ((i, w) ∷ m) =
      ground (arith, e.beq_iff k j, e.beq_iff i k, e.beq_iff i j, find-erase k j m)

  pub assign-assign :
      (k : K) (v w : V) (m : List (K × V)) → assign k v (assign k w m) ≡ assign k v m
  unfolding assign
  assign-assign k v w [] = ground (arith, e.beq_iff k k)
  assign-assign k v w ((i, x) ∷ m) = ground (arith, e.beq_iff i k, assign-assign k v w m)

  pub assign_found : (k : K) (v : V) (m : List (K × V)) → find k m ≡ some v → assign k v m ≡ m
  unfolding find assign
  assign_found k v [] h = ground arith
  assign_found k v ((i, w) ∷ m) h = ground (arith, assign_found k v m)

  pub find-assign_same : (k : K) (v : V) (m : List (K × V)) → find k (assign k v m) ≡ some v
  unfolding find assign
  find-assign_same k v m = ground (arith, e.beq_iff k k, find-assign k k v m)

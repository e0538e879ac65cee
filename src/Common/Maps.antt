-- ===== src/Common/Maps.antt =====
-- std::map and std::unordered_map with keys uint64_t, as association lists with ascending keys.
use Prim.Native.Nat.{ℕ, suc, ◌+◌, ◌≤◌, ◌<◌}
use mathlib.Core.Path.{◌≡◌, refl}
use mathlib.Core.Bool.{Bool, not, ◌&&◌, ◌||◌}
use mathlib.Core.Option.{Option, none, some}
use mathlib.Core.List.{List, [], ◌∷◌}
use native.Mathlib.Omega.{arith}
use ghostdagsim.Common.Tests.{ltb, ◌==◌, if◌then◌else◌, is_some}
use ghostdagsim.Common.Lists.{contains, length, Ascends, Ascends-mono}

abbrev pub Map {ℓ} : Type ℓ → Type ℓ
Map V = List (ℕ × V)

module _ {ℓ} {V : Type ℓ} where
  unfoldable pub find : ℕ → Map V → Option V
  find k [] = none
  find k ((j, v) ∷ m) = if k == j then some v else find k m

  -- `m[k] = v`
  unfoldable pub assign : ℕ → V → Map V → Map V
  assign k v [] = (k, v) ∷ []
  assign k v ((j, w) ∷ m) =
      if ltb k j
      then (k, v) ∷ (j, w) ∷ m
      else (if k == j then (k, v) ∷ m else (j, w) ∷ assign k v m)

  unfoldable pub erase : ℕ → Map V → Map V
  erase k [] = []
  erase k ((j, w) ∷ m) = let rest = erase k m in if k == j then rest else (j, w) ∷ rest

  -- `m.count(k)`, as a test
  abbrev pub has : ℕ → Map V → Bool
  has k m = is_some (find k m)

  -- `m.at(k)`; `d` stands for the exception
  abbrev pub at : V → ℕ → Map V → V
  at d k m = elim (find k m) [ none ↦ d | some v ↦ v ]

  abbrev pub keys : Map V → List ℕ
  keys [] = []
  keys ((k, v) ∷ m) = k ∷ keys m

  pub find-assign :
      (j k : ℕ) (v : V) (m : Map V) → find j (assign k v m) ≡ (if j == k then some v else find j m)
  unfolding find assign
  find-assign j k v [] = refl
  find-assign j k v ((i, w) ∷ m) = ground (arith, find-assign j k v m)

  pub find-erase : (j k : ℕ) (m : Map V) → find j (erase k m) ≡ (if j == k then none else find j m)
  unfolding find erase
  find-erase j k [] = ground arith
  find-erase j k ((i, w) ∷ m) = ground (arith, find-erase j k m)

  pub has-assign : (j k : ℕ) (v : V) (m : Map V) → has j (assign k v m) ≡ ((j == k) || has j m)
  has-assign j k v m = ground (arith, find-assign j k v m)

  pub has-erase : (j k : ℕ) (m : Map V) → has j (erase k m) ≡ (not (j == k) && has j m)
  has-erase j k m = ground (arith, find-erase j k m)

  pub length-erase-le : (k : ℕ) (m : Map V) → length (erase k m) ≤ length m
  unfolding erase
  length-erase-le k [] = omega arith
  length-erase-le k ((i, w) ∷ m) = ground (arith, length-erase-le k m)

  -- Erasing a key that is there makes the map smaller.
  pub length-erase-lt :
      (k : ℕ) (v : V) (m : Map V) → find k m ≡ some v → length (erase k m) < length m
  unfolding find erase
  length-erase-lt k v [] h = cc
  length-erase-lt k v ((i, w) ∷ m) h = ground (arith, length-erase-le k m, length-erase-lt k v m)

  pub length-assign-le : (k : ℕ) (v : V) (m : Map V) → length (assign k v m) ≤ length m + 1
  unfolding assign
  length-assign-le k v [] = omega arith
  length-assign-le k v ((i, w) ∷ m) = ground (arith, length-assign-le k v m)

  pub contains-keys : (k : ℕ) (m : Map V) → contains k (keys m) ≡ has k m
  unfolding find
  contains-keys k [] = refl
  contains-keys k ((i, w) ∷ m) = ground (arith, contains-keys k m)

  pub assign-Ascends :
      (n k : ℕ) (v : V) (m : Map V) → n ≤ k → Ascends n (keys m) → Ascends n (keys (assign k v m))
  unfolding assign
  assign-Ascends n k v [] h a = (h, tt)
  assign-Ascends n k v ((i, w) ∷ m) h a = ground (arith, assign-Ascends (suc i) k v m)

  pub erase-Ascends : (n k : ℕ) (m : Map V) → Ascends n (keys m) → Ascends n (keys (erase k m))
  unfolding erase
  erase-Ascends n k [] a = tt
  erase-Ascends n k ((i, w) ∷ m) a =
      ground (arith, erase-Ascends (suc i) k m, Ascends-mono n (suc i) (keys (erase k m)))

  -- A key below all others is not there.
  pub find_below : (k n : ℕ) (m : Map V) → Ascends n (keys m) → k < n → find k m ≡ none
  unfolding find
  find_below k n [] a h = refl
  find_below k n ((j, b) ∷ m) a h = ground (arith, find_below k (suc j) m a.1)

-- ===== src/Chain/Cluster.antt =====
-- IsKCluster and IsKClusterSubset of dag.cc.
pub mod Bound
use ghostdagsim.Common.{
  ℕ, ◌+◌, Bool, true, false, not, ◌&&◌, List, [], ◌∷◌, none, some, if◌then◌else◌, foldl, ltb, ◌==◌,
}
use ghostdagsim.Common.Maps.{find, has}
use ghostdagsim.Common.Sets.{insert}
use ghostdagsim.BitSet.{test}
use ghostdagsim.Chain.State.{Blockchain, past_at}

-- The loop over `x`: `i` is the index of `b`, `ac` the count so far.
pub bounded : Blockchain → ℕ → ℕ → ℕ → List ℕ → Bool
bounded c b i ac [] = true
bounded c b i ac (x ∷ xs) =
    let same = bounded c b i ac xs in
    let next = bounded c b i (ac + 1) xs in
    if x == b then same else elim (find x c.idx_of) [
      | none ↦ false
      | some j ↦
          if not (test (past_at c i) j) && not (test (past_at c j) i)
          then (if ltb c.ghostdag_k (ac + 1) then false else next)
          else same
    ]

-- The loop over `b`.
pub all_bounded : Blockchain → List ℕ → List ℕ → Bool
unfolding bounded
all_bounded c blue_set [] = true
all_bounded c blue_set (b ∷ bs) =
    let rest = all_bounded c blue_set bs in
    elim (find b c.idx_of) [
      | none ↦ false
      | some i ↦ if bounded c b i 0 blue_set then rest else false
    ]

pub is_k_cluster : Blockchain → List ℕ → Bool
unfolding all_bounded
is_k_cluster c blue_set = all_bounded c blue_set blue_set

pub is_k_cluster_subset : Blockchain → List ℕ → Bool
unfolding is_k_cluster insert
is_k_cluster_subset c blue_set =
    is_k_cluster c (foldl (λ out b. if has b c.blocks then insert b out else out) [] blue_set)

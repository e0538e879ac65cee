-- ===== src/Chain/Cluster/Bound.antt =====
-- IsKCluster bounds the anticone of every block of the set, within the set.
use ghostdagsim.Common.{
  ℕ, ◌+◌, ◌≤◌, ◌≡◌, Bool, true, false, not, ◌&&◌, List, [], ◌∷◌, arith, ltb, leb, ◌==◌, count_if,
  all_of, Bool-cases, Option-cases, inl, inr,
}
use ghostdagsim.Common.Maps.{find, has}
use ghostdagsim.Chain.State.{Blockchain, index_at}
use ghostdagsim.Chain.Add.Anticone.{apart}
use ghostdagsim.Chain.Cluster.{bounded, all_bounded, is_k_cluster}

abbrev pub accepted : Blockchain → ℕ → Bool
accepted c x = has x c.idx_of

-- The other blocks that are in the anticone of `b`.
abbrev pub beside : Blockchain → ℕ → ℕ → Bool
beside c b x = not (x == b) && apart c (index_at c b) (index_at c x)

-- The walk stops early only above k.
bounded-count :
    (c : Blockchain) (b i ac : ℕ) (xs : List ℕ)
    → index_at c b ≡ i
    → ac ≤ c.ghostdag_k
    → all_of (accepted c) xs ≡ true
    → bounded c b i ac xs ≡ leb (ac + count_if (beside c b) xs) c.ghostdag_k
unfolding bounded
bounded-count c b i ac [] e h known = ground arith
bounded-count c b i ac (x ∷ xs) e h known = elim (Option-cases (find x c.idx_of)) [
  | inl missing ↦ ground arith
  | inr (j, found) ↦ elim (Bool-cases (ltb c.ghostdag_k (ac + 1))) [
    | inl over ↦ ground (arith, bounded-count c b i ac xs e h (ground arith))
    | inr within ↦ ground (
      arith,
      bounded-count c b i ac xs e h (ground arith),
      bounded-count c b i (ac + 1) xs e (ground arith) (ground arith),
    )
  ]
]

all_bounded-count :
    (c : Blockchain) (s bs : List ℕ)
    → all_of (accepted c) s ≡ true
    → all_of (accepted c) bs ≡ true
    → all_bounded c s bs ≡ all_of (λ b. leb (count_if (beside c b) s) c.ghostdag_k) bs
unfolding all_bounded
all_bounded-count c s [] known h = ground arith
all_bounded-count c s (b ∷ bs) known h = elim (Option-cases (find b c.idx_of)) [
  | inl missing ↦ ground arith
  | inr (i, found) ↦ ground (
    arith,
    bounded-count c b i 0 s (ground arith) (omega arith) known,
    all_bounded-count c s bs known (ground arith),
  )
]

all_bounded-missing :
    (c : Blockchain) (s bs : List ℕ) → all_of (accepted c) bs ≡ false → all_bounded c s bs ≡ false
unfolding all_bounded
all_bounded-missing c s [] h = ground arith
all_bounded-missing c s (b ∷ bs) h = elim (Option-cases (find b c.idx_of)) [
  | inl missing ↦ ground arith
  | inr (i, found) ↦ ground (arith, all_bounded-missing c s bs (ground arith))
]

-- IsKCluster answers true exactly of a set whose blocks all are accepted and have, each of them, at
-- most k other blocks of the set in their anticone.
pub is_k_cluster_lem :
    (c : Blockchain) (s : List ℕ)
    → is_k_cluster c s
      ≡ (all_of (accepted c) s && all_of (λ b. leb (count_if (beside c b) s) c.ghostdag_k) s)
unfolding is_k_cluster
is_k_cluster_lem c s = elim (Bool-cases (all_of (accepted c) s)) [
  | inl known ↦ ground (arith, all_bounded-count c s s known known)
  | inr missing ↦ ground (arith, all_bounded-missing c s s missing)
]

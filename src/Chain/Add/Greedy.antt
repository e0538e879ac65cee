-- ===== src/Chain/Add/Greedy.antt =====
-- The greedy pass over the merge set: what it adds to the selected parent's blue set.
use ghostdagsim.Common.{
  ℕ, ◌≡◌, ap, ◌∙◌, true, not, ◌&&◌, List, [], ◌∷◌, arith, ◌==◌, leb, foldl, Bool-cases,
  Option-cases, inl, inr,
}
use ghostdagsim.Common.Maps.{find}
use ghostdagsim.BitSet.{BitSet, test, and_not}
use ghostdagsim.BitSet.Update.{
  IsBitSet, test-set_bit, test-reset, test-and_not, set_bit-IsBitSet, reset-IsBitSet,
  and_not-IsBitSet,
}
use ghostdagsim.Chain.State.{Blockchain, index_at, past_at, blue_at}
use ghostdagsim.Chain.Sort.{topological_sort, in_subset}
use ghostdagsim.Chain.Sort.Inside.{AreIn}
use ghostdagsim.Chain.Add.{consider, merge_set, greedy_blue_set, anticone_blues}

-- A blue set grows only by blocks that are considered.
consider-inside :
    (c : Blockchain) (past merge blue : BitSet) (cand j : ℕ)
    → ((i : ℕ) → test merge i ≡ true → test past i ≡ true)
    → in_subset c merge cand ≡ true
    → (test blue j ≡ true → test past j ≡ true)
    → test (consider c blue cand) j ≡ true
    → test past j ≡ true
unfolding consider
consider-inside c past merge blue cand j sub known h t = elim (Option-cases (find cand c.idx_of)) [
  | inl e ↦ ground arith
  | inr (i, e) ↦ ground (arith, sub i, test-set_bit blue i j, sub j)
]

consider-IsBitSet :
    (c : Blockchain) (blue : BitSet) (cand : ℕ) → IsBitSet blue → IsBitSet (consider c blue cand)
unfolding consider
consider-IsBitSet c blue cand h =
    elim (Bool-cases (leb (anticone_blues c blue (index_at c cand)) c.ghostdag_k)) [
      | inl e ↦ rw e (set_bit-IsBitSet blue (index_at c cand) h)
      | inr e ↦ rw e h
    ]

pub consider_all-inside :
    (c : Blockchain) (past merge : BitSet) (cands : List ℕ) (blue : BitSet)
    → ((i : ℕ) → test merge i ≡ true → test past i ≡ true)
    → AreIn (in_subset c merge) cands
    → ((j : ℕ) → test blue j ≡ true → test past j ≡ true)
    → (j : ℕ) → test (foldl (consider c) blue cands) j ≡ true
    → test past j ≡ true
consider_all-inside c past merge [] blue sub are h = h
consider_all-inside c past merge (cand ∷ cands) blue sub are h =
    consider_all-inside c past merge cands (consider c blue cand) sub (λ x m. are x (ground arith))
      (λ j t. consider-inside c past merge blue cand j sub (are cand (ground arith)) (h j) t)

pub consider_all-IsBitSet :
    (c : Blockchain) (cands : List ℕ) (blue : BitSet)
    → IsBitSet blue
    → IsBitSet (foldl (consider c) blue cands)
consider_all-IsBitSet c [] blue h = h
consider_all-IsBitSet c (cand ∷ cands) blue h =
    consider_all-IsBitSet c cands (consider c blue cand) (consider-IsBitSet c blue cand h)

-- A blue set never shrinks while the merge set is considered.
consider-keeps :
    (c : Blockchain) (blue : BitSet) (cand j : ℕ)
    → test blue j ≡ true
    → test (consider c blue cand) j ≡ true
unfolding consider
consider-keeps c blue cand j h = ground (arith, test-set_bit blue (index_at c cand) j)

pub consider_all-keeps :
    (c : Blockchain) (cands : List ℕ) (blue : BitSet) (j : ℕ)
    → test blue j ≡ true
    → test (foldl (consider c) blue cands) j ≡ true
consider_all-keeps c [] blue j h = h
consider_all-keeps c (cand ∷ cands) blue j h =
    consider_all-keeps c cands (consider c blue cand) j (consider-keeps c blue cand j h)

-- Whatever the selected parent's blue set holds, the new one holds.
pub greedy_blue_set-keeps :
    (c : Blockchain) (idx sp_idx : ℕ) (past : BitSet) (j : ℕ)
    → test (blue_at c sp_idx) j ≡ true
    → test (greedy_blue_set c idx sp_idx past) j ≡ true
unfolding greedy_blue_set
greedy_blue_set-keeps c idx sp_idx past j h =
    let cands = topological_sort c (merge_set c sp_idx past) in
    ground (
      arith,
      test-set_bit (foldl (consider c) (blue_at c sp_idx) cands) idx j,
      consider_all-keeps c cands (blue_at c sp_idx) j,
    )

-- The merge set: the past without the selected parent and its past.
pub test-merge_set :
    (c : Blockchain) (sp_idx : ℕ) (past : BitSet) (j : ℕ)
    → IsBitSet (past_at c sp_idx)
    → test (merge_set c sp_idx past) j
      ≡ (not (sp_idx == j) && (test past j && not (test (past_at c sp_idx) j)))
unfolding merge_set
test-merge_set c sp_idx past j w =
    test-reset (and_not past (past_at c sp_idx)) sp_idx j
    ∙ ap (λ t. not (sp_idx == j) && t) (test-and_not past (past_at c sp_idx) j w)

pub merge_set-IsBitSet :
    (c : Blockchain) (sp_idx : ℕ) (past : BitSet)
    → IsBitSet past
    → IsBitSet (merge_set c sp_idx past)
unfolding merge_set
merge_set-IsBitSet c sp_idx past h =
    reset-IsBitSet _ sp_idx (and_not-IsBitSet past (past_at c sp_idx) h)

pub greedy_blue_set_self :
    (c : Blockchain) (idx sp_idx : ℕ) (past : BitSet)
    → test (greedy_blue_set c idx sp_idx past) idx ≡ true
unfolding greedy_blue_set
greedy_blue_set_self c idx sp_idx past =
    let cands = topological_sort c (merge_set c sp_idx past) in
    ground (arith, test-set_bit (foldl (consider c) (blue_at c sp_idx) cands) idx idx)

pub greedy_blue_set-IsBitSet :
    (c : Blockchain) (idx sp_idx : ℕ) (past : BitSet)
    → IsBitSet (blue_at c sp_idx)
    → IsBitSet (greedy_blue_set c idx sp_idx past)
unfolding greedy_blue_set
greedy_blue_set-IsBitSet c idx sp_idx past w =
    let cands = topological_sort c (merge_set c sp_idx past) in
    set_bit-IsBitSet (foldl (consider c) (blue_at c sp_idx) cands) idx
      (consider_all-IsBitSet c cands (blue_at c sp_idx) w)

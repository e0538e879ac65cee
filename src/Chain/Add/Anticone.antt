-- ===== src/Chain/Add/Anticone.antt =====
-- A block of the merge set turns blue exactly when its blue anticone has at most k blocks.
use ghostdagsim.Common.{
  ℕ, ◌+◌, ◌≤◌, ◌≡◌, refl, ap, sym, ◌∙◌, Bool, not, ◌&&◌, ◌||◌, List, [], ◌∷◌, arith, leb, ltb, ◌==◌,
  fold_until, count_if, count_if-keep, keep, contains-keep, keep-Ascends, Ascends-eq_of_contains,
  Bool-cases, inl, inr, length,
}
use ghostdagsim.BitSet.{BitSet, test, and_not}
use ghostdagsim.BitSet.Update.{IsBitSet, test-set_bit, test-and_not}
use ghostdagsim.BitSet.Members.{members, contains-members, Ascends-members}
use ghostdagsim.BitSet.Loops.{for_each_and_not_lem}
use ghostdagsim.Chain.State.{Blockchain, index_at, past_at}
use ghostdagsim.Chain.Add.{consider, anticone_blues, count_anticone}

-- Neither of the two indices is in the past of the other.
abbrev pub apart : Blockchain → ℕ → ℕ → Bool
apart c i j = not (test (past_at c i) j) && not (test (past_at c j) i)

-- The members of a blue set that are apart from an index.
abbrev pub blue_anticone : Blockchain → BitSet → ℕ → List ℕ
blue_anticone c blue ci = keep (apart c ci) (members blue)

-- The walk may stop early, but only above k.
fold-count :
    (c : Blockchain) (ci n : ℕ) (xs : List ℕ)
    → n ≤ c.ghostdag_k
    → leb (fold_until (count_anticone c ci) n xs).0 c.ghostdag_k
      ≡ leb (n + count_if (λ j. not (test (past_at c j) ci)) xs) c.ghostdag_k
unfolding count_anticone
fold-count c ci n [] h = ground arith
fold-count c ci n (x ∷ xs) h = elim (Bool-cases (test (past_at c x) ci)) [
  | inl e ↦ rw e (fold-count c ci n xs h ∙ ground arith)
  | inr e ↦ elim (Bool-cases (ltb c.ghostdag_k (n + 1))) [
    | inl over ↦ ground arith
    | inr within ↦ rw (e, within) (fold-count c ci (n + 1) xs (ground arith) ∙ ground arith)
  ]
]

members-and_not :
    (b o : BitSet) → IsBitSet o → members (and_not b o) ≡ keep (λ j. not (test o j)) (members b)
members-and_not b o w =
    Ascends-eq_of_contains 0 0 (members (and_not b o)) (keep (λ j. not (test o j)) (members b))
      (Ascends-members (and_not b o))
      (keep-Ascends (λ j. not (test o j)) 0 (members b) (Ascends-members b))
      λ i.
        contains-members (and_not b o) i
        ∙ test-and_not b o i w
        ∙ ap (λ t. t && not (test o i)) (sym (contains-members b i))
        ∙ sym (contains-keep (λ j. not (test o j)) i (members b))

length-keep : (p : ℕ → Bool) (xs : List ℕ) → length (keep p xs) ≡ count_if p xs
length-keep p [] = refl
length-keep p (x ∷ xs) = ground (arith, length-keep p xs)

anticone_blues-leb :
    (c : Blockchain) (blue : BitSet) (ci : ℕ)
    → IsBitSet blue
    → IsBitSet (past_at c ci)
    → leb (anticone_blues c blue ci) c.ghostdag_k
      ≡ leb (length (blue_anticone c blue ci)) c.ghostdag_k
unfolding anticone_blues
anticone_blues-leb c blue ci w v =
    ap (λ n. leb n c.ghostdag_k)
      (for_each_and_not_lem blue (past_at c ci) (count_anticone c ci) 0 w)
    ∙ fold-count c ci 0 (members (and_not blue (past_at c ci))) (omega arith)
    ∙ ap (λ n. leb n c.ghostdag_k)
        (ap (λ xs. 0 + count_if (λ j. not (test (past_at c j) ci)) xs)
            (members-and_not blue (past_at c ci) v)
          ∙ (let e =
                count_if-keep (λ j. not (test (past_at c ci) j)) (λ j. not (test (past_at c j) ci))
                  (members blue) in
              let e' = length-keep (apart c ci) (members blue) in omega arith))

-- Where the words of the blue set and of the candidate's past fit 64 bits: the pass over the merge
-- set adds the candidate's index if at most k of the blue blocks are in its anticone, though the
-- count may stop early; otherwise, and at every other index, the blue set stays.
pub consider-iff_anticone :
    (c : Blockchain) (blue : BitSet) (cand j : ℕ)
    → IsBitSet blue
    → IsBitSet (past_at c (index_at c cand))
    → test (consider c blue cand) j ≡ (
        ((index_at c cand == j)
          && leb (length (blue_anticone c blue (index_at c cand))) c.ghostdag_k)
        || test blue j)
unfolding consider
consider-iff_anticone c blue cand j w v =
    ground (
      arith,
      anticone_blues-leb c blue (index_at c cand) w v,
      test-set_bit blue (index_at c cand) j,
    )

-- ===== src/Chain/Add/Blues.antt =====
-- The blue set that `insert_block` gives the new block lies in its past, but for the block itself,
-- and its score counts it.
use ghostdagsim.Common.{
  ℕ, ◌+◌, ◌%◌, ◌^◌, ◌<◌, ◌≡◌, ap, ap₂, sym, subst, ◌∙◌, true, false, ◌||◌, [], ◌∷◌, some, length,
  arith, ◌==◌, leb, if◌then◌else◌, foldl, contains, any_of-contains, All-append, All-get_or,
  Bool-cases, Option-cases, eq_of_==, ==-refl, inl, inr,
}
use ghostdagsim.Common.Maps.{find, assign, find-assign}
use ghostdagsim.BitSet.{BitSet, no_bits, test, set_bit, count_and}
use ghostdagsim.BitSet.Update.{IsBitSet, test-set_bit, test-no_bits, set_bit-IsBitSet}
use ghostdagsim.Block.{Block}
use ghostdagsim.Chain.State.{Blockchain, parents_of, block_at, index_at, past_at, blue_at}
use ghostdagsim.Chain.Sort.{topological_sort}
use ghostdagsim.Chain.Sort.Inside.{IsKnown, topological_sort-AreIn}
use ghostdagsim.Chain.Add.{
  index_block, colour_block, consider, merge_set, greedy_blue_set, best_of, score_at, parents_known,
}
use ghostdagsim.Chain.Invariant.{IsIndexed, IsPast, IsBlue, IsFresh}
use ghostdagsim.Chain.Add.Facts.{uncoloured, new_past, new_colour, new_block}
use ghostdagsim.Chain.Add.Index.{
  new_index, find-idx_of, blue_at-old, blue_at-new, past_at-new, past_at-old, length-id_of,
  uncoloured-IsIndexed,
}
use ghostdagsim.Chain.Add.Pasts.{
  brings, test-new_past, parent_known, uncoloured-IsPast, index_at-old,
}
use ghostdagsim.Chain.Add.Order.{past_lt, blue-beyond}
use ghostdagsim.Chain.Add.Best.{best_of-IsBest}
use ghostdagsim.Chain.Add.Greedy.{
  consider_all-inside, greedy_blue_set_self, greedy_blue_set-IsBitSet, test-merge_set,
  merge_set-IsBitSet,
}

module _ (c : Blockchain) (b : Block) (x : IsIndexed c) (y : IsPast c) (u : IsBlue c)
    (fresh : IsFresh c b) (known : parents_known c b ≡ true) where
  abbrev id : ℕ
  id = b.header.block_id

  abbrev past : BitSet
  past = new_past c b

  -- The chain while the new block is coloured.
  abbrev staged : Blockchain
  staged = index_block c b past

  x' : IsIndexed (uncoloured c b)
  x' = uncoloured-IsIndexed c b x fresh

  y' : IsPast (uncoloured c b)
  y' = uncoloured-IsPast c b x y fresh known

  new_found : find id (uncoloured c b).idx_of ≡ some (length c.id_of)
  new_found = find-idx_of c b x fresh id ∙ rw (==-refl id)

  new_past-lt : (j : ℕ) → test past j ≡ true → j < length c.id_of
  new_past-lt j t =
      past_lt (uncoloured c b) x' y' (length c.id_of) j
        (ap (λ s. test s j) (past_at-new c b x fresh) ∙ t)

  new_past-IsBitSet : IsBitSet past
  new_past-IsBitSet =
      subst IsBitSet (past_at-new c b x fresh)
        (All-get_or IsBitSet (uncoloured c b).past (length c.id_of) no_bits tt y'.words)

  past_at-IsBitSet : (i : ℕ) → IsBitSet (past_at staged i)
  unfolding index_block uncoloured y'
  past_at-IsBitSet i = All-get_or IsBitSet (uncoloured c b).past i no_bits tt y'.words

  -- A parent and its past are in the new past.
  parent-past :
      (p j : ℕ) → contains p (parents_of b) ≡ true → brings c j p ≡ true → test past j ≡ true
  parent-past p j m t =
      test-new_past c b x y fresh known j ∙ any_of-contains (brings c j) p (parents_of b) m t

  merge-past : (sp i : ℕ) → test (merge_set staged sp past) i ≡ true → test past i ≡ true
  merge-past sp i t = ground (arith, test-merge_set staged sp past i (past_at-IsBitSet sp))

  merge-IsKnown : (sp : ℕ) → IsKnown staged (merge_set staged sp past)
  unfolding index_block uncoloured
  merge-IsKnown sp i t =
      let below = new_past-lt i (merge-past sp i t) in
      x'.index_of i (omega (arith, length-id_of c b x fresh))

  staged_index : (p : ℕ) → contains p (parents_of b) ≡ true → index_at staged p ≡ index_at c p
  unfolding index_block uncoloured
  staged_index p m = index_at-old c b x y fresh known p (parent_known c b x y fresh known p m)

  inherited-past :
      (p j : ℕ)
      → contains p (parents_of b) ≡ true
      → test (blue_at staged (index_at staged p)) j ≡ true
      → test past j ≡ true
  unfolding index_block
  inherited-past p j m t =
      parent-past p j m
        (u.inside (index_at c p) j (sym (ap (λ i. test (blue_at c i) j) (staged_index p m)) ∙ t))

  -- The pass over the merge set stays in the past.
  greedy-inside :
      (p j : ℕ)
      → contains p (parents_of b) ≡ true
      → test (greedy_blue_set staged (length c.id_of % 2 ^ 32) (index_at staged p) past) j ≡ true
      → ((length c.id_of == j) || test past j) ≡ true
  unfolding greedy_blue_set
  greedy-inside p j m t =
      let sp = index_at staged p in
      let merge = merge_set staged sp past in
      let cands = topological_sort staged merge in
      let sorted =
        topological_sort-AreIn staged merge (merge_set-IsBitSet staged sp past new_past-IsBitSet)
          (merge-IsKnown sp) in
      let inside =
        consider_all-inside staged past merge cands (blue_at staged sp) (merge-past sp) sorted
          (λ k. inherited-past p k m) j in
      ground (
        arith,
        test-set_bit (foldl (consider staged) (blue_at staged sp) cands) (length c.id_of % 2 ^ 32)
            j,
        new_index c b x fresh,
        inside,
      )

  blue_at-IsBitSet : (i : ℕ) → IsBitSet (blue_at staged i)
  unfolding index_block
  blue_at-IsBitSet i = All-get_or IsBitSet c.blue i no_bits tt u.words

  -- What holds of the blue set on both branches: with parents, and without.
  abbrev GoodBlue : BitSet → Type 0
  GoodBlue s =
      (test s (length c.id_of) ≡ true)
      × IsBitSet s
      × ((j : ℕ) → test s j ≡ true → ((length c.id_of == j) || test past j) ≡ true)

  new_blue-lone : GoodBlue (set_bit no_bits (length c.id_of % 2 ^ 32))
  new_blue-lone = (
    ground (
      arith,
      test-set_bit no_bits (length c.id_of % 2 ^ 32) (length c.id_of),
      new_index c b x fresh,
    ),
    set_bit-IsBitSet no_bits (length c.id_of % 2 ^ 32) tt,
    λ j t. ground (
      arith,
      test-set_bit no_bits (length c.id_of % 2 ^ 32) j,
      test-no_bits j,
      new_index c b x fresh,
    ),
  )

  new_blue-greedy :
      (p : ℕ)
      → contains p (parents_of b) ≡ true
      → GoodBlue (greedy_blue_set staged (length c.id_of % 2 ^ 32) (index_at staged p) past)
  new_blue-greedy p m = (
    subst
        (λ n.
          test (greedy_blue_set staged (length c.id_of % 2 ^ 32) (index_at staged p) past) n ≡ true)
        (new_index c b x fresh)
        (greedy_blue_set_self staged (length c.id_of % 2 ^ 32) (index_at staged p) past),
    greedy_blue_set-IsBitSet staged (length c.id_of % 2 ^ 32) (index_at staged p) past
        (blue_at-IsBitSet (index_at staged p)),
    λ j. greedy-inside p j m,
  )

  new_blue : GoodBlue (new_colour c b).0
  unfolding colour_block
  new_blue = elim (Option-cases (best_of (score_at staged.blocks) (parents_of b))) [
    | inl e ↦ rw (e, colour_block) new_blue-lone
    | inr (p, e) ↦
        rw (e, colour_block)
          (new_blue-greedy p (best_of-IsBest (score_at staged.blocks) (parents_of b) p e).member)
  ]

  last_index :
      (j i : ℕ) → find j (uncoloured c b).idx_of ≡ some i → (j == id) ≡ true → i ≡ length c.id_of
  last_index j i e same = ground (arith, find-idx_of c b x fresh j)

  old_index :
      (j i : ℕ)
      → find j (uncoloured c b).idx_of ≡ some i
      → (j == id) ≡ false
      → find j c.idx_of ≡ some i
  old_index j i e other = ground (arith, find-idx_of c b x fresh j)

  uncoloured_self :
      (i : ℕ) → i < length (uncoloured c b).id_of → test (blue_at (uncoloured c b) i) i ≡ true
  uncoloured_self i h = elim (Bool-cases (i == length c.id_of)) [
    | inl last ↦
        ap (λ n. test (blue_at (uncoloured c b) n) n) (eq_of_== i (length c.id_of) last)
        ∙ ap (λ s. test s (length c.id_of)) (blue_at-new c b x fresh)
        ∙ new_blue.0
    | inr other ↦
        let below : i < length c.id_of = ground (arith, length-id_of c b x fresh) in
        ap (λ s. test s i) (blue_at-old c b x fresh i below) ∙ u.self i below
  ]

  uncoloured-inside :
      (i j : ℕ)
      → test (blue_at (uncoloured c b) i) j ≡ true
      → ((i == j) || test (past_at (uncoloured c b) i) j) ≡ true
  uncoloured-inside i j t = elim (Bool-cases (i == length c.id_of)) [
    | inl last ↦
        let e = eq_of_== i (length c.id_of) last in
        let s =
          sym (ap (λ s. test s j) (blue_at-new c b x fresh))
          ∙ ap (λ n. test (blue_at (uncoloured c b) n) j) (sym e)
          ∙ t in
        ap (λ n. (n == j) || test (past_at (uncoloured c b) n) j) e
        ∙ ap (λ s. (length c.id_of == j) || test s j) (past_at-new c b x fresh)
        ∙ new_blue.2 j s
    | inr other ↦ elim (Bool-cases (leb (length (uncoloured c b).id_of) i)) [
      | inl beyond ↦ ground (arith, blue-beyond (uncoloured c b) x' i j)
      | inr within ↦
          let below : i < length c.id_of = ground (arith, length-id_of c b x fresh) in
          ap (λ s. (i == j) || test s j) (past_at-old c b x fresh i below)
          ∙ u.inside i j (sym (ap (λ s. test s j) (blue_at-old c b x fresh i below)) ∙ t)
    ]
  ]

  score-uncoloured :
      (j : ℕ)
      → (block_at (uncoloured c b) j).blue_score
        ≡ (if j == id then count_and past (new_colour c b).0 + 1 else (block_at c j).blue_score)
  unfolding uncoloured
  score-uncoloured j =
      ground (
        arith,
        find-assign j id (new_block c b) (assign id b c.blocks),
        find-assign j id b c.blocks,
      )

  uncoloured-score :
      (j i : ℕ)
      → find j (uncoloured c b).idx_of ≡ some i
      → (block_at (uncoloured c b) j).blue_score
        ≡ count_and (past_at (uncoloured c b) i) (blue_at (uncoloured c b) i) + 1
  uncoloured-score j i e = elim (Bool-cases (j == id)) [
    | inl same ↦
        let last = last_index j i e same in
        score-uncoloured j
        ∙ rw same (
            ap₂ (λ s t. count_and s t + 1)
              (sym (past_at-new c b x fresh) ∙ ap (past_at (uncoloured c b)) (sym last))
              (sym (blue_at-new c b x fresh) ∙ ap (blue_at (uncoloured c b)) (sym last)))
    | inr other ↦
        let old = old_index j i e other in
        let below = x.index_lt j i old in
        score-uncoloured j
        ∙ rw other (
            u.score j i old
            ∙ ap₂ (λ s t. count_and s t + 1) (sym (past_at-old c b x fresh i below))
                (sym (blue_at-old c b x fresh i below)))
  ]

  pub uncoloured-IsBlue : IsBlue (uncoloured c b)
  unfolding uncoloured
  uncoloured-IsBlue = record {
    self = uncoloured_self;
    inside = uncoloured-inside;
    score = uncoloured-score;
    words = All-append IsBitSet c.blue ((new_colour c b).0 ∷ []) u.words (new_blue.1, tt);
  }

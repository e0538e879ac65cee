-- ===== src/Chain/Add/Pasts.antt =====
-- `insert_block` gives the new block the union of its parents and their pasts.
use ghostdagsim.Common.{
  ℕ, ◌%◌, ◌^◌, ◌<◌, ◌≡◌, ap, sym, ◌∙◌, Bool, true, ◌||◌, List, [], ◌∷◌, some, length, arith, ◌==◌,
  foldl, contains, any_of, any_of_congr, all_of-contains, All, All-append, All-get_or, Bool-cases,
  Option-cases, inl, inr,
}
use ghostdagsim.Common.Maps.{find, assign, has}
use ghostdagsim.BitSet.{BitSet, no_bits, test, set_bit, or_assign}
use ghostdagsim.BitSet.Update.{
  IsBitSet, test-set_bit, test-or_assign, test-no_bits, set_bit-IsBitSet, or_assign-IsBitSet,
}
use ghostdagsim.Block.{Block}
use ghostdagsim.Chain.State.{Blockchain, parents_of, index_at, past_at}
use ghostdagsim.Chain.Add.{gather_past, parents_known}
use ghostdagsim.Chain.Invariant.{parents_at, IsIndexed, IsPast, IsFresh}
use ghostdagsim.Chain.Add.Facts.{uncoloured, new_past}
use ghostdagsim.Chain.Add.Index.{find-idx_of, fresh_index, past_at-old, past_at-new}
use ghostdagsim.Chain.Add.Links.{parents_at-uncoloured}

-- One parent's share of a past.
abbrev pub brings : Blockchain → ℕ → ℕ → Bool
brings c j p = (index_at c p == j) || test (past_at c (index_at c p)) j

abbrev add_parent : Blockchain → BitSet → ℕ → BitSet
add_parent c past p = set_bit (or_assign past (past_at c (index_at c p))) (index_at c p)

test-add_parents :
    (c : Blockchain) (ps : List ℕ) (s : BitSet) (j : ℕ)
    → test (foldl (add_parent c) s ps) j ≡ (test s j || any_of (brings c j) ps)
test-add_parents c [] s j = ground arith
test-add_parents c (p ∷ ps) s j = ground (
  arith,
  test-add_parents c ps (add_parent c s p) j,
  test-set_bit (or_assign s (past_at c (index_at c p))) (index_at c p) j,
  test-or_assign s (past_at c (index_at c p)) j,
)

pub test-gather_past :
    (c : Blockchain) (ps : List ℕ) (j : ℕ) → test (gather_past c ps) j ≡ any_of (brings c j) ps
unfolding gather_past
test-gather_past c ps j = test-add_parents c ps no_bits j ∙ rw (test-no_bits j)

add_parents-IsBitSet :
    (c : Blockchain) (ps : List ℕ) (s : BitSet)
    → All IsBitSet c.past
    → IsBitSet s
    → IsBitSet (foldl (add_parent c) s ps)
add_parents-IsBitSet c [] s w h = h
add_parents-IsBitSet c (p ∷ ps) s w h = add_parents-IsBitSet c ps (add_parent c s p) w (
    set_bit-IsBitSet _ (index_at c p) (
      or_assign-IsBitSet s (past_at c (index_at c p)) h
        (All-get_or IsBitSet c.past (index_at c p) no_bits tt w)))

pub gather_past-IsBitSet :
    (c : Blockchain) (ps : List ℕ) → All IsBitSet c.past → IsBitSet (gather_past c ps)
unfolding gather_past
gather_past-IsBitSet c ps w = add_parents-IsBitSet c ps no_bits w tt

module _ (c : Blockchain) (b : Block) (x : IsIndexed c) (y : IsPast c) (fresh : IsFresh c b)
    (known : parents_known c b ≡ true) where
  abbrev id : ℕ
  id = b.header.block_id

  -- An accepted block keeps its index.
  pub index_at-old : (p : ℕ) → has p c.idx_of ≡ true → index_at (uncoloured c b) p ≡ index_at c p
  index_at-old p h = ground (arith, find-idx_of c b x fresh p, fresh_index c b x fresh, eq_at p)
    where
      eq_at : (p : ℕ) → p ≡ id → find p c.idx_of ≡ find id c.idx_of
      eq_at p e = rw e

  pub index_at-lt : (p : ℕ) → has p c.idx_of ≡ true → index_at c p < length c.id_of
  index_at-lt p h = elim (Option-cases (find p c.idx_of)) [
    | inl e ↦ ground arith
    | inr (i, e) ↦ ground (arith, x.index_lt p i e)
  ]

  -- A parent of the new block has an index.
  pub parent_known : (p : ℕ) → contains p (parents_of b) ≡ true → has p c.idx_of ≡ true
  parent_known p h =
      sym (x.known p) ∙ all_of-contains (λ q. has q c.blocks) p (parents_of b) known h

  pub brings-old : (j p : ℕ) → has p c.idx_of ≡ true → brings (uncoloured c b) j p ≡ brings c j p
  brings-old j p h = rw (index_at-old p h, past_at-old c b x fresh (index_at c p) (index_at-lt p h))

  abbrev early : Blockchain
  early = record c { idx_of = assign id (length c.id_of % 2 ^ 32) c.idx_of }

  brings-early : (j p : ℕ) → has p c.idx_of ≡ true → brings early j p ≡ brings c j p
  unfolding uncoloured
  brings-early j p h = ap (λ i. (i == j) || test (past_at c i) j) (index_at-old p h)

  -- The past that the code computes, by the indices that the parents have.
  pub test-new_past : (j : ℕ) → test (new_past c b) j ≡ any_of (brings c j) (parents_of b)
  test-new_past j =
      test-gather_past early (parents_of b) j
      ∙ any_of_congr (brings early j) (brings c j) (parents_of b)
          (λ p h. brings-early j p (parent_known p h))

  uncoloured-parent :
      (j i p : ℕ)
      → find j (uncoloured c b).idx_of ≡ some i
      → contains p (parents_at (uncoloured c b) j) ≡ true
      → (has p (uncoloured c b).idx_of ≡ true) × (index_at (uncoloured c b) p < i)
  uncoloured-parent j i p e h = elim (Bool-cases (j == id)) [
    | inl same ↦
        let ps = ap (contains p) (parents_at-uncoloured c b j) in
        let k = parent_known p (ground arith) in
        ground (
          arith,
          find-idx_of c b x fresh j,
          find-idx_of c b x fresh p,
          index_at-old p k,
          index_at-lt p k,
        )
    | inr other ↦
        let ps = ap (contains p) (parents_at-uncoloured c b j) in
        let old : find j c.idx_of ≡ some i = ground (arith, find-idx_of c b x fresh j) in
        let k = y.parent j i p old (ground arith) in
        ground (arith, find-idx_of c b x fresh p, index_at-old p k.0)
  ]

  uncoloured-past :
      (k i j : ℕ)
      → find k (uncoloured c b).idx_of ≡ some i
      → test (past_at (uncoloured c b) i) j
        ≡ any_of (brings (uncoloured c b) j) (parents_at (uncoloured c b) k)
  uncoloured-past k i j e = elim (Bool-cases (k == id)) [
    | inl same ↦
        let last : i ≡ length c.id_of = ground (arith, find-idx_of c b x fresh k) in
        let ps : parents_at (uncoloured c b) k ≡ parents_of b =
          parents_at-uncoloured c b k ∙ rw same in
        ap (λ n. test (past_at (uncoloured c b) n) j) last
        ∙ ap (λ s. test s j) (past_at-new c b x fresh)
        ∙ test-new_past j
        ∙ sym (
            any_of_congr (brings (uncoloured c b) j) (brings c j) (parents_of b)
              (λ p h. brings-old j p (parent_known p h)))
        ∙ ap (any_of (brings (uncoloured c b) j)) (sym ps)
    | inr other ↦
        let old : find k c.idx_of ≡ some i = ground (arith, find-idx_of c b x fresh k) in
        let ps : parents_at (uncoloured c b) k ≡ parents_at c k =
          parents_at-uncoloured c b k ∙ rw other in
        ap (λ s. test s j) (past_at-old c b x fresh i (x.index_lt k i old))
        ∙ y.past k i j old
        ∙ sym (
            any_of_congr (brings (uncoloured c b) j) (brings c j) (parents_at c k)
              (λ p h. brings-old j p (y.parent k i p old h).0))
        ∙ ap (any_of (brings (uncoloured c b) j)) (sym ps)
  ]

  pub uncoloured-IsPast : IsPast (uncoloured c b)
  unfolding uncoloured
  uncoloured-IsPast = record {
    parent = uncoloured-parent;
    past = uncoloured-past;
    words =
        All-append IsBitSet c.past (new_past c b ∷ []) y.words
          (gather_past-IsBitSet early (parents_of b) y.words, tt);
  }

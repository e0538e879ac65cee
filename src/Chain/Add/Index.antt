-- ===== src/Chain/Add/Index.antt =====
-- `insert_block` keeps the indices in step.
use ghostdagsim.Common.{
  ℕ, ◌+◌, ◌%◌, ◌^◌, ◌<◌, ◌≡◌, ap, sym, ◌∙◌, true, [], ◌∷◌, ◌++◌, none, some, length, get_or,
  length-append, get_or-append_left, get_or-append_last, arith, ◌==◌, if◌then◌else◌, Bool-cases,
  eq_of_==, ==-refl, inl, inr,
}
use ghostdagsim.Common.Maps.{find, assign, has, find-assign}
use ghostdagsim.BitSet.{no_bits}
use ghostdagsim.Block.{Block}
use ghostdagsim.Chain.State.{Blockchain, past_at, blue_at}
use ghostdagsim.Chain.Invariant.{IsIndexed, IsFresh}
use ghostdagsim.Chain.Add.Facts.{uncoloured, new_block, new_past, new_colour}

module _ (c : Blockchain) (b : Block) (x : IsIndexed c) (fresh : IsFresh c b) where
  abbrev id : ℕ
  id = b.header.block_id

  -- The cast to uint32_t changes nothing.
  pub new_index : length c.id_of % 2 ^ 32 ≡ length c.id_of
  new_index = omega (arith, fresh.room)

  pub find-idx_of :
      (j : ℕ)
      → find j (uncoloured c b).idx_of
        ≡ (if j == id then some (length c.id_of) else find j c.idx_of)
  unfolding uncoloured
  find-idx_of j = rw (find-assign j id (length c.id_of % 2 ^ 32) c.idx_of, new_index)

  pub has-blocks :
      (j : ℕ) → has j (uncoloured c b).blocks ≡ (if j == id then true else has j c.blocks)
  unfolding uncoloured
  has-blocks j =
      ground (
        arith,
        find-assign j id (new_block c b) (assign id b c.blocks),
        find-assign j id b c.blocks,
      )

  pub fresh_index : find id c.idx_of ≡ none
  fresh_index = ground (arith, x.known id, fresh.unknown)

  -- An index below the new one reads as before.
  pub id_at-old :
      (i : ℕ) → i < length c.id_of → get_or (uncoloured c b).id_of i 0 ≡ get_or c.id_of i 0
  unfolding uncoloured
  id_at-old i h = get_or-append_left c.id_of (id ∷ []) i 0 h

  pub past_at-old : (i : ℕ) → i < length c.id_of → past_at (uncoloured c b) i ≡ past_at c i
  unfolding uncoloured
  past_at-old i h =
      get_or-append_left c.past (new_past c b ∷ []) i no_bits (omega (arith, x.past_length))

  pub blue_at-old : (i : ℕ) → i < length c.id_of → blue_at (uncoloured c b) i ≡ blue_at c i
  unfolding uncoloured
  blue_at-old i h =
      get_or-append_left c.blue ((new_colour c b).0 ∷ []) i no_bits (omega (arith, x.blue_length))

  pub past_at-new : past_at (uncoloured c b) (length c.id_of) ≡ new_past c b
  unfolding uncoloured
  past_at-new =
      ap (λ i. get_or (c.past ++ new_past c b ∷ []) i no_bits) (sym x.past_length)
      ∙ get_or-append_last c.past (new_past c b) no_bits

  pub blue_at-new : blue_at (uncoloured c b) (length c.id_of) ≡ (new_colour c b).0
  unfolding uncoloured
  blue_at-new =
      ap (λ i. get_or (c.blue ++ (new_colour c b).0 ∷ []) i no_bits) (sym x.blue_length)
      ∙ get_or-append_last c.blue (new_colour c b).0 no_bits

  pub length-id_of : length (uncoloured c b).id_of ≡ length c.id_of + 1
  unfolding uncoloured
  length-id_of = length-append c.id_of (id ∷ [])

  id_at-new : get_or (uncoloured c b).id_of (length c.id_of) 0 ≡ id
  unfolding uncoloured
  id_at-new = get_or-append_last c.id_of id 0

  -- Each index is an old one, or the last one, of the new block.
  id_at-index :
      (j i : ℕ)
      → find j (uncoloured c b).idx_of ≡ some i
      → (i < length (uncoloured c b).id_of) × (get_or (uncoloured c b).id_of i 0 ≡ j)
  id_at-index j i e = elim (Bool-cases (j == id)) [
    | inl same ↦
        let last : i ≡ length c.id_of = ground (arith, find-idx_of j) in
        (
          omega (arith, length-id_of),
          ap (λ k. get_or (uncoloured c b).id_of k 0) last ∙ id_at-new ∙ sym (eq_of_== j id same),
        )
    | inr other ↦
        let old : find j c.idx_of ≡ some i = ground (arith, find-idx_of j) in
        let below = x.index_lt j i old in
        (omega (arith, length-id_of), id_at-old i below ∙ x.id_at j i old)
  ]

  index_of-id_at :
      (i : ℕ)
      → i < length (uncoloured c b).id_of
      → find (get_or (uncoloured c b).id_of i 0) (uncoloured c b).idx_of ≡ some i
  index_of-id_at i h = elim (Bool-cases (i == length c.id_of)) [
    | inl last ↦
        ap (λ k. find (get_or (uncoloured c b).id_of k 0) (uncoloured c b).idx_of)
          (eq_of_== i (length c.id_of) last)
        ∙ ap (λ k. find k (uncoloured c b).idx_of) id_at-new
        ∙ find-idx_of id
        ∙ rw (==-refl id) (ap some (sym (eq_of_== i (length c.id_of) last)))
    | inr other ↦
        let below : i < length c.id_of = ground (arith, length-id_of) in
        rw (id_at-old i below)
          (ground (arith, find-idx_of (get_or c.id_of i 0), x.index_of i below, fresh_index))
  ]

  pub uncoloured-IsIndexed : IsIndexed (uncoloured c b)
  uncoloured-IsIndexed = record {
    known = λ j. ground (arith, has-blocks j, find-idx_of j, x.known j);
    index_lt = λ j i e. (id_at-index j i e).0;
    id_at = λ j i e. (id_at-index j i e).1;
    index_of = index_of-id_at;
    past_length = lengths.0;
    blue_length = lengths.1;
  }
    where
      lengths :
          (length (uncoloured c b).past ≡ length (uncoloured c b).id_of)
          × (length (uncoloured c b).blue ≡ length (uncoloured c b).id_of)
      lengths =
          unfold uncoloured in
          (
            omega (
              arith,
              x.past_length,
              length-append c.past (new_past c b ∷ []),
              length-append c.id_of (id ∷ []),
            ),
            omega (
              arith,
              x.blue_length,
              length-append c.blue ((new_colour c b).0 ∷ []),
              length-append c.id_of (id ∷ []),
            ),
          )

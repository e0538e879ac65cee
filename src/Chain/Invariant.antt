-- ===== src/Chain/Invariant.antt =====
-- When a chain is well formed: its indices agree with each other, its links with the parents of its
-- blocks, its pasts with the links, and its blue sets and scores with the pasts.
use ghostdagsim.Common.{
  ℕ, ◌+◌, ◌^◌, ◌<◌, ◌≤◌, ◌≡◌, true, false, ◌&&◌, ◌||◌, List, some, length, get_or, All, Ascends,
  contains, any_of, ◌==◌, is_nil,
}
use ghostdagsim.Common.Maps.{find, has, keys}
use ghostdagsim.BitSet.{test, count_and}
use ghostdagsim.BitSet.Update.{IsBitSet}
use ghostdagsim.Block.{Block}
use ghostdagsim.Chain.State.{
  Blockchain, parents_of, block_at, index_at, past_at, blue_at, children_of,
}
use ghostdagsim.Chain.Add.{select_tip}

abbrev pub parents_at : Blockchain → ℕ → List ℕ
parents_at c id = parents_of (block_at c id)

-- `idx_of_` and `id_of_` are inverse to each other, and every accepted block has an index.
pub record IsIndexed (c : Blockchain) : Type 0 where
  pub known : (id : ℕ) → has id c.blocks ≡ has id c.idx_of
  pub index_lt : (id i : ℕ) → find id c.idx_of ≡ some i → i < length c.id_of
  pub id_at : (id i : ℕ) → find id c.idx_of ≡ some i → get_or c.id_of i 0 ≡ id
  pub index_of : (i : ℕ) → i < length c.id_of → find (get_or c.id_of i 0) c.idx_of ≡ some i
  pub past_length : length c.past ≡ length c.id_of
  pub blue_length : length c.blue ≡ length c.id_of

-- `children` inverts the parents of the accepted blocks, and the tips are the accepted blocks that
-- are nobody's parent. Both sets are ascending.
pub record IsLinked (c : Blockchain) : Type 0 where
  pub child :
      (p ch : ℕ) → contains ch (children_of c p) ≡ (has ch c.blocks && contains p (parents_at c ch))
  pub tip : (t : ℕ) → contains t c.tips ≡ (has t c.blocks && is_nil (children_of c t))
  pub children_ascend : (p : ℕ) → Ascends 0 (children_of c p)
  pub tips_ascend : Ascends 0 c.tips

-- Parents come first, and a past is the union of the parents and their pasts.
pub record IsPast (c : Blockchain) : Type 0 where
  pub parent :
      (id i p : ℕ)
      → find id c.idx_of ≡ some i
      → contains p (parents_at c id) ≡ true
      → (has p c.idx_of ≡ true) × (index_at c p < i)
  pub past :
      (id i j : ℕ)
      → find id c.idx_of ≡ some i
      → test (past_at c i) j
        ≡ any_of (λ p. (index_at c p == j) || test (past_at c (index_at c p)) j) (parents_at c id)
  pub words : All IsBitSet c.past

-- A blue set holds its block and otherwise only blocks of the past; the score counts it.
pub record IsBlue (c : Blockchain) : Type 0 where
  pub self : (i : ℕ) → i < length c.id_of → test (blue_at c i) i ≡ true
  pub inside : (i j : ℕ) → test (blue_at c i) j ≡ true → ((i == j) || test (past_at c i) j) ≡ true
  pub score :
      (id i : ℕ)
      → find id c.idx_of ≡ some i
      → (block_at c id).blue_score ≡ count_and (past_at c i) (blue_at c i) + 1
  pub words : All IsBitSet c.blue

-- `is_blue` of every accepted block says whether it is in the selected tip's blue set.
abbrev pub IsColoured : Blockchain → Type 0
IsColoured c =
    (id tip : ℕ)
    → has id c.blocks ≡ true
    → select_tip c ≡ some tip
    → (block_at c id).is_blue ≡ test (blue_at c (index_at c tip)) (index_at c id)

-- Orphans are stored under their ids, and none of them is accepted; indices fit 32 bits.
pub record HasOrphans (c : Blockchain) : Type 0 where
  pub ascending : Ascends 0 (keys c.orphans)
  pub header_id : (id : ℕ) (b : Block) → find id c.orphans ≡ some b → b.header.block_id ≡ id
  pub pending : (id : ℕ) → has id c.orphans ≡ true → has id c.blocks ≡ false
  pub room : length c.id_of + length c.orphans ≤ 2 ^ 32

pub record IsChain (c : Blockchain) : Type 0 where
  pub indexed : IsIndexed c
  pub linked : IsLinked c
  pub pasts : IsPast c
  pub blues : IsBlue c
  pub coloured : IsColoured c
  pub waiting : HasOrphans c

-- A block that is neither accepted nor an orphan, and for which an index is left: HandleBlock
-- returns early unless the first two hold.
pub record IsFresh (c : Blockchain) (b : Block) : Type 0 where
  pub unknown : has b.header.block_id c.blocks ≡ false
  pub absent : has b.header.block_id c.orphans ≡ false
  pub room : length c.id_of + length c.orphans < 2 ^ 32

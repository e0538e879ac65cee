-- ===== src/Chain/Add/Present.antt =====
-- The entry of a block that AddBlock of dag.cc inserts, under its id and with its header.
use ghostdagsim.Common.{
  ℕ, ◌≡◌, sym, ap, ◌∙◌, subst, arith, true, false, Option, none, some, Bool-cases, inl, inr, ◌==◌,
  if◌then◌else◌, length, ◌%◌, ◌^◌, eq_of_==, ==-refl,
}
use ghostdagsim.Common.Maps.{Map, find, assign, has, find-assign}
use ghostdagsim.BitSet.{BitSet}
use ghostdagsim.Block.{Block, BlockHeader}
use ghostdagsim.Chain.State.{Blockchain}
use ghostdagsim.Chain.Add.{insert_block, parents_known, colour_block, index_block, add_block}
use ghostdagsim.Chain.Invariant.{IsChain, IsFresh}
use ghostdagsim.Chain.Add.Facts.{uncoloured, new_block, new_past, insert_block_lem}
use ghostdagsim.Chain.Add.Recolour.{painted-header, recolour_all_lem}
use ghostdagsim.Chain.Add.Rule.{IsInvariant, add_block_rule_inserted}
use ghostdagsim.Chain.Add.Keeps.{IsChain-IsInvariant}

-- The header that is stored under an id.
abbrev pub header_at : ℕ → Map Block → Option BlockHeader
header_at id m = elim (find id m) [ none ↦ none | some b ↦ some b.header ]

-- The chosen parent and the colours do not touch the header.
colour_block-header :
    (c : Blockchain) (b : Block) (idx : ℕ) (past : BitSet)
    → (colour_block c b idx past).1.header ≡ b.header
unfolding colour_block
colour_block-header c b idx past = ground arith

insert_block-header :
    (c : Blockchain) (b : Block) (id : ℕ)
    → header_at id (insert_block c b).blocks
      ≡ (if id == b.header.block_id then some b.header else header_at id c.blocks)
unfolding uncoloured
insert_block-header c b id =
    ap (λ (d : Blockchain). header_at id d.blocks)
      (insert_block_lem c b ∙ recolour_all_lem (uncoloured c b))
    ∙ painted-header (uncoloured c b) id
    ∙ ground (
      arith,
      find-assign id b.header.block_id (new_block c b) (assign b.header.block_id b c.blocks),
      find-assign id b.header.block_id b c.blocks,
      colour_block-header (index_block c b (new_past c b)) b (length c.id_of % 2 ^ 32)
          (new_past c b),
    )

module _ (id : ℕ) (header : BlockHeader) where
  -- A well-formed chain with a block of this header under this id.
  IsStored : Blockchain → Type 0
  IsStored c = IsChain c × (header_at id c.blocks ≡ some header)

  insert_block-IsStored :
      (c : Blockchain) (b : Block)
      → IsStored c
      → IsFresh c b
      → parents_known c b ≡ true
      → IsStored (insert_block c b)
  unfolding IsStored
  insert_block-IsStored c b h fresh known = (
    IsChain-IsInvariant.inserting c b h.0 fresh known,
    elim (Bool-cases (id == b.header.block_id)) [
      | inl same ↦
          let new : has id c.blocks ≡ false =
            subst (λ k. has k c.blocks ≡ false) (sym (eq_of_== id b.header.block_id same))
              fresh.unknown in
          absurd (ground (arith, h.1, new))
      | inr other ↦ insert_block-header c b id ∙ rw other h.1
    ],
  )

  IsStored-IsInvariant : IsInvariant IsStored IsFresh
  unfolding IsStored
  IsStored-IsInvariant = record {
    ascending = λ c h. IsChain-IsInvariant.ascending c h.0;
    orphaning = λ c b h fresh e. (IsChain-IsInvariant.orphaning c b h.0 fresh e, h.1);
    inserting = insert_block-IsStored;
    releasing = λ c k b h e. let r = IsChain-IsInvariant.releasing c k b h.0 e in ((r.0, h.1), r.1);
  }

-- On a well-formed chain, a fresh block whose parents are all in the DAG: after AddBlock, and all
-- the orphans that it adds, the block is in the DAG with its header.
pub add_block-header :
    (c : Blockchain) (b : Block)
    → IsChain c
    → IsFresh c b
    → parents_known c b ≡ true
    → header_at b.header.block_id (add_block c b).blocks ≡ some b.header
unfolding IsStored
add_block-header c b h fresh known =
    let id : ℕ = b.header.block_id in
    let there : header_at id (insert_block c b).blocks ≡ some b.header =
      insert_block-header c b id
      ∙ ap (λ t. if t then some b.header else header_at id c.blocks) (==-refl id) in
    (add_block_rule_inserted (IsStored id b.header) IsFresh (IsStored-IsInvariant id b.header) c b
      known (IsChain-IsInvariant.inserting c b h fresh known, there)).1

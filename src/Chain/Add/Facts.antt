-- ===== src/Chain/Add/Facts.antt =====
-- The fields of a chain after `insert_block`, one by one.
use ghostdagsim.Common.{ℕ, ◌+◌, ◌%◌, ◌^◌, ◌≡◌, refl, List, [], ◌∷◌, ◌++◌, length, foldl}
use ghostdagsim.Common.Maps.{Map, assign}
use ghostdagsim.Common.Sets
use ghostdagsim.BitSet.{BitSet, count_and}
use ghostdagsim.Block.{Block}
use ghostdagsim.Chain.State.{Blockchain, parents_of}
use ghostdagsim.Chain.Add.{insert_block, index_block, colour_block, gather_past, recolour_all, link}

-- The past that AddBlock computes for a new block.
abbrev pub new_past : Blockchain → Block → BitSet
new_past c b =
    gather_past (record c { idx_of = assign b.header.block_id (length c.id_of % 2 ^ 32) c.idx_of })
      (parents_of b)

-- The blue set, and the block with its selected parent.
abbrev pub new_colour : Blockchain → Block → BitSet × Block
new_colour c b =
    colour_block (index_block c b (new_past c b)) b (length c.id_of % 2 ^ 32) (new_past c b)

abbrev pub new_block : Blockchain → Block → Block
new_block c b = record (new_colour c b).1 {
  blue_score = count_and (new_past c b) (new_colour c b).0 + 1;
}

abbrev pub new_links : Blockchain → Block → Map (List ℕ) × List ℕ
new_links c b = foldl (link b.header.block_id) (c.children, c.tips) (parents_of b)

-- The chain before the colours are set.
unfoldable pub uncoloured : Blockchain → Block → Blockchain
uncoloured c b = record {
  ghostdag_k = c.ghostdag_k;
  next_block_id = c.next_block_id;
  node_id_metric = c.node_id_metric;
  tips = Sets.insert b.header.block_id (new_links c b).1;
  children = (new_links c b).0;
  blocks = assign b.header.block_id (new_block c b) (assign b.header.block_id b c.blocks);
  orphans = c.orphans;
  idx_of = assign b.header.block_id (length c.id_of % 2 ^ 32) c.idx_of;
  id_of = c.id_of ++ b.header.block_id ∷ [];
  past = c.past ++ new_past c b ∷ [];
  blue = c.blue ++ (new_colour c b).0 ∷ [];
}

pub insert_block_lem :
    (c : Blockchain) (b : Block) → insert_block c b ≡ recolour_all (uncoloured c b)
unfolding insert_block uncoloured
insert_block_lem c b = refl

-- ===== src/Chain/State.antt =====
-- struct Blockchain of dag.h, its constructor and its plain reads (dag.cc).
-- `int ghostdag_k` is a number: the code compares with its cast to uint64_t, and the simulator sets
-- it from a uint32_t.
use ghostdagsim.Common.{
  ℕ, ◌-◌, ◌^◌, Bool, true, false, not, List, [], ◌∷◌, Option, none, some, length, get_or,
}
use ghostdagsim.Common.Sets.{insert}
use ghostdagsim.Common.Maps.{Map, find, assign, has, at}
use ghostdagsim.BitSet.{BitSet, no_bits, set_bit, test, for_each}
use ghostdagsim.Block.{Block, default_block}

pub record Blockchain : Type 0 where
  pub ghostdag_k : ℕ
  pub next_block_id : ℕ
  pub node_id_metric : ℕ
  pub tips : List ℕ
  pub children : Map (List ℕ)
  pub blocks : Map Block
  pub orphans : Map Block
  pub idx_of : Map ℕ
  pub id_of : List ℕ
  pub past : List BitSet
  pub blue : List BitSet

pub genesis : Block
genesis = record default_block {
  header = record { block_id = 0; miner_id = 2 ^ 64 - 1; time_created = 0; parent_hashes = [] };
  blue_score = 1;
  is_blue = true;
}

unfoldable pub init : ℕ → ℕ → Blockchain
unfolding genesis assign insert
init k node_id = record {
  ghostdag_k = k;
  next_block_id = 1;
  node_id_metric = node_id;
  tips = insert 0 [];
  children = [];
  blocks = assign 0 genesis [];
  orphans = [];
  idx_of = assign 0 0 [];
  id_of = 0 ∷ [];
  past = no_bits ∷ [];
  blue = set_bit no_bits 0 ∷ [];
}

-- `blocks.at(id)` and `idx_of_.at(id)`: the map holds the id, or the code throws. Index() asserts it.
abbrev pub block_at : Blockchain → ℕ → Block
block_at c id = at default_block id c.blocks

abbrev pub index_at : Blockchain → ℕ → ℕ
index_at c id = at 0 id c.idx_of

abbrev pub parents_of : Block → List ℕ
parents_of b = b.header.parent_hashes

-- `past_[i]` and `blue_[i]`
abbrev pub past_at : Blockchain → ℕ → BitSet
past_at c i = get_or c.past i no_bits

abbrev pub blue_at : Blockchain → ℕ → BitSet
blue_at c i = get_or c.blue i no_bits

-- The loop over `children.find(id)`, empty where there is no entry.
abbrev pub children_of : Blockchain → ℕ → List ℕ
children_of c id = at [] id c.children

abbrev pub get_dag_width : Blockchain → ℕ
get_dag_width c = length c.tips

abbrev pub has_block : Blockchain → ℕ → Bool
has_block c id = has id c.blocks

abbrev pub is_orphan : Blockchain → ℕ → Bool
is_orphan c id = has id c.orphans

unfoldable pub is_red : Blockchain → ℕ → Bool
is_red c id = elim (find id c.blocks) [ none ↦ false | some b ↦ not b.is_blue ]

-- `for_each([&](size_t i) { out.insert(id_of_[i]); })`
unfoldable pub ids_of : Blockchain → BitSet → List ℕ
ids_of c b = for_each b (λ out i. insert (get_or c.id_of i 0) out) []

unfoldable pub get_past : Blockchain → ℕ → List ℕ
unfolding ids_of
get_past c id = elim (find id c.idx_of) [ none ↦ [] | some i ↦ ids_of c (past_at c i) ]

unfoldable pub blue_set : Blockchain → ℕ → List ℕ
unfolding ids_of
blue_set c id = elim (find id c.idx_of) [ none ↦ [] | some i ↦ ids_of c (blue_at c i) ]

-- Both ids are looked up; false if either is missing.
abbrev tests : Option ℕ → Option ℕ → (ℕ → BitSet) → Bool
tests (some i) (some j) sets = test (sets i) j
tests (some i) none sets = false
tests none m sets = false

unfoldable pub in_blue_set : Blockchain → ℕ → ℕ → Bool
in_blue_set c id member = tests (find id c.idx_of) (find member c.idx_of) (blue_at c)

unfoldable pub in_past : Blockchain → ℕ → ℕ → Bool
in_past c id ancestor = tests (find id c.idx_of) (find ancestor c.idx_of) (past_at c)

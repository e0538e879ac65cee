-- ===== src/Samples.antt =====
-- Chains that the tests and examples share.
use ghostdagsim.Common.{ℕ, List, [], ◌∷◌, foldl}
use ghostdagsim.Block.{Block, default_block}
use ghostdagsim.Chain.State.{Blockchain, init}
use ghostdagsim.Chain.Add.{add_block}

-- A block with an id, its parents and its time.
abbrev pub block : ℕ → List ℕ → ℕ → Block
block id parents time = record default_block {
  header = record { block_id = id; miner_id = 0; time_created = time; parent_hashes = parents };
}

-- 0 ← 1, 0 ← 2, and 3 with both as parents, which arrives first.
unfoldable pub diamond : ℕ → Blockchain
diamond k =
    foldl add_block (init k 0)
      (block 3 (1 ∷ 2 ∷ []) 30 ∷ block 1 (0 ∷ []) 10 ∷ block 2 (0 ∷ []) 20 ∷ [])

unfoldable pub d1 : Blockchain
unfolding diamond
d1 = diamond 1

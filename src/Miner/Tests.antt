-- ===== src/Miner/Tests.antt =====
-- The theorems on the miner at a concrete node.
use ghostdagsim.Common.{◌≡◌, refl, arith, true, min, [], ◌∷◌, length, some}
use ghostdagsim.Common.Maps.{find, assign}
use ghostdagsim.Chain.Add.{parents_known}
use ghostdagsim.Chain.Add.Present.{header_at}
use ghostdagsim.Chain.Add.Rule.{Settled}
use ghostdagsim.Chain.Invariant.{IsChain}
use ghostdagsim.Chain.Init.{init-IsChain}
use ghostdagsim.Chain.State.{init, parents_of}
use ghostdagsim.Mempool.Tests.{m2, first, second, m2-Holds}
use ghostdagsim.Node.Tests.{library, start}
use ghostdagsim.Node.Graphene.{GrapheneNode}
use ghostdagsim.Graphene.Tests.{Table}
use ghostdagsim.Miner.{new_block, mine, select_transactions}
use ghostdagsim.Miner.Blocks.{mine-IsChain}
use ghostdagsim.Miner.Select.{Takes, select_transactions-Takes}

abbrev miner : GrapheneNode Table
miner = record {
  node = start;
  bodies = [];
  graphene_state = [];
  graphene_senders = [];
  graphene_timeouts = [];
}

start-IsChain : IsChain start.blockchain
unfolding start
start-IsChain = init-IsChain 2 1

mine-IsChain_example :
    (parents_of (new_block 5 miner.node) ≡ miner.node.blockchain.tips)
    × (parents_known miner.node.blockchain (new_block 5 miner.node) ≡ true)
    × (header_at
          (new_block 5 miner.node).header.block_id
          (mine library 5 100 1 miner).node.blockchain.blocks
        ≡ some (new_block 5 miner.node).header)
    × IsChain (mine library 5 100 1 miner).node.blockchain
    × Settled (mine library 5 100 1 miner).node.blockchain
unfolding start init new_block find assign
mine-IsChain_example = mine-IsChain library 5 100 1 miner start-IsChain (omega arith) refl

-- One of two transactions, the one with the higher fee.
select_transactions-Takes_example :
    Takes
      (min 1 (length (second ∷ first ∷ [])))
      (second ∷ first ∷ [])
      []
      (select_transactions library.pick 1 1 0 m2)
select_transactions-Takes_example =
    select_transactions-Takes library.pick 1 1 0 m2 (second ∷ first ∷ []) m2-Holds
      (λ n g. omega arith)

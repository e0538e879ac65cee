-- ===== src/Node/Graphene/Tests.antt =====
-- The theorems on messages and on the relay of compact blocks at a concrete node.
use ghostdagsim.Common.{ℕ, ◌≡◌, refl, arith, true, false, not, ◌&&◌, [], ◌∷◌, some, ◌==◌}
use ghostdagsim.Common.Maps.{find, has}
use ghostdagsim.Common.Sets.{insert, erase}
use ghostdagsim.Block.{Block, default_block, insert_tx}
use ghostdagsim.Chain.Invariant.{IsChain}
use ghostdagsim.Chain.Init.{init-IsChain}
use ghostdagsim.Chain.State.{init}
use ghostdagsim.Graphene.Json.{
  deserialize_bloom_filter, serialize_bloom_filter, deserialize_iblt, serialize_iblt,
}
use ghostdagsim.Graphene.Receiver.{
  GrapheneState, success, reconstruct_block, process_incoming_block,
}
use ghostdagsim.Graphene.Tests.{whole, exact, Table, block_txs, mempool}
use ghostdagsim.Node.State.{full_block, graphene_block}
use ghostdagsim.Node.Tests.{library, start}
use ghostdagsim.Node.Graphene.{GrapheneNode, graphene_recovery_timed_out, compact}
use ghostdagsim.Node.Graphene.Pending.{
  IsPending, IsPendingIn, process_message-IsPending, graphene_recovery_timed_out-ends,
}
use ghostdagsim.Node.Graphene.Transfer.{Agrees, compact-Agrees}
use ghostdagsim.Node.Dispatch.{process_message}
use ghostdagsim.Node.Dispatch.Chains.{
  IsChainIn, IsSilentIn, process_message-IsChain, process_message-IsSilent,
}

abbrev state : GrapheneState Table
state = record {
  header = record { block_id = 8; miner_id = 1; time_created = 0; parent_hashes = 0 ∷ [] };
  tx_count = 2;
  candidate_ids = 5 ∷ [];
  diff1 = some (3 ∷ [], []);
  waiting_protocol2 = true;
}

-- A node that waits for the rest of block 8 from peer 11.
abbrev waiting : GrapheneNode Table
waiting = record {
  node = start;
  bodies = [];
  graphene_state = (8, state) ∷ [];
  graphene_senders = (8, 11) ∷ [];
  graphene_timeouts = (8, 10000000000) ∷ [];
}

waiting-IsPending : IsPending waiting
unfolding find
waiting-IsPending = record { senders = λ id. ground arith; timeouts = λ id. ground arith }

abbrev sent_block : Block
sent_block = record default_block { header = state.header; txs = block_txs }

process_message-IsPending_example : IsPendingIn (
    process_message whole exact library 7
      (graphene_block (compact whole exact sent_block (3 ∷ 5 ∷ [], (3 ∷ 5 ∷ [], []), 0)))
      12
      waiting)
process_message-IsPending_example =
    process_message-IsPending whole exact library 7
      (graphene_block (compact whole exact sent_block (3 ∷ 5 ∷ [], (3 ∷ 5 ∷ [], []), 0))) 12 waiting
      waiting-IsPending

graphene_recovery_timed_out-ends_example :
    IsPending (graphene_recovery_timed_out 8 waiting)
    × ((j : ℕ)
        → has j (graphene_recovery_timed_out 8 waiting).graphene_state
          ≡ (not (j == 8) && has j waiting.graphene_state))
unfolding find
graphene_recovery_timed_out-ends_example =
    graphene_recovery_timed_out-ends 8 waiting waiting-IsPending refl

start-IsChain : IsChain start.blockchain
unfolding start
start-IsChain = init-IsChain 2 1

process_message-IsChain_example :
    IsChainIn
      (full_block state.header block_txs)
      waiting.node
      (process_message whole exact library 7 (full_block state.header block_txs) 12 waiting)
unfolding start init
process_message-IsChain_example =
    process_message-IsChain whole exact library 7 (full_block state.header block_txs) 12 waiting
      start-IsChain (omega arith)

abbrev stopped : GrapheneNode Table
stopped = record waiting { node = record start { running = false } }

process_message-IsSilent_example :
    IsSilentIn stopped.node
      (process_message whole exact library 7 (full_block state.header block_txs) 12 stopped)
process_message-IsSilent_example =
    process_message-IsSilent whole exact library 7 (full_block state.header block_txs) 12 stopped
      refl

-- The receiver's mempool has 2 transactions, 1 of them of the block.
compact-Agrees_example :
    Agrees sent_block
      (reconstruct_block whole exact
        (deserialize_bloom_filter exact (serialize_bloom_filter exact (5 ∷ 3 ∷ [])))
        (deserialize_iblt exact (serialize_iblt exact (5 ∷ 3 ∷ [], [])))
        2
        mempool)
      (process_incoming_block whole exact
        (compact whole exact sent_block (5 ∷ 3 ∷ [], (5 ∷ 3 ∷ [], []), 0))
        mempool
        2
        []).1
compact-Agrees_example =
    compact-Agrees whole exact sent_block (5 ∷ 3 ∷ [], (5 ∷ 3 ∷ [], []), 0) mempool 2 []

-- The block is rebuilt.
compact-rebuilt :
    reconstruct_block whole exact (5 ∷ 3 ∷ []) (5 ∷ 3 ∷ [], []) 2 mempool ≡ (success, block_txs)
unfolding reconstruct_block insert erase insert_tx
compact-rebuilt = refl

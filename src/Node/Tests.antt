-- ===== src/Node/Tests.antt =====
-- The theorems on the relay at a concrete node.
use ghostdagsim.Common.{
  ◌+◌, ◌<◌, ◌≡◌, ◌||◌, refl, arith, true, false, List, [], ◌∷◌, ◌++◌, none, some, ◌==◌,
}
use ghostdagsim.Common.Maps.{find, assign}
use ghostdagsim.Block.{Transaction}
use ghostdagsim.Samples.{block}
use ghostdagsim.Chain.State.{init}
use ghostdagsim.Chain.Invariant.{IsChain}
use ghostdagsim.Chain.Init.{init-IsChain}
use ghostdagsim.Mempool.{new}
use ghostdagsim.Node.Known.{no_txs, knows, learn}
use ghostdagsim.Node.Known.Members.{knows-learn}
use ghostdagsim.Node.State.{Node, Library, send}
use ghostdagsim.Node.Sizes.{wire_size_inv}
use ghostdagsim.Node.Transactions.{announce, arm_tx_timeout_timer, handle_inv_transactions}
use ghostdagsim.Node.Timeouts.{process_tx_timeouts}
use ghostdagsim.Node.Timeouts.Ends.{IsArmed, process_tx_timeouts-IsArmed}
use ghostdagsim.Node.Timeouts.Watched.{IsWatched}
use ghostdagsim.Node.Timeouts.Announced.{handle_inv_transactions-IsWatched}
use ghostdagsim.Node.Relay.{handle_block, get_data}
use ghostdagsim.Node.Relay.Blocks.{handle_block-IsChain}
use ghostdagsim.Node.Relay.Asked.{announced, announced-asks_first}

abbrev pub library : Library
library = record {
  hash = λ miner_id tx_id. miner_id + tx_id;
  pick = λ n gen. (0, gen + 1);
  draw_fee = λ gen. (5, gen + 1);
  draw_delay = λ gen. (9, gen + 1);
  no_address = 0;
}

unfoldable pub start : Node
start = record {
  running = true;
  node_id = 1;
  blockchain = init 2 1;
  mempool = new 4;
  peers_addresses = 11 ∷ 12 ∷ [];
  inv_timeout = 100;
  queue_inv = [];
  inv_timeouts = [];
  graphene_enabled = false;
  mempool_size = 4;
  txs_generated = 0;
  generator = 1;
  pending_inv_tx = [];
  inv_batch_event = none;
  next_tx_event = none;
  known_txs = no_txs;
  queue_inv_tx = [];
  tx_timeout_queue = [];
  tx_timeout_event = none;
  sent = [];
}

knows-learn_example :
    knows (learn no_txs 70) 4294967300 ≡ ((70 == 4294967300) || knows no_txs 4294967300)
knows-learn_example = knows-learn no_txs 70 4294967300 (omega arith) (omega arith)

start-IsWatched : IsWatched start
unfolding start find
start-IsWatched = record {
  tracked = λ id req e. absurd (ground arith);
  pending = λ full. absurd (ground arith);
}

-- Two peers announce transaction 70, the second one also 71.
asked : Node
asked =
    handle_inv_transactions 1200 (70 ∷ 71 ∷ []) 12 (handle_inv_transactions 1000 (70 ∷ []) 11 start)

handle_inv_transactions-IsWatched_example : IsWatched (
    handle_inv_transactions 1200
      (70 ∷ 71 ∷ [])
      12
      (handle_inv_transactions 1000 (70 ∷ []) 11 start))
handle_inv_transactions-IsWatched_example =
    handle_inv_transactions-IsWatched 1200 (70 ∷ 71 ∷ []) 12
      (handle_inv_transactions 1000 (70 ∷ []) 11 start)
      (handle_inv_transactions-IsWatched 1000 (70 ∷ []) 11 start start-IsWatched)

abbrev reply : List Transaction
reply = record { tx_id = 71; size_bytes = 522; fee = 3 } ∷ []

asked_timeout : 0 < asked.inv_timeout
unfolding asked handle_inv_transactions announce start knows find assign send arm_tx_timeout_timer
asked_timeout = omega arith

process_tx_timeouts-IsArmed_example :
    (n' : Node) × (process_tx_timeouts library 1150 asked ≡ some n') × IsArmed 1150 n'
process_tx_timeouts-IsArmed_example = process_tx_timeouts-IsArmed library 1150 asked asked_timeout

handle_block-IsChain_example :
    IsChain (handle_block library 50 (block 4 (0 ∷ []) 10) 11 start).blockchain
unfolding start init
handle_block-IsChain_example =
    handle_block-IsChain library 50 (block 4 (0 ∷ []) 10) 11 start (init-IsChain 2 1) (omega arith)

announced-asks_first_example :
    let n' : Node = announced 5 start ((1000, 11) ∷ (1001, 12) ∷ []) in
    (n'.sent
      ≡ start.sent
        ++ record { to = 11; message = get_data start 5; wire_bytes = wire_size_inv } ∷ [])
    × (find 5 n'.inv_timeouts ≡ some (1000 + start.inv_timeout))
    × (find 5 n'.queue_inv ≡ some (11 ∷ 12 ∷ []))
unfolding start init find
announced-asks_first_example = announced-asks_first 5 1000 11 ((1001, 12) ∷ []) start refl refl refl

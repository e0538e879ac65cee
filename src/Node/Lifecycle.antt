-- ===== src/Node/Lifecycle.antt =====
-- The life cycle of the application: StartApplication, StopApplication, HandleAccept, the start and
-- stop of the generation of transactions, and the snapshots of the DAG (node.cc). The listening
-- socket of ns-3 has no state here.
use ghostdagsim.Common.{
  ℕ, ◌+◌, ◌*◌, ◌-◌, ◌^◌, ◌%◌, Bool, true, false, List, [], ◌∷◌, ◌++◌, Option, none, some, length,
  foldl, map, if◌then◌else◌, ◌==◌,
}
use ghostdagsim.Common.Maps.{Map}
use ghostdagsim.Block.{Block}
use ghostdagsim.Chain.State.{get_dag_width}
use ghostdagsim.Mempool
use ghostdagsim.Mempool.{Mempool}
use ghostdagsim.Wire.Receive.{RxFrameState}
use ghostdagsim.Wire.Connections.{Connections, create_peer_socket}
use ghostdagsim.Node.State.{Node, Library}
use ghostdagsim.Node.Transactions.{schedule_next_tx_generation}
use ghostdagsim.Node.Graphene.{GrapheneNode}

-- An interval in nanoseconds; a snapshot interval that is not positive is 0.
pub record Application (I : Type 0) : Type 0 where
  pub relay : GrapheneNode I
  pub connections : Connections
  pub accepted_sockets : List ℕ
  pub rx_state : Map RxFrameState
  pub generate_transactions : Bool
  pub ghostdag_k : ℕ
  pub seed : ℕ
  pub snapshot_interval : ℕ
  pub snapshot_event : Option ℕ

-- What EmitDagSnapshot reports: blocks, blue and red ones, the width and the size of the mempool.
pub record Snapshot : Type 0 where
  pub total : ℕ
  pub blue_count : ℕ
  pub red_count : ℕ
  pub width : ℕ
  pub mempool_size : ℕ

abbrev pub count_blue : ℕ → Block → ℕ
count_blue n b = if b.is_blue then n + 1 else n

-- The seed of a node's generator.
abbrev pub generator_seed : ℕ → ℕ → ℕ
generator_seed node_id seed = (node_id * 2654435761 + seed * 2654435769) % 2 ^ 32

unfoldable pub handle_accept : {I : Type 0} → ℕ → Application I → Application I
handle_accept socket a = record a { accepted_sockets = a.accepted_sockets ++ socket ∷ [] }

unfoldable pub schedule_snapshot : {I : Type 0} → ℕ → Application I → Application I
schedule_snapshot now a =
    if a.snapshot_interval == 0
    then a
    else record a { snapshot_event = some (now + a.snapshot_interval) }

unfoldable pub dag_snapshot : Node → Snapshot
dag_snapshot n =
    let total : ℕ = length n.blockchain.blocks in
    let blue : ℕ = foldl count_blue 0 (map (λ entry. entry.1) n.blockchain.blocks) in
    record {
      total = total;
      blue_count = blue;
      red_count = total - blue;
      width = get_dag_width n.blockchain;
      mempool_size = Mempool.size n.mempool;
    }

unfoldable pub emit_dag_snapshot : {I : Type 0} → ℕ → Application I → Application I × Snapshot
unfolding schedule_snapshot dag_snapshot
emit_dag_snapshot now a = (schedule_snapshot now a, dag_snapshot a.relay.node)

unfoldable pub stop_transaction_generation : Node → Node
stop_transaction_generation n = record n { next_tx_event = none }

unfoldable pub start_transaction_generation : Library → ℕ → Bool → Node → Node
start_transaction_generation library now generate n =
    if generate then schedule_next_tx_generation library now n else n

-- `seeded` is the state of mt19937 for a seed.
unfoldable pub start_application :
    {I : Type 0} → Library → (ℕ → ℕ) → ℕ → Application I → Application I
unfolding schedule_snapshot start_transaction_generation
start_application library seeded now a =
    let n : Node = a.relay.node in
    let started : Node = record n {
      running = true;
      blockchain = record n.blockchain { ghostdag_k = a.ghostdag_k; node_id_metric = n.node_id };
      generator = seeded (generator_seed n.node_id a.seed);
      mempool = Mempool.new n.mempool_size;
    } in
    let running : Connections = record a.connections { running = true } in
    schedule_snapshot now (record a {
      relay = record a.relay {
        node = start_transaction_generation library now a.generate_transactions started;
      };
      connections = foldl (λ c peer. create_peer_socket peer c) running n.peers_addresses;
    })

-- The entries of the transfers of compact blocks stay; only their timeouts are cancelled.
unfoldable pub stop_application : {I : Type 0} → Application I → Application I
unfolding stop_transaction_generation
stop_application a =
    let stopped : Node = record a.relay.node {
      running = false;
      tx_timeout_event = none;
      inv_batch_event = none;
      inv_timeouts = [];
    } in
    record a {
      relay = record a.relay { node = stop_transaction_generation stopped; graphene_timeouts = [] };
      connections = record a.connections {
        running = false;
        socket_to_peer = [];
        peers_sockets = [];
        pending_messages = [];
        tx_states = [];
      };
      accepted_sockets = [];
      rx_state = [];
      snapshot_event = none;
    }

-- ===== src/Node/Graphene.antt =====
-- The relay of compact blocks: HandleReqRelayBlock and the Graphene handlers of node.cc.
pub mod Pending
pub mod Transfer
pub mod Tests
use ghostdagsim.Common.{
  ℕ, ◌+◌, ◌*◌, ◌%◌, ◌^◌, bit_xor, Bool, true, false, not, ◌&&◌, ◌||◌, List, [], ◌∷◌, Option, none,
  some, length, if◌then◌else◌, foldl, ◌==◌, is_some,
}
use ghostdagsim.Common.Maps.{Map, find, assign, erase, has}
use ghostdagsim.Block.{
  Transaction, TxSet, insert_tx, tx_checksum, BodyTable, intern, Block, default_block,
}
use ghostdagsim.Chain.State.{Blockchain, has_block, is_orphan}
use ghostdagsim.Mempool
use ghostdagsim.Mempool.{get_all_entries, size, is_valid, item_at}
use ghostdagsim.Graphene.Numbers.{Numbers}
use ghostdagsim.Graphene.Filters.{Filters}
use ghostdagsim.Graphene.Json.{
  GrapheneBlock, RecoveryRequest, RecoveryResponse, serialize_bloom_filter, serialize_iblt,
  deserialize_bloom_filter,
}
use ghostdagsim.Graphene.Sender.{build_sender_components, second_iblt}
use ghostdagsim.Graphene.Receiver.{
  GrapheneState, Incoming, rebuilt, recovering, process_incoming_block, bare_tx,
}
use ghostdagsim.Graphene.Receiver
use ghostdagsim.Graphene.Recovery.{Recovered, failed, recovered, process_recovery_response}
use ghostdagsim.Graphene.Recovery
use ghostdagsim.Node.Known.{TxIdSet, id_from_tx_id, learn}
use ghostdagsim.Node.State.{
  Node, Message, req_relay_block, full_block, graphene_block, graphene_recovery_request,
  graphene_recovery_response, Library, send,
}
use ghostdagsim.Node.Sizes.{
  message_header_size, headers_size, parent_hash_size, transaction_size, wire_size_inv,
  wire_size_block,
}
use ghostdagsim.Node.Relay.{handle_block}

-- A node with its transfers of compact blocks, and the table of BlockBodyStore.
pub record GrapheneNode (I : Type 0) : Type 0 where
  pub node : Node
  pub bodies : BodyTable
  pub graphene_state : Map (GrapheneState I)
  pub graphene_senders : Map ℕ
  pub graphene_timeouts : Map ℕ

-- Seconds(10)
abbrev pub graphene_recovery_timeout : ℕ
graphene_recovery_timeout = 10000000000

-- The block with an id, in the DAG or among the orphans.
unfoldable pub known_block : Blockchain → ℕ → Option Block
known_block c id = if has_block c id then find id c.blocks else find id c.orphans

-- A request for the full block, after a transfer that failed.
abbrev pub ask_full_block : ℕ → ℕ → Node → Node
ask_full_block id from n = send n from (req_relay_block id (some true) none) wire_size_inv

-- The entries of one transfer are erased.
abbrev pub forget : {I : Type 0} → ℕ → GrapheneNode I → GrapheneNode I
forget id s = record s {
  graphene_state = erase id s.graphene_state;
  graphene_senders = erase id s.graphene_senders;
  graphene_timeouts = erase id s.graphene_timeouts;
}

-- GrapheneRecoveryTimeout, whose event has fired.
unfoldable pub graphene_recovery_timed_out : {I : Type 0} → ℕ → GrapheneNode I → GrapheneNode I
graphene_recovery_timed_out id s =
    let c : Blockchain = s.node.blockchain in
    elim (find id s.graphene_state) [
      | none ↦ s
      | some state ↦
          if has_block c id || is_orphan c id
          then forget id s
          else elim (find id s.graphene_senders) [
            | none ↦ record s {
              graphene_state = erase id s.graphene_state;
              graphene_timeouts = erase id s.graphene_timeouts;
            }
            | some from ↦ forget id (record s { node = ask_full_block id from s.node })
          ]
    ]

module _ {B I : Type 0} (d : Numbers) (f : Filters B I) where
  unfoldable pub bloom_wire_size : ℕ → ℕ → ℕ
  bloom_wire_size n_items fpr =
      if (n_items == 0) || (d.at_most fpr (d.of_nat 0) || d.at_most (d.of_nat 1) fpr)
      then 0
      else d.truncate (
          d.ceil (
            d.div (d.mul (d.neg (d.of_nat n_items)) (d.log fpr))
              (d.mul (d.of_nat 8) (d.decimal 4804530139182014 16))))
        % 2 ^ 32

  abbrev pub iblt_wire_size : I → ℕ
  iblt_wire_size i = 12 * f.hash_table_size i % 2 ^ 32

  unfoldable pub wire_size_graphene_block : ℕ → ℕ → ℕ → I → ℕ
  unfolding bloom_wire_size
  wire_size_graphene_block n_parents n_txs fpr i =
      (message_header_size
        + headers_size
        + parent_hash_size * n_parents
        + bloom_wire_size n_txs fpr
        + iblt_wire_size i)
      % 2 ^ 32

  unfoldable pub wire_size_recovery_request : ℕ → ℕ → ℕ
  unfolding bloom_wire_size
  wire_size_recovery_request z fpr_r = (message_header_size + bloom_wire_size z fpr_r) % 2 ^ 32

  unfoldable pub wire_size_recovery_response : I → ℕ → ℕ
  wire_size_recovery_response i n_missing =
      (message_header_size + iblt_wire_size i + transaction_size * n_missing) % 2 ^ 32

  abbrev pub send_full_block : Block → ℕ → Node → Node
  send_full_block b from n = send n from (full_block b.header b.txs) (wire_size_block b)

  -- The message of a block and its components.
  abbrev pub compact : Block → B × I × ℕ → GrapheneBlock
  compact b (bf, iblt, fpr) = record {
    block_id = b.header.block_id;
    miner_id = b.header.miner_id;
    time_created = b.header.time_created;
    parent_hashes = b.header.parent_hashes;
    tx_count = length b.txs;
    bloom_filter = serialize_bloom_filter f bf;
    iblt = serialize_iblt f iblt;
    tx_checksum = tx_checksum b.txs;
    fpr = f.effective_fpp bf;
  }

  abbrev pub send_graphene_block : Block → B × I × ℕ → ℕ → Node → Node
  send_graphene_block b (bf, iblt, fpr) from n =
      send n from (graphene_block (compact b (bf, iblt, fpr)))
        (wire_size_graphene_block (length b.header.parent_hashes) (length b.txs) fpr iblt)

  unfoldable pub handle_req_relay_block : ℕ → Bool → ℕ → ℕ → Node → Node
  handle_req_relay_block id graphene_failed from receiver_mempool_count n =
      elim (known_block n.blockchain id) [
        | none ↦ n
        | some b ↦ elim (n.graphene_enabled && not graphene_failed) [
          | false ↦ send_full_block b from n
          | true ↦ elim (build_sender_components d f b.txs receiver_mempool_count) [
            | none ↦ send_full_block b from n
            | some components ↦ send_graphene_block b components from n
          ]
        ]
      ]

  unfoldable pub handle_graphene_recovery_request : RecoveryRequest → ℕ → Node → Node
  handle_graphene_recovery_request req from n = elim (known_block n.blockchain req.block_id) [
    | none ↦ n
    | some b ↦
        let (iblt, missing) : I × List ℕ =
          second_iblt d f b.txs (deserialize_bloom_filter f req.receiver_bloom) req.y_star req.b in
        send n from
          (graphene_recovery_response (record {
            block_id = req.block_id;
            tx_checksum = tx_checksum b.txs;
            iblt = serialize_iblt f iblt;
            missing = missing;
          }))
          (wire_size_recovery_response iblt (length missing))
  ]

  module _ (library : Library) where
    -- A recovered transaction, with the fee that the mempool has for it.
    abbrev pub with_fee : Node → ℕ → Transaction
    with_fee n id =
        let it = Mempool.find library.hash n.mempool (id_from_tx_id id) id in
        if not (is_valid it) then bare_tx id else elim (item_at n.mempool it) [
          | none ↦ bare_tx id
          | some t ↦ record (bare_tx id) { fee = t.fee }
        ]

    -- A compact block that is new, by what was made of it; `none` is the failed assertion on the
    -- checksum, here and below.
    unfoldable pub take_incoming :
        ℕ → ℕ → ℕ → GrapheneNode I → BodyTable × Incoming I → Option (GrapheneNode I)
    take_incoming now id from s (bodies, Receiver.aborted) = none
    take_incoming now id from s (bodies, rebuilt b) =
        some (record s { node = handle_block library now b from s.node; bodies = bodies })
    take_incoming now id from s (bodies, recovering state request z fpr_r) = some (record s {
      node =
          send s.node from (graphene_recovery_request request) (wire_size_recovery_request z fpr_r);
      graphene_state = assign id state s.graphene_state;
      graphene_senders = assign id from s.graphene_senders;
      graphene_timeouts = assign id (now + graphene_recovery_timeout) s.graphene_timeouts;
    })

    unfoldable pub handle_graphene_block :
        ℕ → GrapheneBlock → ℕ → GrapheneNode I → Option (GrapheneNode I)
    unfolding take_incoming
    handle_graphene_block now g from s =
        let n : Node = s.node in
        let id : ℕ = g.block_id in
        if has_block n.blockchain id || (is_orphan n.blockchain id || has id s.graphene_state)
        then some s
        else take_incoming now id from s
            (process_incoming_block d f g (get_all_entries n.mempool) (size n.mempool) s.bodies)

    -- The block of the recovered ids.
    unfoldable pub take_recovered :
        ℕ → ℕ → GrapheneState I → List ℕ → ℕ → GrapheneNode I → GrapheneNode I
    take_recovered now id state ids from s =
        let n : Node = s.node in
        let txs : TxSet = foldl (λ t i. insert_tx (with_fee n i) t) [] ids in
        let (bodies, body) : BodyTable × TxSet = intern state.header.block_id txs s.bodies in
        let known : Node = record n { known_txs = foldl learn n.known_txs ids } in
        forget id (record s {
          node =
              handle_block library now (record default_block { header = state.header; txs = body })
                from known;
          bodies = bodies;
        })

    unfoldable pub take_response :
        ℕ → ℕ → GrapheneState I → ℕ → GrapheneNode I → Option Recovered → Option (GrapheneNode I)
    unfolding take_recovered
    take_response now id state from s none = none
    take_response now id state from s (some Recovery.aborted) = none
    take_response now id state from s (some failed) =
        some (forget id (record s { node = ask_full_block id from s.node }))
    take_response now id state from s (some (recovered ids)) =
        some (take_recovered now id state ids from s)

    unfoldable pub handle_graphene_recovery_response :
        ℕ → RecoveryResponse → ℕ → GrapheneNode I → Option (GrapheneNode I)
    unfolding take_response
    handle_graphene_recovery_response now resp from s = elim (find resp.block_id s.graphene_state) [
      | none ↦ some s
      | some state ↦
          take_response now resp.block_id state from s (process_recovery_response d f resp state)
    ]

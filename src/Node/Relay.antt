-- ===== src/Node/Relay.antt =====
-- The relay of blocks: announcements, requests with timeouts, and blocks that arrive. Metrics events
-- are left out.
pub mod Blocks
pub mod Asked
use ghostdagsim.Common.{
  ℕ, ◌+◌, Bool, true, false, ◌||◌, List, [], ◌∷◌, ◌++◌, Option, none, some, length, get_or,
  if◌then◌else◌, foldl, ◌==◌,
}
use ghostdagsim.Common.Maps.{Map, find, assign, erase, at}
use ghostdagsim.Block.{Transaction, Block, default_block}
use ghostdagsim.Chain.State.{Blockchain, has_block, is_orphan}
use ghostdagsim.Chain.Add.{add_block}
use ghostdagsim.Chain.Colours.{snapshot_blue_flags, newly_blue}
use ghostdagsim.Mempool
use ghostdagsim.Mempool.{Mempool, is_valid, size, erase_transaction}
use ghostdagsim.Node.Known.{TxIdSet, id_from_tx_id, learn}
use ghostdagsim.Node.State.{Node, Message, inv_relay_block, req_relay_block, Library, send}
use ghostdagsim.Node.Sizes.{wire_size_inv}
use ghostdagsim.Node.Timeouts.{swap_front}

-- `m_queue_inv[block_hash]`
abbrev pub announcers_of : Node → ℕ → List ℕ
announcers_of n id = at [] id n.queue_inv

abbrev pub get_data : Node → ℕ → Message
get_data n id = req_relay_block id none (if n.graphene_enabled then some (size n.mempool) else none)

-- The announcement of a block that is wanted; the list is that of its announcers so far.
abbrev pub hear : ℕ → ℕ → ℕ → Node → List ℕ → Node
hear now block_id from n [] =
    let queued : Node = record n { queue_inv = assign block_id (from ∷ []) n.queue_inv } in
    let asked : Node = send queued from (get_data n block_id) wire_size_inv in
    record asked { inv_timeouts = assign block_id (now + n.inv_timeout) n.inv_timeouts }
hear now block_id from n (a ∷ as') = record n {
  queue_inv = assign block_id ((a ∷ as') ++ from ∷ []) n.queue_inv;
}

unfoldable pub handle_inv_relay_block : ℕ → ℕ → ℕ → Node → Node
handle_inv_relay_block now block_id from n =
    if has_block n.blockchain block_id || is_orphan n.blockchain block_id
    then n
    else hear now block_id from n (announcers_of n block_id)

abbrev pub broadcast_inv_block : ℕ → ℕ → Node → Node
broadcast_inv_block block_id exclude n =
    foldl
      (λ n' peer.
        if peer == exclude then n' else send n' peer (inv_relay_block block_id) wire_size_inv)
      n n.peers_addresses

-- The mempool without one transaction, if it is there.
abbrev pub evict : (ℕ → ℕ → ℕ) → Mempool → Transaction → Mempool
evict hash m tx =
    let it = Mempool.find hash m (id_from_tx_id tx.tx_id) tx.tx_id in
    if is_valid it then erase_transaction m it else m

module _ (library : Library) where
  -- The announcer that was asked is dropped; another one is asked, or the block is given up.
  unfoldable pub inv_timeout_expired : ℕ → ℕ → Node → Node
  inv_timeout_expired now block_id n = elim (find block_id n.queue_inv) [
    | none ↦ n
    | some [] ↦ n
    | some (asked ∷ []) ↦ record n {
      queue_inv = erase block_id n.queue_inv;
      inv_timeouts = erase block_id n.inv_timeouts;
    }
    | some (asked ∷ a ∷ as') ↦
        let (i, generator) : ℕ × ℕ = library.pick (length as') n.generator in
        let announcers : List ℕ = swap_front i a as' in
        let asked_again : Node =
          send
            (record n { generator = generator; queue_inv = assign block_id announcers n.queue_inv })
            (get_or announcers 0 a) (get_data n block_id) wire_size_inv in
        record asked_again { inv_timeouts = assign block_id (now + n.inv_timeout) n.inv_timeouts }
  ]

  -- The blocks that have become blue take their transactions out of the mempool.
  unfoldable pub evict_blue : Blockchain → List ℕ → Mempool → Mempool
  evict_blue c [] m = m
  evict_blue c (id ∷ ids) m =
      evict_blue c ids (foldl (evict library.hash) m (at default_block id c.blocks).txs)

  -- A block that is neither in the DAG nor an orphan.
  unfoldable pub take_block : ℕ → Block → ℕ → Node → Node
  unfolding evict_blue
  take_block now b from n =
      let id : ℕ = b.header.block_id in
      let chain : Blockchain =
        add_block n.blockchain (record b { time_received = now; received_from = from }) in
      broadcast_inv_block id from (record n {
        known_txs = foldl (λ s tx. learn s tx.tx_id) n.known_txs b.txs;
        inv_timeouts = erase id n.inv_timeouts;
        queue_inv = erase id n.queue_inv;
        blockchain = chain;
        mempool = evict_blue chain (newly_blue chain (snapshot_blue_flags n.blockchain)) n.mempool;
      })

  unfoldable pub handle_block : ℕ → Block → ℕ → Node → Node
  unfolding take_block
  handle_block now b from n =
      let id : ℕ = b.header.block_id in
      if has_block n.blockchain id || is_orphan n.blockchain id then n else take_block now b from n

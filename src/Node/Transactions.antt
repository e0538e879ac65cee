-- ===== src/Node/Transactions.antt =====
-- The relay of transactions: announcements, requests with timeouts, and replies.
use ghostdagsim.Common.{
  ℕ, ◌+◌, ◌*◌, ◌%◌, ◌^◌, max, bit_or, not, List, [], ◌∷◌, ◌++◌, none, some, length, if◌then◌else◌,
  foldl, ltb, leb, ◌==◌, is_some,
}
use ghostdagsim.Common.Maps.{assign, erase, at}
use ghostdagsim.Block.{Transaction}
use ghostdagsim.Mempool
use ghostdagsim.Mempool.{HtabItem, is_valid, item_at, size}
use ghostdagsim.Node.Known.{id_from_tx_id, knows, learn}
use ghostdagsim.Node.State.{
  Node, inv_transactions, req_transactions, transactions, TxRequest, Library, send,
}
use ghostdagsim.Node.Sizes.{wire_size_tx_inv, wire_size_txs}

abbrev pub inv_batch_interval : ℕ
inv_batch_interval = 100000000

-- `m_queue_inv_tx[tx_id]`
abbrev pub request : Node → ℕ → TxRequest
request n tx_id = at (record { announcers = []; deadline = 0 }) tx_id n.queue_inv_tx

-- One id of an announcement, with the ids that are wanted so far.
unfoldable pub announce : ℕ → ℕ → Node × List ℕ → ℕ → Node × List ℕ
announce now from (n, wanted) tx_id =
    if knows n.known_txs tx_id then (n, wanted) else elim (request n tx_id).announcers [
      | [] ↦ (
        record n {
          queue_inv_tx =
              assign tx_id (record { announcers = from ∷ []; deadline = now + n.inv_timeout })
                n.queue_inv_tx;
          tx_timeout_queue = n.tx_timeout_queue ++ (now + n.inv_timeout, tx_id) ∷ [];
        },
        wanted ++ tx_id ∷ [],
      )
      | a ∷ as' ↦ (
        record n {
          queue_inv_tx =
              assign tx_id
                (record {
                  announcers = (a ∷ as') ++ from ∷ [];
                  deadline = (request n tx_id).deadline;
                })
                n.queue_inv_tx;
        },
        wanted,
      )
    ]

-- A negative delay is none.
unfoldable pub arm_tx_timeout_timer : ℕ → Node → Node
arm_tx_timeout_timer now n = elim n.tx_timeout_queue [
  | [] ↦ n
  | entry ∷ entries ↦
      if is_some n.tx_timeout_event
      then n
      else record n { tx_timeout_event = some (max now entry.0) }
]

abbrev pub ask : ℕ → ℕ → Node × List ℕ → Node
ask now from (n, []) = n
ask now from (n, tx_id ∷ wanted) =
    send (arm_tx_timeout_timer now n) from (req_transactions (tx_id ∷ wanted))
      (wire_size_tx_inv (length (tx_id ∷ wanted)))

unfoldable pub handle_inv_transactions : ℕ → List ℕ → ℕ → Node → Node
unfolding announce
handle_inv_transactions now tx_ids from n = ask now from (foldl (announce now from) (n, []) tx_ids)

-- `static_cast<uint32_t>(m_average_transaction_size)`
abbrev pub average_transaction_size : ℕ
average_transaction_size = 522

module _ (library : Library) where
  -- The transactions among the requested ones that are in the mempool.
  pub requested : Node → List ℕ → List Transaction
  requested n [] = []
  requested n (tx_id ∷ tx_ids) =
      let rest = requested n tx_ids in
      let it = Mempool.find library.hash n.mempool (id_from_tx_id tx_id) tx_id in
      if not (is_valid it) then rest else elim (item_at n.mempool it) [
        | none ↦ rest
        | some t ↦
            record { tx_id = t.tx_id; size_bytes = average_transaction_size; fee = t.fee } ∷ rest
      ]

  unfoldable pub handle_req_transactions : List ℕ → ℕ → Node → Node
  unfolding requested
  handle_req_transactions tx_ids from n = elim (requested n tx_ids) [
    | [] ↦ n
    | t ∷ ts ↦ send n from (transactions (t ∷ ts)) (wire_size_txs (length (t ∷ ts)))
  ]

  -- One transaction of a reply.
  unfoldable pub accept : Node → Transaction → Node
  accept n tx =
      let asked : Node = record n { queue_inv_tx = erase tx.tx_id n.queue_inv_tx } in
      if knows n.known_txs tx.tx_id
      then asked
      else (let known : Node = record asked { known_txs = learn n.known_txs tx.tx_id } in
          if leb n.mempool_size (size n.mempool)
          then known
          else (let (fee, generator) : ℕ × ℕ =
                if ltb 0 tx.fee then (tx.fee, n.generator) else library.draw_fee n.generator in
              record known {
                generator = generator;
                mempool =
                    (Mempool.insert library.hash n.mempool (id_from_tx_id tx.tx_id) tx.tx_id fee).0;
                pending_inv_tx = n.pending_inv_tx ++ tx.tx_id ∷ [];
              }))

  -- The batch is sent later, unless that is planned already.
  abbrev pub plan_batch : ℕ → ℕ → Node → Node
  plan_batch now exclude n = elim n.pending_inv_tx [
    | [] ↦ n
    | tx_id ∷ tx_ids ↦
        if is_some n.inv_batch_event
        then n
        else record n { inv_batch_event = some (now + inv_batch_interval, exclude) }
  ]

  unfoldable pub handle_transactions : ℕ → List Transaction → ℕ → Node → Node
  unfolding accept
  handle_transactions now txs from n = plan_batch now from (foldl accept n txs)

  -- ScheduleNextTxGeneration
  abbrev pub schedule_next_tx_generation : ℕ → Node → Node
  schedule_next_tx_generation now n =
      let (delay, generator) : ℕ × ℕ = library.draw_delay n.generator in
      record n { generator = generator; next_tx_event = some (now + delay) }

  -- The id is of this node and a new sequence number.
  unfoldable pub generate_transaction : ℕ → Node → Node
  generate_transaction now n =
      let tx_id : ℕ = bit_or (n.node_id * 2 ^ 32 % 2 ^ 64) n.txs_generated in
      let (fee, generator) : ℕ × ℕ = library.draw_fee n.generator in
      let drawn : Node = record n { generator = generator } in
      let made : Node =
        if ltb (size n.mempool) n.mempool_size
        then plan_batch now library.no_address (record drawn {
          mempool = (Mempool.insert library.hash n.mempool n.node_id tx_id fee).0;
          known_txs = learn n.known_txs tx_id;
          txs_generated = n.txs_generated + 1;
          pending_inv_tx = n.pending_inv_tx ++ tx_id ∷ [];
        })
        else drawn in
      schedule_next_tx_generation now made

-- BroadcastInvTransactions: every peer but `exclude`, in the order of the list.
unfoldable pub broadcast_inv_transactions : List ℕ → ℕ → Node → Node
broadcast_inv_transactions [] exclude n = n
broadcast_inv_transactions (tx_id ∷ tx_ids) exclude n =
    foldl
      (λ n' peer.
        if peer == exclude
        then n'
        else send n' peer (inv_transactions (tx_id ∷ tx_ids))
            (wire_size_tx_inv (length (tx_id ∷ tx_ids))))
      n n.peers_addresses

-- The event that plan_batch has planned has fired.
unfoldable pub flush_inv_batch : ℕ → Node → Node
unfolding broadcast_inv_transactions
flush_inv_batch exclude n =
    broadcast_inv_transactions n.pending_inv_tx exclude
      (record n { pending_inv_tx = []; inv_batch_event = none })

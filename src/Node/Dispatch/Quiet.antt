-- ===== src/Node/Dispatch/Quiet.antt =====
-- The handlers of messages that carry no block: they leave the chain alone, and on a node that was
-- stopped they send nothing.
use ghostdagsim.Common.{
  ℕ, ◌≡◌, refl, ◌∙◌, arith, false, ◌||◌, List, [], ◌∷◌, foldl, leb, is_some, Bool-cases, inl, inr,
}
use ghostdagsim.Block.{Transaction}
use ghostdagsim.Mempool.{size}
use ghostdagsim.Chain.State.{has_block, is_orphan}
use ghostdagsim.Node.Known.{knows}
use ghostdagsim.Node.State.{Node, Message, Library, send, send_lem}
use ghostdagsim.Node.Transactions.{
  request, announce, arm_tx_timeout_timer, ask, handle_inv_transactions, requested,
  handle_req_transactions, accept, plan_batch, handle_transactions,
}
use ghostdagsim.Node.Relay.{announcers_of, hear, handle_inv_relay_block}

pub record Quiet (n n' : Node) : Type 0 where
  pub chain : n'.blockchain ≡ n.blockchain
  pub running : n'.running ≡ n.running
  pub silent : n.running ≡ false → n'.sent ≡ n.sent

pub Quiet-refl : (n : Node) → Quiet n n
Quiet-refl n = record { chain = refl; running = refl; silent = λ _. refl }

pub Quiet-trans : (a b c : Node) → Quiet a b → Quiet b c → Quiet a c
Quiet-trans a b c p q = record {
  chain = q.chain ∙ p.chain;
  running = q.running ∙ p.running;
  silent = λ stopped. q.silent (p.running ∙ stopped) ∙ p.silent stopped;
}

pub send-Quiet : (n : Node) (to : ℕ) (m : Message) (w : ℕ) → Quiet n (send n to m w)
send-Quiet n to m w =
    rw (send_lem n to m w)
      (record { chain = refl; running = refl; silent = λ stopped. ground arith })

hear-Quiet : (now id from : ℕ) (n : Node) (as' : List ℕ) → Quiet n (hear now id from n as')
hear-Quiet now id from n [] =
    let q = send-Quiet _ from _ _ in
    record { chain = q.chain; running = q.running; silent = q.silent }
hear-Quiet now id from n (a ∷ as') = record { chain = refl; running = refl; silent = λ _. refl }

pub handle_inv_relay_block-Quiet :
    (now id from : ℕ) (n : Node) → Quiet n (handle_inv_relay_block now id from n)
unfolding handle_inv_relay_block
handle_inv_relay_block-Quiet now id from n =
    elim (Bool-cases (has_block n.blockchain id || is_orphan n.blockchain id)) [
      | inl known ↦ rw (handle_inv_relay_block, known) (Quiet-refl n)
      | inr new ↦ rw (handle_inv_relay_block, new) (hear-Quiet now id from n (announcers_of n id))
    ]

announce-Quiet :
    (now from : ℕ) (n : Node) (wanted : List ℕ) (tx_id : ℕ)
    → Quiet n (announce now from (n, wanted) tx_id).0
unfolding announce
announce-Quiet now from n wanted tx_id = elim (Bool-cases (knows n.known_txs tx_id)) [
  | inl known ↦ rw (announce, known) (Quiet-refl n)
  | inr new ↦ by_announcers (request n tx_id).announcers refl new
]
  where
    by_announcers :
        (as' : List ℕ)
        → (request n tx_id).announcers ≡ as'
        → knows n.known_txs tx_id ≡ false
        → Quiet n (announce now from (n, wanted) tx_id).0
    by_announcers [] e new =
        rw (announce, new, e) (record { chain = refl; running = refl; silent = λ _. refl })
    by_announcers (a ∷ as') e new =
        rw (announce, new, e) (record { chain = refl; running = refl; silent = λ _. refl })

announce_each-Quiet :
    (now from : ℕ) (ids : List ℕ) (n : Node) (wanted : List ℕ)
    → Quiet n (foldl (announce now from) (n, wanted) ids).0
announce_each-Quiet now from [] n wanted = Quiet-refl n
announce_each-Quiet now from (id ∷ ids) n wanted =
    let (n', wanted') : Node × List ℕ = announce now from (n, wanted) id in
    Quiet-trans n n' _ (announce-Quiet now from n wanted id)
      (announce_each-Quiet now from ids n' wanted')

arm_tx_timeout_timer-Quiet : (now : ℕ) (n : Node) → Quiet n (arm_tx_timeout_timer now n)
unfolding arm_tx_timeout_timer
arm_tx_timeout_timer-Quiet now n = by_queue n.tx_timeout_queue refl
  where
    by_queue : (q : List (ℕ × ℕ)) → n.tx_timeout_queue ≡ q → Quiet n (arm_tx_timeout_timer now n)
    by_queue [] e =
        rw (arm_tx_timeout_timer, e) (record { chain = refl; running = refl; silent = λ _. refl })
    by_queue (entry ∷ entries) e = elim (Bool-cases (is_some n.tx_timeout_event)) [
      | inl armed ↦
          rw (arm_tx_timeout_timer, e, armed)
            (record { chain = refl; running = refl; silent = λ _. refl })
      | inr idle ↦
          rw (arm_tx_timeout_timer, e, idle)
            (record { chain = refl; running = refl; silent = λ _. refl })
    ]

ask-Quiet : (now from : ℕ) (n : Node) (wanted : List ℕ) → Quiet n (ask now from (n, wanted))
ask-Quiet now from n [] = Quiet-refl n
ask-Quiet now from n (id ∷ wanted) =
    Quiet-trans n (arm_tx_timeout_timer now n) _ (arm_tx_timeout_timer-Quiet now n)
      (send-Quiet _ from _ _)

pub handle_inv_transactions-Quiet :
    (now : ℕ) (ids : List ℕ) (from : ℕ) (n : Node)
    → Quiet n (handle_inv_transactions now ids from n)
unfolding handle_inv_transactions
handle_inv_transactions-Quiet now ids from n =
    let (n', wanted) : Node × List ℕ = foldl (announce now from) (n, []) ids in
    Quiet-trans n n' _ (announce_each-Quiet now from ids n []) (ask-Quiet now from n' wanted)

module _ (library : Library) where
  pub handle_req_transactions-Quiet :
      (ids : List ℕ) (from : ℕ) (n : Node) → Quiet n (handle_req_transactions library ids from n)
  unfolding handle_req_transactions
  handle_req_transactions-Quiet ids from n = by_found (requested library n ids) refl
    where
      by_found :
          (ts : List Transaction)
          → requested library n ids ≡ ts
          → Quiet n (handle_req_transactions library ids from n)
      by_found [] e = rw (handle_req_transactions, e) (Quiet-refl n)
      by_found (t ∷ ts) e = rw (handle_req_transactions, e) (send-Quiet n from _ _)

  accept-Quiet : (n : Node) (t : Transaction) → Quiet n (accept library n t)
  unfolding accept
  accept-Quiet n t = elim (Bool-cases (knows n.known_txs t.tx_id)) [
    | inl known ↦ rw (accept, known) (record { chain = refl; running = refl; silent = λ _. refl })
    | inr new ↦ elim (Bool-cases (leb n.mempool_size (size n.mempool))) [
      | inl full ↦
          rw (accept, new, full) (record { chain = refl; running = refl; silent = λ _. refl })
      | inr room ↦
          rw (accept, new, room) (record { chain = refl; running = refl; silent = λ _. refl })
    ]
  ]

  accept_each-Quiet : (ts : List Transaction) (n : Node) → Quiet n (foldl (accept library) n ts)
  accept_each-Quiet [] n = Quiet-refl n
  accept_each-Quiet (t ∷ ts) n =
      Quiet-trans n (accept library n t) _ (accept-Quiet n t)
        (accept_each-Quiet ts (accept library n t))

  plan_batch-Quiet : (now exclude : ℕ) (n : Node) → Quiet n (plan_batch library now exclude n)
  plan_batch-Quiet now exclude n = by_pending n.pending_inv_tx refl
    where
      by_pending :
          (ids : List ℕ) → n.pending_inv_tx ≡ ids → Quiet n (plan_batch library now exclude n)
      by_pending [] e = rw e (record { chain = refl; running = refl; silent = λ _. refl })
      by_pending (id ∷ ids) e = elim (Bool-cases (is_some n.inv_batch_event)) [
        | inl planned ↦
            rw (e, planned) (record { chain = refl; running = refl; silent = λ _. refl })
        | inr idle ↦ rw (e, idle) (record { chain = refl; running = refl; silent = λ _. refl })
      ]

  pub handle_transactions-Quiet :
      (now : ℕ) (ts : List Transaction) (from : ℕ) (n : Node)
      → Quiet n (handle_transactions library now ts from n)
  unfolding handle_transactions
  handle_transactions-Quiet now ts from n =
      Quiet-trans n (foldl (accept library) n ts) _ (accept_each-Quiet ts n)
        (plan_batch-Quiet now from _)

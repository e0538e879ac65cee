-- ===== src/Node/Timeouts.antt =====
-- The timer of the transaction requests: ProcessTxTimeouts of node.cc. A request that is not answered
-- in time is sent to another announcer, or given up.
pub mod Ends
pub mod Tracked
pub mod Rule
pub mod Fate
pub mod Asked
pub mod Watched
pub mod Announced
pub mod Replies
use ghostdagsim.Common.{
  ℕ, zero, suc, ◌+◌, Bool, not, List, [], ◌∷◌, ◌++◌, Option, none, some, length, get_or, set,
  if◌then◌else◌, ltb, ◌==◌,
}
use ghostdagsim.Common.Maps.{find, assign, erase}
use ghostdagsim.Node.State.{Node, req_transactions, TxRequest, Library, send}
use ghostdagsim.Node.Sizes.{wire_size_tx_inv}
use ghostdagsim.Node.Transactions.{arm_tx_timeout_timer}

-- `announcers` without its first element, where another one may be swapped to the front.
abbrev pub swap_front : ℕ → ℕ → List ℕ → List ℕ
swap_front i a as' = set (set (a ∷ as') 0 (get_or (a ∷ as') i a)) i a

module _ (library : Library) where
  -- The request whose deadline is at the front of the queue; `n` has it taken out.
  unfoldable pub expire : ℕ → ℕ → TxRequest → Node → Node
  expire now tx_id req n = elim req.announcers [
    | [] ↦ n
    | asked ∷ [] ↦ record n { queue_inv_tx = erase tx_id n.queue_inv_tx }
    | asked ∷ a ∷ as' ↦
        let (i, generator) : ℕ × ℕ = library.pick (length as') n.generator in
        let announcers : List ℕ = swap_front i a as' in
        let asked_again : Node =
          send (record n { generator = generator }) (get_or announcers 0 a)
            (req_transactions (tx_id ∷ [])) (wire_size_tx_inv 1) in
        record asked_again {
          queue_inv_tx =
              assign tx_id (record { announcers = announcers; deadline = now + n.inv_timeout })
                n.queue_inv_tx;
          tx_timeout_queue = n.tx_timeout_queue ++ (now + n.inv_timeout, tx_id) ∷ [];
        }
  ]

  -- One entry of the queue, if it is not stale.
  unfoldable pub process_entry : ℕ → ℕ → ℕ → Node → Node
  unfolding expire
  process_entry now deadline tx_id n = elim (find tx_id n.queue_inv_tx) [
    | none ↦ n
    | some req ↦ if not (req.deadline == deadline) then n else expire now tx_id req n
  ]

  -- The `while` loop; `none`: the rounds ran out. `n` is the node without its queue.
  unfoldable pub process_loop : ℕ → ℕ → Node → Option Node
  unfolding process_entry
  process_loop zero now n = elim n.tx_timeout_queue [
    | [] ↦ some n
    | entry ∷ entries ↦ if ltb now entry.0 then some n else none
  ]
  process_loop (suc rounds) now n = elim n.tx_timeout_queue [
    | [] ↦ some n
    | entry ∷ entries ↦
        let rest =
          process_loop rounds now
            (process_entry now entry.0 entry.1 (record n { tx_timeout_queue = entries })) in
        if ltb now entry.0 then some n else rest
  ]

  -- The timer has fired, and is armed again for the front of the queue.
  unfoldable pub process_tx_timeouts : ℕ → Node → Option Node
  unfolding process_loop
  process_tx_timeouts now n =
      elim (process_loop (length n.tx_timeout_queue) now (record n { tx_timeout_event = none })) [
        | none ↦ none
        | some n' ↦ some (arm_tx_timeout_timer now n')
      ]

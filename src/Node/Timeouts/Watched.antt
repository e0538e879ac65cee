-- ===== src/Node/Timeouts/Watched.antt =====
-- ProcessTxTimeouts of node.cc and the requests that the timer watches.
use ghostdagsim.Common.{ℕ, ◌≡◌, true, List, [], ◌∷◌, some, if◌then◌else◌, is_some, max}
use ghostdagsim.Node.State.{Node}
use ghostdagsim.Node.Transactions.{arm_tx_timeout_timer}
use ghostdagsim.Node.Timeouts.Ends.{front_deadline}
use ghostdagsim.Node.Timeouts.Tracked.{Tracked, IsTracked, pick_if}

-- Requests are tracked, and the timer is pending while there are deadlines.
pub record IsWatched (n : Node) : Type 0 where
  pub tracked : IsTracked n
  pub pending :
      is_some (front_deadline n.tx_timeout_queue) ≡ true → is_some n.tx_timeout_event ≡ true

pub arm-IsTracked : (now : ℕ) (n : Node) → IsTracked n → IsTracked (arm_tx_timeout_timer now n)
unfolding arm_tx_timeout_timer
arm-IsTracked now n h = kept n.tx_timeout_queue
  where
    kept :
        (q : List (ℕ × ℕ))
        → IsTracked (elim q [
          | [] ↦ n
          | entry ∷ entries ↦
              if is_some n.tx_timeout_event
              then n
              else record n { tx_timeout_event = some (max now entry.0) }
        ])
    kept [] = h
    kept (e ∷ es) = pick_if (is_some n.tx_timeout_event) n _ (λ _. h) (λ _. h)

-- ===== src/Node/Timeouts/Replies.antt =====
-- Replies to requests for transactions.
use ghostdagsim.Common.{ℕ, ◌≡◌}
use ghostdagsim.Common.Maps.{erase}
use ghostdagsim.Node.State.{Node}
use ghostdagsim.Node.Timeouts.Tracked.{Tracked}

-- A node whose request for one transaction is erased.
record Erased (t : ℕ) (n n' : Node) : Type 0 where
  requests : n'.queue_inv_tx ≡ erase t n.queue_inv_tx
  queue : n'.tx_timeout_queue ≡ n.tx_timeout_queue
  event : n'.tx_timeout_event ≡ n.tx_timeout_event

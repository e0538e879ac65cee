-- ===== src/Node/State.antt =====
-- The state of GhostDagNode that its handlers use, and what they send. An address is the number of
-- its IPv4 address; times are in nanoseconds. A pending event of the simulator is the time at which
-- it fires; the event of a timer that has fired is no longer pending.
use ghostdagsim.Common.{ℕ, ◌≡◌, refl, true, false, Bool, List, [], ◌∷◌, ◌++◌, Option, if◌then◌else◌}
use ghostdagsim.Common.Maps.{Map}
use ghostdagsim.Block.{Transaction, BlockHeader}
use ghostdagsim.Chain.State.{Blockchain}
use ghostdagsim.Mempool.{Mempool}
use ghostdagsim.Graphene.Json.{GrapheneBlock, RecoveryRequest, RecoveryResponse}
use ghostdagsim.Node.Known.{TxIdSet}

-- The JSON objects that a node sends, by their member "msg"; an optional member is an option.
pub data Message : Type 0 where
  inv_relay_block : ℕ → Message
  req_relay_block : ℕ → Option Bool → Option ℕ → Message
  full_block : BlockHeader → List Transaction → Message
  inv_transactions : List ℕ → Message
  req_transactions : List ℕ → Message
  transactions : List Transaction → Message
  graphene_block : GrapheneBlock → Message
  graphene_recovery_request : RecoveryRequest → Message
  graphene_recovery_response : RecoveryResponse → Message

pub record Sent : Type 0 where
  pub to : ℕ
  pub message : Message
  pub wire_bytes : ℕ

pub record TxRequest : Type 0 where
  pub announcers : List ℕ
  pub deadline : ℕ

-- `m_queue_inv` and `m_inv_timeouts` have the decimal text of a block id as their key, which is the
-- id here. `sent` lists what SendMessage and SendSerialized were given.
pub record Node : Type 0 where
  pub running : Bool
  pub node_id : ℕ
  pub blockchain : Blockchain
  pub mempool : Mempool
  pub peers_addresses : List ℕ
  pub inv_timeout : ℕ
  pub queue_inv : Map (List ℕ)
  pub inv_timeouts : Map ℕ
  pub graphene_enabled : Bool
  pub mempool_size : ℕ
  pub txs_generated : ℕ
  pub generator : ℕ
  pub pending_inv_tx : List ℕ
  pub inv_batch_event : Option (ℕ × ℕ)
  pub next_tx_event : Option ℕ
  pub known_txs : TxIdSet
  pub queue_inv_tx : Map TxRequest
  pub tx_timeout_queue : List (ℕ × ℕ)
  pub tx_timeout_event : Option ℕ
  pub sent : List Sent

-- What the standard library supplies: std::hash of the text "miner.tx", and the draws from
-- uniform_int_distribution(0, n) and from the distributions of fees and of times, each with the
-- generator after the draw. `no_address` is `Ipv4Address()`.
pub record Library : Type 0 where
  pub hash : ℕ → ℕ → ℕ
  pub pick : ℕ → ℕ → ℕ × ℕ
  pub draw_fee : ℕ → ℕ × ℕ
  pub draw_delay : ℕ → ℕ × ℕ
  pub no_address : ℕ

-- SendSerialized returns at once unless the node is running.
unfoldable pub send : Node → ℕ → Message → ℕ → Node
send n to message wire_bytes =
    if n.running
    then record n {
      sent = n.sent ++ record { to = to; message = message; wire_bytes = wire_bytes } ∷ [];
    }
    else n

-- The messages that were sent, after a call of `send`.
abbrev pub sent_with : Node → ℕ → Message → ℕ → List Sent
sent_with n to message wire_bytes =
    if n.running
    then n.sent ++ record { to = to; message = message; wire_bytes = wire_bytes } ∷ []
    else n.sent

branch :
    (b : Bool) (n : Node) (sent : List Sent)
    → (if b then record n { sent = sent } else n) ≡ record n { sent = if b then sent else n.sent }
branch true n sent = refl
branch false n sent = refl

-- Sending changes nothing but the list of what was sent.
pub send_lem :
    (n : Node) (to : ℕ) (message : Message) (wire_bytes : ℕ)
    → send n to message wire_bytes ≡ record n { sent = sent_with n to message wire_bytes }
unfolding send
send_lem n to message wire_bytes = branch n.running n _

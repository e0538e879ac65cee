-- ===== src/Wire/Connections/Pending.antt =====
-- Messages that wait for a connection.
use ghostdagsim.Common.{ℕ, ◌≡◌, List, none, some}
use ghostdagsim.Common.Maps.{find}
use ghostdagsim.Wire.Send.{TxState}
use ghostdagsim.Wire.Delivery.{Message}
use ghostdagsim.Wire.Connections.{Connections, tx_state, send_all, handle_connection_succeeded}

-- `c'` is `c` with other messages for one peer that is not connected.
pub record IsWaiting (to : ℕ) (ms : List Message) (c c' : Connections) : Type 0 where
  pub waiting : find to c'.pending_messages ≡ some ms
  pub running : c'.running ≡ c.running
  pub socket_to_peer : c'.socket_to_peer ≡ c.socket_to_peer
  pub tx_states : c'.tx_states ≡ c.tx_states

-- `ms` are sent to a peer on `c`, and then the connection `socket` succeeds: both return, the frames
-- of the connection are `tx`, and no message is left waiting.
pub record Flushes (ranks to socket : ℕ) (ms : List Message) (tx : TxState) (c : Connections)
    : Type 0 where
  pub waiting : Connections
  pub connected : Connections
  pub sent : send_all ranks to ms c ≡ some waiting
  pub succeeds : handle_connection_succeeded ranks socket waiting ≡ some connected
  pub frames : tx_state connected socket ≡ tx
  pub none_left : find to connected.pending_messages ≡ none

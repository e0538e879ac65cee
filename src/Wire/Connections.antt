-- ===== src/Wire/Connections.antt =====
-- The connections of a node: SendSerialized, CreatePeerSocket, HandleConnectionSucceeded and
-- HandleConnectionFailed of node.cc. Sockets have numbers, in the order in which they are created.
-- A connection's HandleSendReady runs on its own.
pub mod Pending
use ghostdagsim.Common.{ℕ, ◌+◌, Bool, List, [], ◌∷◌, ◌++◌, Option, none, some, if◌then◌else◌, not}
use ghostdagsim.Common.Maps.{Map, find, assign, erase, has, at}
use ghostdagsim.Wire.Send.{TxState, enqueue_frame}
use ghostdagsim.Wire.Delivery.{Message}

-- `tx_states` is m_tx_queue and m_tx_frame_seq.
pub record Connections : Type 0 where
  pub running : Bool
  pub peers_sockets : Map ℕ
  pub socket_to_peer : Map ℕ
  pub pending_messages : Map (List Message)
  pub tx_states : Map TxState
  pub next_socket : ℕ

-- `m_tx_queue[socket]` and `m_tx_frame_seq[socket]`
abbrev pub tx_state : Connections → ℕ → TxState
tx_state c socket = at (record { queue = []; frame_seq = 0 }) socket c.tx_states

-- `emplace` leaves the messages that are there.
unfoldable pub create_peer_socket : ℕ → Connections → Connections
create_peer_socket peer c = record c {
  socket_to_peer = assign c.next_socket peer c.socket_to_peer;
  peers_sockets = assign peer c.next_socket c.peers_sockets;
  pending_messages =
      if has peer c.pending_messages then c.pending_messages else assign peer [] c.pending_messages;
  next_socket = c.next_socket + 1;
}

-- EnqueueFrame on a socket; `none` is its abort.
unfoldable pub enqueue : ℕ → ℕ → Message → Connections → Option Connections
enqueue ranks socket m c =
    elim (enqueue_frame ranks (tx_state c socket) m.serialized m.wire_bytes) [
      | none ↦ none
      | some tx ↦ some (record c { tx_states = assign socket tx c.tx_states })
    ]

unfoldable pub send_serialized : ℕ → Message → ℕ → Connections → Option Connections
unfolding create_peer_socket enqueue
send_serialized ranks m to c = if not c.running then some c else elim (find to c.pending_messages) [
  | some messages ↦
      some (record c { pending_messages = assign to (messages ++ m ∷ []) c.pending_messages })
  | none ↦ elim (find to c.peers_sockets) [
    | none ↦ some (
        create_peer_socket to
          (record c { pending_messages = assign to (m ∷ []) c.pending_messages }))
    | some socket ↦ enqueue ranks socket m c
  ]
]

pub enqueue_each : ℕ → ℕ → List Message → Connections → Option Connections
unfolding enqueue
enqueue_each ranks socket [] c = some c
enqueue_each ranks socket (m ∷ ms) c = elim (enqueue ranks socket m c) [
  | none ↦ none
  | some c' ↦ enqueue_each ranks socket ms c'
]

unfoldable pub handle_connection_succeeded : ℕ → ℕ → Connections → Option Connections
unfolding enqueue_each
handle_connection_succeeded ranks socket c = elim (find socket c.socket_to_peer) [
  | none ↦ some c
  | some peer ↦ elim (find peer c.pending_messages) [
    | none ↦ some c
    | some messages ↦ elim (enqueue_each ranks socket messages c) [
      | none ↦ none
      | some c' ↦ some (record c' { pending_messages = erase peer c'.pending_messages })
    ]
  ]
]

unfoldable pub handle_connection_failed : ℕ → Connections → Connections
handle_connection_failed socket c = elim (find socket c.socket_to_peer) [
  | none ↦ c
  | some peer ↦ record c {
    peers_sockets = erase peer c.peers_sockets;
    pending_messages = erase peer c.pending_messages;
    socket_to_peer = erase socket c.socket_to_peer;
  }
]

-- Messages to one peer, one after the other.
unfoldable pub send_all : ℕ → ℕ → List Message → Connections → Option Connections
unfolding send_serialized
send_all ranks to [] c = some c
send_all ranks to (m ∷ ms) c = elim (send_serialized ranks m to c) [
  | none ↦ none
  | some c' ↦ send_all ranks to ms c'
]

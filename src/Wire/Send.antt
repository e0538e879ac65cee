-- ===== src/Wire/Send.antt =====
-- EnqueueFrame and HandleSendReady: what a connection writes.
use ghostdagsim.Common.{
  ℕ, suc, zero, ◌+◌, ◌-◌, ◌%◌, ◌^◌, max, ◌&&◌, List, [], ◌∷◌, ◌++◌, Option, none, some, length,
  take, drop, replicate, if◌then◌else◌, ltb, leb, ◌==◌,
}
use ghostdagsim.Wire.Frame.{
  Bytes, Packet, plain, FrameHeader, serialize, serialized_size, frame_prefix_size,
}

-- m_tx_queue and m_tx_frame_seq of one connection.
pub record TxState : Type 0 where
  pub queue : List Packet
  pub frame_seq : ℕ

abbrev pub mpi_payload_limit : ℕ
mpi_payload_limit = 2097152 - 65536

abbrev pub zeros : ℕ → Packet
zeros n = replicate n (record { byte = 0; tag = none })

-- AddHeader on a packet of zeros
abbrev pub framed : FrameHeader → ℕ → Packet
framed h n = plain (serialize h) ++ zeros n

-- EnqueueFrame up to its calls of HandleSendReady. `ranks` is the number of MPI processes; `none`
-- is the abort on a payload that the MPI buffer cannot take.
unfoldable pub enqueue_frame : ℕ → TxState → Bytes → ℕ → Option TxState
unfolding serialize
enqueue_frame ranks tx serialized wire_bytes =
    let wire : ℕ = max wire_bytes (frame_prefix_size + 1) in
    let payload_size : ℕ = length serialized % 2 ^ 32 in
    let header : Bytes → FrameHeader =
      λ p. record { frame_len = wire; seq = tx.frame_seq; payload = p } in
    let next : ℕ = (tx.frame_seq + 1) % 2 ^ 32 in
    if leb ((frame_prefix_size + payload_size) % 2 ^ 32) wire
    then some (record {
      queue =
          tx.queue ++ framed (header serialized) (wire - serialized_size (header serialized)) ∷ [];
      frame_seq = next;
    })
    else (if ltb 1 ranks && ltb mpi_payload_limit (length serialized)
        then none
        else some (record {
          queue =
              tx.queue
              ++ framed (header []) (wire - 1 - frame_prefix_size)
                ∷ (record { byte = 0; tag = some serialized } ∷ [])
                ∷ [];
          frame_seq = next;
        }))

-- The socket of ns-3: its free buffer space, and what accepts a packet whole or refuses it.
module _ {S : Type 0} (tx_available : S → ℕ) (send : S → Packet → Option S) where
  -- The loop of HandleSendReady: the socket and the queue after it. `none`: the rounds ran out.
  unfoldable pub send_loop : ℕ → S → List Packet → Option (S × List Packet)
  send_loop zero s queue = none
  send_loop (suc rounds) s [] = some (s, [])
  send_loop (suc rounds) s (head ∷ queue) =
      let available : ℕ = tx_available s in
      let stop : Option (S × List Packet) = some (s, head ∷ queue) in
      let whole : Option (S × List Packet) = elim (send s head) [
        | none ↦ stop
        | some s' ↦ send_loop rounds s' queue
      ] in
      let part : Option (S × List Packet) = elim (send s (take available head)) [
        | none ↦ stop
        | some s' ↦ send_loop rounds s' (drop available head ∷ queue)
      ] in
      if available == 0 then stop else (if leb (length head) available then whole else part)

-- A round takes a packet or at least one byte out of the queue.
abbrev pub rounds_for : List Packet → ℕ
rounds_for [] = 1
rounds_for (p ∷ ps) = length p + 1 + rounds_for ps

abbrev pub concat : List Packet → Packet
concat [] = []
concat (p ∷ ps) = p ++ concat ps

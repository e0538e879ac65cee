-- ===== src/Wire/Delivery/Lengths.antt =====
-- How many bytes a message takes on a connection.
use ghostdagsim.Common.{
  ℕ, ◌+◌, ◌-◌, ◌^◌, ◌<◌, ◌≡◌, ap, ◌∙◌, arith, List, [], ◌∷◌, ◌++◌, some, length, leb, Bool-cases,
  inl, inr, length-append,
}
use ghostdagsim.Wire.Frame.{Packet, plain}
use ghostdagsim.Wire.Send.{TxState, enqueue_frame, concat, zeros}
use ghostdagsim.Wire.RoundTrip.{length-plain, length-zeros}
use ghostdagsim.Wire.Delivery.{Message, wire_size, frame_packets, enqueue_frame-packets}

length-concat-append :
    (ps qs : List Packet) → length (concat (ps ++ qs)) ≡ length (concat ps) + length (concat qs)
length-concat-append [] qs = omega arith
length-concat-append (p ∷ ps) qs = omega (
  arith,
  length-append p (concat (ps ++ qs)),
  length-append p (concat ps),
  length-concat-append ps qs,
)

length-frame_packets : (seq : ℕ) (m : Message) → length (concat (frame_packets seq m)) ≡ wire_size m
length-frame_packets seq m = elim (Bool-cases (leb (16 + length m.serialized) (wire_size m))) [
  | inl fits ↦
      let k : ℕ = wire_size m - (16 + length m.serialized) in
      rw fits (
        ground (
          arith,
          length-append (plain m.serialized ++ zeros k) [],
          length-append (plain m.serialized) (zeros k),
          length-plain m.serialized,
          length-zeros k,
        ))
  | inr large ↦
      let k : ℕ = wire_size m - 1 - 16 in
      let tail : Packet = record { byte = 0; tag = some m.serialized } ∷ [] in
      rw large (ground (arith, length-append (zeros k) (tail ++ []), length-zeros k))
]

-- A message of less than 2 ^ 32 - 16 bytes that EnqueueFrame takes adds exactly its modelled size, at
-- least 17 bytes, to what is queued, whether its payload is inline or carried by a tag.
pub length-enqueue_frame :
    (ranks : ℕ) (tx tx' : TxState) (m : Message)
    → length m.serialized + 16 < 2 ^ 32
    → enqueue_frame ranks tx m.serialized m.wire_bytes ≡ some tx'
    → length (concat tx'.queue) ≡ length (concat tx.queue) + wire_size m
length-enqueue_frame ranks tx tx' m h e =
    ap (λ (t : TxState). length (concat t.queue)) (enqueue_frame-packets ranks tx tx' m h e)
    ∙ length-concat-append tx.queue (frame_packets tx.frame_seq m)
    ∙ ap (λ n. length (concat tx.queue) + n) (length-frame_packets tx.frame_seq m)

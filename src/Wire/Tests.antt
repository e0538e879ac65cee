-- ===== src/Wire/Tests.antt =====
-- The theorems on frames and connections at concrete messages.
use ghostdagsim.Common.{
  ◌+◌, ℕ, true, ◌-◌, ◌<◌, ◌≡◌, refl, sym, ap, ◌++◌, arith, List, [], ◌∷◌, Option, none, some,
  length, All, map, take, drop,
}
use ghostdagsim.Wire.Frame.{FrameHeader, Packet, serialize}
use ghostdagsim.Wire.Send.{TxState, enqueue_frame, concat, send_loop, rounds_for}
use ghostdagsim.Wire.Receive.{RxFrameState, fresh_rx, received, handle_read}
use ghostdagsim.Wire.Receive.Streams.{handle_read-chunks}
use ghostdagsim.Wire.Flow.{Socket, Flows, handle_send_ready-Flows}
use ghostdagsim.Wire.RoundTrip.{idle}
use ghostdagsim.Wire.Delivery.{
  wire_size, Message, IsPadded, delivery, enqueue_all, handle_read-enqueue_all,
  handle_read-exact_frame, fresh-IsFrameState,
}
use ghostdagsim.Wire.Delivery.Lengths.{length-enqueue_frame}
use ghostdagsim.Wire.Connections.{Connections}

abbrev small : Message
small = record { serialized = 7 ∷ 8 ∷ []; wire_bytes = 20 }

abbrev large : Message
large = record { serialized = 1 ∷ 2 ∷ 3 ∷ []; wire_bytes = 18 }

abbrev exact : Message
exact = record { serialized = 5 ∷ []; wire_bytes = 17 }

abbrev fresh_tx : TxState
fresh_tx = record { queue = []; frame_seq = 0 }

queued : List Message → TxState
unfolding enqueue_all
queued ms = elim (enqueue_all 1 fresh_tx ms) [ none ↦ fresh_tx | some tx ↦ tx ]

small-IsPadded : IsPadded small
small-IsPadded = record {
  some_bytes = omega arith;
  size_fits = omega arith;
  wire_fits = omega arith;
  padding = omega arith;
}

large-IsPadded : IsPadded large
large-IsPadded = record {
  some_bytes = omega arith;
  size_fits = omega arith;
  wire_fits = omega arith;
  padding = omega arith;
}

abbrev two : List Message
two = small ∷ large ∷ []

enqueue_all-two : enqueue_all 1 fresh_tx two ≡ some (queued two)
unfolding queued enqueue_all enqueue_frame
enqueue_all-two = refl

-- The stream of the two frames, cut inside the prefix of the first and inside the second.
cut : List Packet
unfolding queued
cut = let all = concat (queued two).queue in take 5 all ∷ take 20 (drop 5 all) ∷ drop 25 all ∷ []

cut_nonempty : All (λ p. 0 < length p) cut
unfolding queued enqueue_all enqueue_frame cut
cut_nonempty = (omega arith, (omega arith, (omega arith, tt)))

cut_same : concat cut ≡ concat (queued two).queue
unfolding queued enqueue_all enqueue_frame cut serialize
cut_same = refl

handle_read-enqueue_all_example : handle_read fresh_rx cut ≡ received (idle 2) (map delivery two)
handle_read-enqueue_all_example =
    handle_read-enqueue_all 1 (queued two) two cut (small-IsPadded, (large-IsPadded, tt))
      enqueue_all-two cut_nonempty cut_same

queue_nonempty : All (λ p. 0 < length p) (queued two).queue
unfolding queued enqueue_all enqueue_frame
queue_nonempty = (omega arith, (omega arith, (omega arith, tt)))

handle_read-chunks_example : handle_read fresh_rx cut ≡ handle_read fresh_rx (queued two).queue
handle_read-chunks_example =
    handle_read-chunks fresh_rx cut (queued two).queue fresh-IsFrameState cut_nonempty
      queue_nonempty cut_same

-- A socket is its free bytes and what was written; it accepts what fits.
abbrev buffer : ℕ × Packet → ℕ
buffer s = s.0

abbrev accept : ℕ × Packet → Packet → Option (ℕ × Packet)
accept s p = some (s.0 - length p, s.1 ++ p)

abbrev socket : Socket
socket = record {
  S = ℕ × Packet;
  tx_available = buffer;
  try_send = accept;
  written = λ s. s.1;
  writes = λ s s' p fits e.
      sym (ap (λ (o : Option (ℕ × Packet)). elim o [ none ↦ s.1 ++ p | some t ↦ t.1 ]) e);
}

handle_send_ready-Flows_example :
    Flows socket
      (25, [])
      (queued two).queue
      (send_loop buffer accept (rounds_for (queued two).queue) (25, []) (queued two).queue)
handle_send_ready-Flows_example = handle_send_ready-Flows socket (25, []) (queued two).queue

enqueue_frame-exact :
    enqueue_frame 1 fresh_tx exact.serialized exact.wire_bytes ≡ some (queued (exact ∷ []))
unfolding queued enqueue_all enqueue_frame
enqueue_frame-exact = refl

exact_nonempty : All (λ p. 0 < length p) (queued (exact ∷ [])).queue
unfolding queued enqueue_all enqueue_frame
exact_nonempty = (omega arith, tt)

handle_read-exact_frame_example :
    (st : RxFrameState) × (handle_read fresh_rx (queued (exact ∷ [])).queue ≡ received st [])
handle_read-exact_frame_example =
    handle_read-exact_frame 1 (queued (exact ∷ [])) exact (queued (exact ∷ [])).queue (omega arith)
      (omega arith) refl enqueue_frame-exact exact_nonempty refl

abbrev idle_node : Connections
idle_node = record {
  running = true;
  peers_sockets = [];
  socket_to_peer = [];
  pending_messages = [];
  tx_states = [];
  next_socket = 1;
}

length-enqueue_frame_example :
    length (concat (queued (exact ∷ [])).queue) ≡ length (concat fresh_tx.queue) + wire_size exact
length-enqueue_frame_example =
    length-enqueue_frame 1 fresh_tx (queued (exact ∷ [])) exact (omega arith) enqueue_frame-exact

abbrev header : FrameHeader
header = record { frame_len = 300; seq = 70000; payload = 4 ∷ 5 ∷ [] }

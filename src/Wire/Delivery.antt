-- ===== src/Wire/Delivery.antt =====
-- A connection from EnqueueFrame to HandleRead: every message arrives, in order.
pub mod Lengths
use ghostdagsim.Common.{
  ℕ, ◌+◌, ◌-◌, ◌%◌, ◌^◌, ◌<◌, ◌≡◌, ◌≢◌, refl, ap, ap₂, sym, ◌∙◌, max, true, List, [], ◌∷◌, ◌++◌,
  Option, none, some, length, if◌then◌else◌, leb, arith, Bool-cases, Option-cases, inl, inr, All,
  map,
}
use mathlib.Core.List.{append-nil, append_assoc, map-append}
use ghostdagsim.Wire.Frame.{Bytes, Cell, Packet, plain, prefix_bytes}
use ghostdagsim.Wire.Send.{TxState, enqueue_frame, concat, zeros}
use ghostdagsim.Wire.Receive.{
  RxFrameState, fresh_rx, Delivery, received, deliver, and_then, finish, handle_read,
}
use ghostdagsim.Wire.Receive.Bytewise.{run, IsFrameState, run-append, deliver_nil}
use ghostdagsim.Wire.Receive.Runs.{payload_run}
use ghostdagsim.Wire.Receive.Chunks.{run_pending}
use ghostdagsim.Wire.Receive.Streams.{handle_read-run}
use ghostdagsim.Wire.RoundTrip.{
  idle, opened, run-inline, run-tagged, run-prefix, take_all, bytes-plain, length-plain,
}

-- An encoded payload and its modelled size.
pub record Message : Type 0 where
  pub serialized : Bytes
  pub wire_bytes : ℕ

abbrev pub wire_size : Message → ℕ
wire_size m = max m.wire_bytes 17

abbrev pub delivery : Message → Delivery
delivery m = record { payload = m.serialized; wire_bytes = wire_size m }

-- Sizes fit 32 bits, and an inline payload leaves room for padding.
pub record IsPadded (m : Message) : Type 0 where
  pub some_bytes : 0 < length m.serialized
  pub size_fits : length m.serialized + 16 < 2 ^ 32
  pub wire_fits : m.wire_bytes < 2 ^ 32
  pub padding : length m.serialized + 16 ≢ wire_size m

abbrev inline_header : ℕ → Message → Bytes
inline_header seq m = prefix_bytes (wire_size m) (length m.serialized) seq

-- What EnqueueFrame appends to the queue.
abbrev frame_packets : ℕ → Message → List Packet
frame_packets seq m =
    if leb (16 + length m.serialized) (wire_size m)
    then (plain (inline_header seq m ++ m.serialized)
        ++ zeros (wire_size m - (16 + length m.serialized)))
      ∷ []
    else ((plain (prefix_bytes (wire_size m) 0 seq) ++ zeros (wire_size m - 1 - 16))
        ∷ (record { byte = 0; tag = some m.serialized } ∷ [])
        ∷ [])

enqueue_frame-packets :
    (ranks : ℕ) (tx tx' : TxState) (m : Message)
    → length m.serialized + 16 < 2 ^ 32
    → enqueue_frame ranks tx m.serialized m.wire_bytes ≡ some tx'
    → tx' ≡ record {
      queue = tx.queue ++ frame_packets tx.frame_seq m;
      frame_seq = (tx.frame_seq + 1) % 2 ^ 32;
    }
unfolding enqueue_frame
enqueue_frame-packets ranks tx tx' m h e =
    let small : length m.serialized % 2 ^ 32 ≡ length m.serialized = omega arith in
    let sum : (16 + length m.serialized) % 2 ^ 32 ≡ 16 + length m.serialized = omega arith in
    let whole = take_all m.serialized in
    let e' = rw (small, sum, whole) at e in
    elim (Bool-cases (leb (16 + length m.serialized) (wire_size m))) [
      | inl fits ↦ ground arith
      | inr large ↦ ground arith
    ]

run-frame_packets :
    (seq : ℕ) (m : Message)
    → IsPadded m
    → seq < 2 ^ 32
    → run (idle seq) (concat (frame_packets seq m))
      ≡ received (idle ((seq + 1) % 2 ^ 32)) (delivery m ∷ [])
run-frame_packets seq m w h = elim (Bool-cases (leb (16 + length m.serialized) (wire_size m))) [
  | inl fits ↦
      let pad : ℕ = wire_size m - (16 + length m.serialized) in
      rw fits (
        ap (run (idle seq)) (
          append-nil (plain (inline_header seq m ++ m.serialized) ++ zeros pad)
          ∙ ap (λ p. p ++ zeros pad)
              (map-append (λ b. record { byte = b; tag = none }) (inline_header seq m) m.serialized)
          ∙ append_assoc (plain (inline_header seq m)) (plain m.serialized) (zeros pad))
        ∙ run-inline seq (wire_size m) m.serialized h (omega (arith, w.wire_fits)) w.some_bytes
            (ground (arith, w.padding)))
  | inr large ↦ rw large (
      ap (run (idle seq))
        (append_assoc (plain (prefix_bytes (wire_size m) 0 seq)) (zeros (wire_size m - 1 - 16)) _)
      ∙ run-tagged seq (wire_size m) m.serialized h (omega (arith, w.wire_fits)) (omega arith))
]

unfoldable pub enqueue_all : ℕ → TxState → List Message → Option TxState
enqueue_all ranks tx [] = some tx
enqueue_all ranks tx (m ∷ ms) = elim (enqueue_frame ranks tx m.serialized m.wire_bytes) [
  | none ↦ none
  | some tx' ↦ enqueue_all ranks tx' ms
]

concat-append : (ps qs : List Packet) → concat (ps ++ qs) ≡ concat ps ++ concat qs
concat-append [] qs = refl
concat-append (p ∷ ps) qs =
    ap (◌++◌ p) (concat-append ps qs) ∙ sym (append_assoc p (concat ps) (concat qs))

abbrev after : ℕ → List Message → ℕ
after seq [] = seq
after seq (m ∷ ms) = after ((seq + 1) % 2 ^ 32) ms

-- The packets of all messages, in order.
abbrev all_packets : ℕ → List Message → List Packet
all_packets seq [] = []
all_packets seq (m ∷ ms) = frame_packets seq m ++ all_packets ((seq + 1) % 2 ^ 32) ms

run-all_packets :
    (seq : ℕ) (ms : List Message)
    → All IsPadded ms
    → seq < 2 ^ 32
    → run (idle seq) (concat (all_packets seq ms))
      ≡ received (idle (after seq ms)) (map delivery ms)
unfolding run
run-all_packets seq [] w h = refl
run-all_packets seq (m ∷ ms) w h =
    ap (run (idle seq)) (concat-append (frame_packets seq m) (all_packets ((seq + 1) % 2 ^ 32) ms))
    ∙ run-append (idle seq) (concat (frame_packets seq m))
        (concat (all_packets ((seq + 1) % 2 ^ 32) ms))
    ∙ ap (λ r. and_then r (λ s. run s (concat (all_packets ((seq + 1) % 2 ^ 32) ms))))
        (run-frame_packets seq m w.0 h)
    ∙ ap (deliver (delivery m ∷ [])) (run-all_packets ((seq + 1) % 2 ^ 32) ms w.1 (omega arith))

enqueue_all-cons :
    (ranks : ℕ) (tx next : TxState) (m : Message) (ms : List Message)
    → enqueue_frame ranks tx m.serialized m.wire_bytes ≡ some next
    → enqueue_all ranks tx (m ∷ ms) ≡ enqueue_all ranks next ms
unfolding enqueue_all
enqueue_all-cons ranks tx next m ms e = rw (e, enqueue_all)

enqueue_all-stop :
    (ranks : ℕ) (tx : TxState) (m : Message) (ms : List Message)
    → enqueue_frame ranks tx m.serialized m.wire_bytes ≡ none
    → enqueue_all ranks tx (m ∷ ms) ≡ none
unfolding enqueue_all
enqueue_all-stop ranks tx m ms e = rw (e, enqueue_all)

enqueue_all-packets :
    (ranks : ℕ) (tx tx' : TxState) (ms : List Message)
    → All IsPadded ms
    → enqueue_all ranks tx ms ≡ some tx'
    → tx'.queue ≡ tx.queue ++ all_packets tx.frame_seq ms
unfolding enqueue_all
enqueue_all-packets ranks tx tx' [] w e = ground (arith, append-nil tx.queue)
enqueue_all-packets ranks tx tx' (m ∷ ms) w e =
    elim (Option-cases (enqueue_frame ranks tx m.serialized m.wire_bytes)) [
      | inl stopped ↦ cc (enqueue_all-stop ranks tx m ms stopped)
      | inr (next, done) ↦
          let is = enqueue_frame-packets ranks tx next m w.0.size_fits done in
          enqueue_all-packets ranks next tx' ms w.1
            (sym (enqueue_all-cons ranks tx next m ms done) ∙ e)
          ∙ ap (λ (t : TxState). t.queue ++ all_packets t.frame_seq ms) is
          ∙ append_assoc tx.queue (frame_packets tx.frame_seq m) _
    ]

pub fresh-IsFrameState : IsFrameState fresh_rx
fresh-IsFrameState = record {
  prefix_le = omega arith;
  body = λ q. absurd (omega arith);
  inline = λ q _. absurd (omega arith);
}

-- Messages whose frames are padded or tagged, and whose sizes fit 32 bits, are queued on a new
-- connection without an abort. However the queued bytes are cut into packets that are not empty,
-- HandleRead hands out exactly these payloads, with their modelled sizes, in order, and is then between
-- two frames.
pub handle_read-enqueue_all :
    (ranks : ℕ) (tx : TxState) (ms : List Message) (ps : List Packet)
    → All IsPadded ms
    → enqueue_all ranks (record { queue = []; frame_seq = 0 }) ms ≡ some tx
    → All (λ p. 0 < length p) ps
    → concat ps ≡ concat tx.queue
    → handle_read fresh_rx ps ≡ received (idle (length ms % 2 ^ 32)) (map delivery ms)
handle_read-enqueue_all ranks tx ms ps w e h c =
    handle_read-run fresh_rx ps fresh-IsFrameState h
    ∙ ap (run fresh_rx) (c ∙ ap concat (enqueue_all-packets ranks _ tx ms w e))
    ∙ run-all_packets 0 ms w (omega arith)
    ∙ ap (λ n. received (idle n) (map delivery ms)) (after-length 0 ms (omega arith) ∙ omega arith)
  where
    after-length :
        (seq : ℕ) (xs : List Message) → seq < 2 ^ 32 → after seq xs ≡ (seq + length xs) % 2 ^ 32
    after-length seq [] lt = omega arith
    after-length seq (x ∷ xs) lt = after-length ((seq + 1) % 2 ^ 32) xs (omega arith) ∙ omega arith

-- A frame that its payload fills to the last byte is not handed out when its last byte arrives, but
-- in front of the next byte that arrives.
pub run-exact_frame :
    (seq : ℕ) (m : Message) (c : Cell) (cs : Packet)
    → seq < 2 ^ 32
    → 0 < length m.serialized
    → m.wire_bytes < 2 ^ 32
    → length m.serialized + 16 ≡ wire_size m
    → (run (idle seq) (concat (frame_packets seq m))
        ≡ received
            (record (opened seq (wire_size m) (length m.serialized)) {
              payload = m.serialized;
              body_remaining = 0;
            })
            [])
      × (run (idle seq) (concat (frame_packets seq m) ++ c ∷ cs)
          ≡ deliver (delivery m ∷ []) (run (idle ((seq + 1) % 2 ^ 32)) (c ∷ cs)))
unfolding finish
run-exact_frame seq m c cs h pos lt e =
    let first = run-exact in
    (
      first,
      run-append (idle seq) (concat (frame_packets seq m)) (c ∷ cs)
          ∙ ap (λ r. and_then r (λ s. run s (c ∷ cs))) first
          ∙ deliver_nil (run full (c ∷ cs))
          ∙ run_pending full c cs (ground arith)
          ∙ ap (λ ds. deliver ds (run (idle ((seq + 1) % 2 ^ 32)) (c ∷ cs))) handed_out,
    )
  where
    st : RxFrameState
    st = opened seq (wire_size m) (length m.serialized)

    full : RxFrameState
    full = record st { payload = m.serialized; body_remaining = 0 }

    handed_out : finish full none ≡ delivery m ∷ []
    handed_out = ground arith

    frame : concat (frame_packets seq m) ≡ plain (inline_header seq m) ++ plain m.serialized
    frame =
        let fits : leb (16 + length m.serialized) (wire_size m) ≡ true = ground arith in
        let none_left : wire_size m - (16 + length m.serialized) ≡ 0 = omega arith in
        rw (fits, none_left)
          (append-nil _
            ∙ append-nil _
            ∙ map-append (λ b. record { byte = b; tag = none }) (inline_header seq m) m.serialized)

    run-exact : run (idle seq) (concat (frame_packets seq m)) ≡ received full []
    run-exact =
        ap (run (idle seq)) frame
        ∙ run-prefix seq (wire_size m) (length m.serialized) (plain m.serialized) h (omega arith)
            (omega arith) (omega arith)
        ∙ payload_run st (plain m.serialized) refl (omega (arith, length-plain m.serialized))
        ∙ ap₂ (λ p k. received (record st { payload = p; body_remaining = k }) [])
            (bytes-plain m.serialized) (omega (arith, length-plain m.serialized))

-- A message of 32-bit size whose payload is not empty and fills its frame to the last byte is queued on a new connection without an
-- abort, and HandleRead gets all the bytes of the frame, however they are cut into packets that are
-- not empty: it hands out nothing.
pub handle_read-exact_frame :
    (ranks : ℕ) (tx : TxState) (m : Message) (ps : List Packet)
    → 0 < length m.serialized
    → m.wire_bytes < 2 ^ 32
    → length m.serialized + 16 ≡ wire_size m
    → enqueue_frame ranks (record { queue = []; frame_seq = 0 }) m.serialized m.wire_bytes ≡ some tx
    → All (λ p. 0 < length p) ps
    → concat ps ≡ concat tx.queue
    → (st : RxFrameState) × (handle_read fresh_rx ps ≡ received st [])
handle_read-exact_frame ranks tx m ps pos lt exact e h c =
    let start : TxState = record { queue = []; frame_seq = 0 } in
    let queued = enqueue_frame-packets ranks start tx m (omega arith) e in
    let whole =
      run-exact_frame 0 m (record { byte = 0; tag = none }) [] (omega arith) pos lt exact in
    (
      _,
      handle_read-run fresh_rx ps fresh-IsFrameState h
          ∙ ap (run fresh_rx) (c ∙ ap (λ (t : TxState). concat t.queue) queued)
          ∙ whole.0,
    )

-- ===== src/Wire/Receive.antt =====
-- The reassembly of frames in HandleRead: struct RxFrameState of node.h, and the loops of HandleRead
-- up to the decoding of a payload.
pub mod Bytewise
pub mod Runs
pub mod Chunks
pub mod Streams
use ghostdagsim.Common.{
  ℕ, suc, zero, ◌+◌, ◌-◌, ◌*◌, ◌%◌, ◌^◌, min, Bool, true, false, not, ◌||◌, List, [], ◌∷◌, ◌++◌,
  Option, none, some, length, take, drop, if◌then◌else◌, ltb, leb, ◌==◌,
}
use ghostdagsim.Wire.Frame.{Bytes, Cell, Packet, bytes, word_at, frame_magic, frame_prefix_size}

-- `prefix` is the part of the array that is filled, `prefix_have` bytes.
pub record RxFrameState : Type 0 where
  pub prefix : Bytes
  pub frame_len : ℕ
  pub payload_len : ℕ
  pub body_remaining : ℕ
  pub next_seq : ℕ
  pub payload : Bytes

abbrev pub fresh_rx : RxFrameState
fresh_rx = record {
  prefix = [];
  frame_len = 0;
  payload_len = 0;
  body_remaining = 0;
  next_seq = 0;
  payload = [];
}

abbrev pub reset_frame : RxFrameState → RxFrameState
reset_frame st = record st {
  prefix = [];
  frame_len = 0;
  payload_len = 0;
  body_remaining = 0;
  payload = [];
}

-- A complete frame: its payload, and `wire_bytes`.
pub record Delivery : Type 0 where
  pub payload : Bytes
  pub wire_bytes : ℕ

pub data Rx : Type 0 where
  stuck : Rx
  aborted : Rx
  received : RxFrameState → List Delivery → Rx

abbrev pub deliver : List Delivery → Rx → Rx
deliver ds stuck = stuck
deliver ds aborted = aborted
deliver ds (received st es) = received st (ds ++ es)

-- The first calls, and the second on what they leave.
abbrev pub and_then : Rx → (RxFrameState → Rx) → Rx
and_then stuck k = stuck
and_then aborted k = aborted
and_then (received st ds) k = deliver ds (k st)

-- A full prefix is read, or the simulation is aborted.
unfoldable pub read_prefix : RxFrameState → Option RxFrameState
read_prefix st =
    let magic : ℕ = word_at st.prefix 0 in
    let len : ℕ = word_at st.prefix 4 in
    let payload_len : ℕ = word_at st.prefix 8 in
    let seq : ℕ = word_at st.prefix 12 in
    if not (magic == frame_magic)
      || (leb len frame_prefix_size
          || (ltb (len - frame_prefix_size) payload_len || not (seq == st.next_seq)))
    then none
    else some (record st {
      next_seq = (seq + 1) % 2 ^ 32;
      frame_len = len;
      payload_len = payload_len;
      payload = [];
      body_remaining = len - frame_prefix_size;
    })

-- The end of a frame; `last` is the tag of the byte before `pos`. A frame without payload is dropped.
unfoldable pub finish : RxFrameState → Option Bytes → List Delivery
finish st last =
    if ltb 0 st.payload_len
    then record { payload = st.payload; wire_bytes = st.frame_len } ∷ []
    else elim last [ none ↦ [] | some p ↦ record { payload = p; wire_bytes = st.frame_len } ∷ [] ]

abbrev pub last_tag : Option Bytes → Packet → Option Bytes
last_tag last [] = last
last_tag last (c ∷ cs) = last_tag c.tag cs

abbrev pub resume : Option RxFrameState → (RxFrameState → Rx) → Rx
resume none k = aborted
resume (some st) k = k st

-- `while (pos < size)`: the cells from `pos` on. A round takes a cell, or ends a frame whose bytes
-- have all been taken.
pub rx_loop : ℕ → RxFrameState → Option Bytes → Packet → Rx
unfolding read_prefix finish
rx_loop rounds st last [] = received st []
rx_loop zero st last (c ∷ cs) = stuck
rx_loop (suc rounds) st last (c ∷ cs) =
    let again : ℕ → RxFrameState → Rx =
      λ n st'. rx_loop rounds st' (last_tag last (take n (c ∷ cs))) (drop n (c ∷ cs)) in
    elim (ltb (length st.prefix) frame_prefix_size) [
      | true ↦
          let n : ℕ = min (frame_prefix_size - length st.prefix) (length (c ∷ cs)) in
          let st' : RxFrameState = record st { prefix = st.prefix ++ bytes (take n (c ∷ cs)) } in
          elim (length st'.prefix == frame_prefix_size) [
            | true ↦ resume (read_prefix st') (again n)
            | false ↦ again n st'
          ]
      | false ↦ elim (ltb (length st.payload) st.payload_len) [
        | true ↦
            let n : ℕ = min (st.payload_len - length st.payload) (length (c ∷ cs)) in
            again n (record st {
              payload = st.payload ++ bytes (take n (c ∷ cs));
              body_remaining = st.body_remaining - n;
            })
        | false ↦
            let n : ℕ = min st.body_remaining (length (c ∷ cs)) in
            let st' : RxFrameState = record st { body_remaining = st.body_remaining - n } in
            elim (ltb 0 st'.body_remaining) [
              | true ↦ again n st'
              | false ↦
                  deliver (finish st' (last_tag last (take n (c ∷ cs)))) (again n (reset_frame st'))
            ]
      ]
    ]

-- Two rounds for each cell, and one for a frame that is complete already.
abbrev pub rounds_for : Packet → ℕ
rounds_for p = 2 * length p + 1

-- The outer loop over the packets that the socket has, up to an empty one.
pub handle_read : RxFrameState → List Packet → Rx
unfolding rx_loop
handle_read st [] = received st []
handle_read st (p ∷ ps) =
    let rest : RxFrameState → Rx = λ st'. handle_read st' ps in
    if length p == 0 then received st [] else and_then (rx_loop (rounds_for p) st none p) rest

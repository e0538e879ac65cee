-- ===== src/Wire/Receive/Bytewise.antt =====
-- The reassembly, one byte at a time: it does not depend on where the stream is cut into packets.
use ghostdagsim.Common.{
  ◌+◌, ◌-◌, ◌<◌, ◌≤◌, ◌≡◌, refl, ap, sym, ◌∙◌, Bool, true, false, List, [], ◌∷◌, ◌++◌, none, length,
  if◌then◌else◌, ltb, ◌==◌,
}
use mathlib.Core.List.{append_assoc}
use ghostdagsim.Wire.Frame.{Cell, Packet}
use ghostdagsim.Wire.Receive.{
  RxFrameState, reset_frame, Delivery, Rx, stuck, aborted, received, deliver, and_then, read_prefix,
  finish, resume,
}

-- A byte that is not the first after a complete frame.
unfoldable pub feed_open : RxFrameState → Cell → Rx
unfolding read_prefix finish
feed_open st c = elim (ltb (length st.prefix) 16) [
  | true ↦
      let st' : RxFrameState = record st { prefix = st.prefix ++ c.byte ∷ [] } in
      if length st'.prefix == 16
      then resume (read_prefix st') (λ s. received s [])
      else received st' []
  | false ↦ elim (ltb (length st.payload) st.payload_len) [
    | true ↦
        received
          (record st {
            payload = st.payload ++ c.byte ∷ [];
            body_remaining = st.body_remaining - 1;
          })
          []
    | false ↦
        let st' : RxFrameState = record st { body_remaining = st.body_remaining - 1 } in
        if ltb 0 st'.body_remaining
        then received st' []
        else received (reset_frame st') (finish st' c.tag)
  ]
]

-- All bytes of the frame have been taken, without the frame being handed out.
abbrev pub is_pending : RxFrameState → Bool
is_pending st =
    if ltb (length st.prefix) 16
    then false
    else (if ltb (length st.payload) st.payload_len then false else st.body_remaining == 0)

unfoldable pub feed : RxFrameState → Cell → Rx
unfolding feed_open
feed st c =
    if is_pending st
    then deliver (finish st none) (feed_open (reset_frame st) c)
    else feed_open st c

unfoldable pub run : RxFrameState → Packet → Rx
unfolding feed
run st [] = received st []
run st (c ∷ cs) = and_then (feed st c) (λ st'. run st' cs)

-- Every state that the reassembly reaches.
pub record IsFrameState (st : RxFrameState) : Type 0 where
  pub prefix_le : length st.prefix ≤ 16
  pub body : (length st.prefix ≡ 16) → st.payload_len ≤ length st.payload + st.body_remaining
  pub inline : (length st.prefix ≡ 16) → st.payload_len ≡ 0 → 0 < st.body_remaining

pub deliver_nil : (r : Rx) → deliver [] r ≡ r
deliver_nil stuck = refl
deliver_nil aborted = refl
deliver_nil (received st ds) = refl

deliver-deliver :
    (ds es : List Delivery) (r : Rx) → deliver ds (deliver es r) ≡ deliver (ds ++ es) r
deliver-deliver ds es stuck = refl
deliver-deliver ds es aborted = refl
deliver-deliver ds es (received st fs) = ap (received st) (sym (append_assoc ds es fs))

pub and_then-deliver :
    (ds : List Delivery) (r : Rx) (k : RxFrameState → Rx)
    → and_then (deliver ds r) k ≡ deliver ds (and_then r k)
and_then-deliver ds stuck k = refl
and_then-deliver ds aborted k = refl
and_then-deliver ds (received st es) k = sym (deliver-deliver ds es (k st))

and_then-and_then :
    (r : Rx) (k l : RxFrameState → Rx)
    → and_then (and_then r k) l ≡ and_then r (λ s. and_then (k s) l)
and_then-and_then stuck k l = refl
and_then-and_then aborted k l = refl
and_then-and_then (received st ds) k l = and_then-deliver ds (k st) l

-- Bytes that arrive later are taken later.
pub run-append :
    (st : RxFrameState) (xs ys : Packet) → run st (xs ++ ys) ≡ and_then (run st xs) (λ s. run s ys)
unfolding run
run-append st [] ys = sym (deliver_nil (run st ys))
run-append st (c ∷ cs) ys =
    ap (and_then (feed st c)) (λ i s. run-append s cs ys i)
    ∙ sym (and_then-and_then (feed st c) (λ s. run s cs) (λ s. run s ys))

-- ===== src/Wire/Receive/Streams.antt =====
-- HandleRead on the packets of a stream: the same result however the stream is cut.
use ghostdagsim.Common.{
  ℕ, suc, zero, ◌+◌, ◌-◌, ◌*◌, ◌<◌, ◌≤◌, ◌≡◌, refl, ap, sym, ◌∙◌, false, List, [], ◌∷◌, ◌++◌,
  Option, none, length, if◌then◌else◌, ltb, ◌==◌, arith, Bool-cases, Option-cases, inl, inr,
  length-append, All, eq_of_==,
}
use ghostdagsim.Wire.Frame.{Bytes, Cell, Packet}
use ghostdagsim.Wire.Send.{concat}
use ghostdagsim.Wire.Receive.{
  RxFrameState, reset_frame, Delivery, Rx, stuck, aborted, received, deliver, and_then, read_prefix,
  finish, resume, rx_loop, rounds_for, handle_read,
}
use ghostdagsim.Wire.Receive.Bytewise.{feed_open, feed, run, is_pending, IsFrameState, run-append}
use ghostdagsim.Wire.Receive.Chunks.{
  round-prefix, round-payload, body_open, body_ends, body_pending, read_prefix-IsFrameState,
}

-- With enough rounds the loop takes the packet byte by byte.
pub rx_loop-run :
    (rounds : ℕ) (st : RxFrameState) (last : Option Bytes) (cs : Packet)
    → IsFrameState st
    → 2 * length cs + (if is_pending st then 1 else 0) ≤ rounds
    → rx_loop rounds st last cs ≡ run st cs
unfolding rx_loop run
rx_loop-run zero st last [] w h = refl
rx_loop-run (suc rounds) st last [] w h = refl
rx_loop-run zero st last (c ∷ cs) w h = absurd (omega arith)
rx_loop-run (suc rounds) st last (c ∷ cs) w h =
    let ih = rx_loop-run rounds in
    let more : 2 * length (c ∷ cs) ≤ suc rounds = ground arith in
    elim (Bool-cases (ltb (length st.prefix) 16)) [
      | inl e ↦ round-prefix rounds st last c cs ih w more (ground arith)
      | inr e ↦
          let full : length st.prefix ≡ 16 = ground (arith, w.prefix_le) in
          elim (Bool-cases (ltb (length st.payload) st.payload_len)) [
            | inl e' ↦ round-payload rounds st last c cs ih w more full (ground arith)
            | inr e' ↦ elim (Bool-cases (ltb (length (c ∷ cs)) st.body_remaining)) [
              | inl open_yet ↦
                  body_open rounds st last c cs ih w more full (ground arith) (ground arith)
              | inr ends ↦ elim (Bool-cases (st.body_remaining == 0)) [
                | inl z ↦
                    body_pending rounds st last c cs ih w more full (ground arith) (ground arith)
                      (ground arith)
                | inr pos ↦
                    body_ends rounds st last c cs ih w more full (ground arith) (ground arith)
                      (ground arith)
              ]
            ]
          ]
    ]

-- Whatever state comes out is one of the reassembly.
abbrev Keeps : Rx → Type 0
Keeps stuck = Unit
Keeps aborted = Unit
Keeps (received s ds) = IsFrameState s

Keeps-deliver : (ds : List Delivery) (r : Rx) → Keeps r → Keeps (deliver ds r)
Keeps-deliver ds stuck h = h
Keeps-deliver ds aborted h = h
Keeps-deliver ds (received s es) h = h

Keeps-and_then :
    (r : Rx) (k : RxFrameState → Rx)
    → Keeps r
    → ((s : RxFrameState) → IsFrameState s → Keeps (k s))
    → Keeps (and_then r k)
Keeps-and_then stuck k h f = tt
Keeps-and_then aborted k h f = tt
Keeps-and_then (received s ds) k h f = Keeps-deliver ds (k s) (f s h)

Keeps-resume :
    (st : RxFrameState)
    → length st.prefix ≡ 16
    → Keeps (resume (read_prefix st) (λ s. received s []))
Keeps-resume st h = elim (Option-cases (read_prefix st)) [
  | inl e ↦ rw e tt
  | inr (s, e) ↦ rw e (read_prefix-IsFrameState st s h e)
]

-- The cases of `feed_open`, as tests.
feed_open-cases :
    (st : RxFrameState) (c : Cell)
    → feed_open st c ≡ (
        if ltb (length st.prefix) 16
        then (if length (st.prefix ++ c.byte ∷ []) == 16
            then resume
                (read_prefix (record st { prefix = st.prefix ++ c.byte ∷ [] }))
                (λ s. received s [])
            else received (record st { prefix = st.prefix ++ c.byte ∷ [] }) [])
        else (if ltb (length st.payload) st.payload_len
            then received
                (record st {
                  payload = st.payload ++ c.byte ∷ [];
                  body_remaining = st.body_remaining - 1;
                })
                []
            else (if ltb 0 (st.body_remaining - 1)
                then received (record st { body_remaining = st.body_remaining - 1 }) []
                else received
                    (reset_frame st)
                    (finish (record st { body_remaining = st.body_remaining - 1 }) c.tag))))
unfolding feed_open
feed_open-cases st c = ground arith

feed_open-Keeps :
    (st : RxFrameState) (c : Cell)
    → IsFrameState st
    → is_pending st ≡ false
    → Keeps (feed_open st c)
feed_open-Keeps st c w h =
    rw (feed_open-cases st c) (elim (Bool-cases (ltb (length st.prefix) 16)) [
      | inl e ↦
          let longer = length-append st.prefix (c.byte ∷ []) in
          elim (Bool-cases (length (st.prefix ++ c.byte ∷ []) == 16)) [
            | inl e' ↦
                rw (e, e')
                  (Keeps-resume (record st { prefix = st.prefix ++ c.byte ∷ [] }) (eq_of_== _ _ e'))
            | inr e' ↦
                rw (e, e')
                  (record {
                    prefix_le = ground arith;
                    body = λ q. ground arith;
                    inline = λ q _. ground arith;
                  })
          ]
      | inr e ↦ elim (Bool-cases (ltb (length st.payload) st.payload_len)) [
        | inl e' ↦
            let longer = length-append st.payload (c.byte ∷ []) in
            rw (e, e')
              (record {
                prefix_le = w.prefix_le;
                body = λ q. ground (arith, w.body q);
                inline = λ q z. ground arith;
              })
        | inr e' ↦ elim (Bool-cases (ltb 0 (st.body_remaining - 1))) [
          | inl e'' ↦
              rw (e, e', e'')
                (record {
                  prefix_le = w.prefix_le;
                  body = λ q. ground arith;
                  inline = λ q z. ground arith;
                })
          | inr e'' ↦
              rw (e, e', e'')
                (record {
                  prefix_le = omega arith;
                  body = λ q. absurd (omega arith);
                  inline = λ q _. absurd (omega arith);
                })
        ]
      ]
    ])

feed-Keeps : (st : RxFrameState) (c : Cell) → IsFrameState st → Keeps (feed st c)
unfolding feed
feed-Keeps st c w = elim (Bool-cases (is_pending st)) [
  | inl e ↦ rw e (
      Keeps-deliver (finish st none) (feed_open (reset_frame st) c) (
        feed_open-Keeps (reset_frame st) c
          (record {
            prefix_le = omega arith;
            body = λ q. absurd (omega arith);
            inline = λ q _. absurd (omega arith);
          })
          refl))
  | inr e ↦ rw e (feed_open-Keeps st c w e)
]

pub run-Keeps : (st : RxFrameState) (cs : Packet) → IsFrameState st → Keeps (run st cs)
unfolding run
run-Keeps st [] w = w
run-Keeps st (c ∷ cs) w =
    Keeps-and_then (feed st c) (λ s. run s cs) (feed-Keeps st c w) (λ s v. run-Keeps s cs v)

and_then-congr :
    (r : Rx) (k l : RxFrameState → Rx)
    → Keeps r
    → ((s : RxFrameState) → IsFrameState s → k s ≡ l s)
    → and_then r k ≡ and_then r l
and_then-congr stuck k l h f = refl
and_then-congr aborted k l h f = refl
and_then-congr (received s ds) k l h f = ap (deliver ds) (f s h)

pub handle_read-run :
    (st : RxFrameState) (ps : List Packet)
    → IsFrameState st
    → All (λ p. 0 < length p) ps
    → handle_read st ps ≡ run st (concat ps)
unfolding handle_read run
handle_read-run st [] w h = refl
handle_read-run st (p ∷ ps) w h =
    let filled : (length p == 0) ≡ false = ground arith in
    rw filled (
      ap (λ r. and_then r (λ s. handle_read s ps))
        (rx_loop-run (rounds_for p) st none p w (ground arith))
      ∙ and_then-congr (run st p) (λ s. handle_read s ps) (λ s. run s (concat ps))
          (run-Keeps st p w) (λ s v. handle_read-run s ps v h.1)
      ∙ sym (run-append st p (concat ps)))

-- On a well-formed state of the reassembly, two ways to cut a stream into packets that are not empty
-- have the same result: the same frames are handed out, or the same error, and what is kept for the
-- next packet is the same.
pub handle_read-chunks :
    (st : RxFrameState) (ps qs : List Packet)
    → IsFrameState st
    → All (λ p. 0 < length p) ps
    → All (λ p. 0 < length p) qs
    → concat ps ≡ concat qs
    → handle_read st ps ≡ handle_read st qs
handle_read-chunks st ps qs w h k e =
    handle_read-run st ps w h ∙ ap (run st) e ∙ sym (handle_read-run st qs w k)

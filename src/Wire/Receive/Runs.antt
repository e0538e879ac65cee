-- ===== src/Wire/Receive/Runs.antt =====
-- Several bytes of one part of a frame: of its prefix, of its payload, of what follows.
use ghostdagsim.Common.{
  ◌+◌, ◌-◌, ◌<◌, ◌≤◌, ◌≡◌, refl, ap, ap₂, sym, ◌∙◌, [], ◌∷◌, ◌++◌, Option, length, arith,
  length-append,
}
use mathlib.Core.List.{append-nil, append_assoc}
use ghostdagsim.Wire.Frame.{Bytes, Cell, Packet, bytes}
use ghostdagsim.Wire.Receive.{
  RxFrameState, reset_frame, Rx, stuck, aborted, received, and_then, read_prefix, finish, last_tag,
  resume,
}
use ghostdagsim.Wire.Receive.Bytewise.{feed_open, feed, run, deliver_nil}

and_then_received : (r : Rx) → and_then r (λ s. received s []) ≡ r
and_then_received stuck = refl
and_then_received aborted = refl
and_then_received (received st ds) = ap (received st) (append-nil ds)

feed-prefix :
    (st : RxFrameState) (c : Cell)
    → length st.prefix + 1 < 16
    → feed st c ≡ received (record st { prefix = st.prefix ++ c.byte ∷ [] }) []
unfolding feed feed_open
feed-prefix st c h = ground (arith, length-append st.prefix (c.byte ∷ []))

feed-prefix_last :
    (st : RxFrameState) (c : Cell)
    → length st.prefix + 1 ≡ 16
    → feed st c
      ≡ resume (read_prefix (record st { prefix = st.prefix ++ c.byte ∷ [] })) (λ s. received s [])
unfolding feed feed_open
feed-prefix_last st c h = ground (arith, length-append st.prefix (c.byte ∷ []))

feed-payload :
    (st : RxFrameState) (c : Cell)
    → length st.prefix ≡ 16
    → length st.payload < st.payload_len
    → feed st c
      ≡ received
          (record st {
            payload = st.payload ++ c.byte ∷ [];
            body_remaining = st.body_remaining - 1;
          })
          []
unfolding feed feed_open
feed-payload st c h p = ground arith

feed-body :
    (st : RxFrameState) (c : Cell)
    → length st.prefix ≡ 16
    → st.payload_len ≤ length st.payload
    → 1 < st.body_remaining
    → feed st c ≡ received (record st { body_remaining = st.body_remaining - 1 }) []
unfolding feed feed_open
feed-body st c h p b = ground arith

feed-body_last :
    (st : RxFrameState) (c : Cell)
    → length st.prefix ≡ 16
    → st.payload_len ≤ length st.payload
    → st.body_remaining ≡ 1
    → feed st c ≡ received (reset_frame st) (finish st c.tag)
unfolding feed feed_open finish
feed-body_last st c h p b = ground arith

snoc_assoc :
    (xs : Bytes) (c : Cell) (cs : Packet) → (xs ++ c.byte ∷ []) ++ bytes cs ≡ xs ++ bytes (c ∷ cs)
snoc_assoc xs c cs = append_assoc xs (c.byte ∷ []) (bytes cs)

pub prefix_run :
    (st : RxFrameState) (cs : Packet)
    → length st.prefix + length cs < 16
    → run st cs ≡ received (record st { prefix = st.prefix ++ bytes cs }) []
unfolding run
prefix_run st [] h = ap (λ p. received (record st { prefix = p }) []) (sym (append-nil st.prefix))
prefix_run st (c ∷ cs) h =
    let st' : RxFrameState = record st { prefix = st.prefix ++ c.byte ∷ [] } in
    ap (λ r. and_then r (λ s. run s cs)) (feed-prefix st c (omega arith))
    ∙ deliver_nil (run st' cs)
    ∙ prefix_run st' cs (omega (arith, length-append st.prefix (c.byte ∷ [])))
    ∙ ap (λ p. received (record st { prefix = p }) []) (snoc_assoc st.prefix c cs)

pub prefix_full :
    (st : RxFrameState) (cs : Packet)
    → length st.prefix < 16
    → length st.prefix + length cs ≡ 16
    → run st cs
      ≡ resume (read_prefix (record st { prefix = st.prefix ++ bytes cs })) (λ s. received s [])
unfolding run
prefix_full st [] p h = absurd (omega arith)
prefix_full st (c ∷ []) p h =
    ap (λ r. and_then r (λ s. received s [])) (feed-prefix_last st c (omega arith))
    ∙ and_then_received _
prefix_full st (c ∷ d ∷ cs) p h =
    let st' : RxFrameState = record st { prefix = st.prefix ++ c.byte ∷ [] } in
    let longer = length-append st.prefix (c.byte ∷ []) in
    ap (λ r. and_then r (λ s. run s (d ∷ cs))) (feed-prefix st c (omega arith))
    ∙ deliver_nil (run st' (d ∷ cs))
    ∙ prefix_full st' (d ∷ cs) (omega arith) (omega arith)
    ∙ ap (λ q. resume (read_prefix (record st { prefix = q })) (λ s. received s []))
        (snoc_assoc st.prefix c (d ∷ cs))

pub payload_run :
    (st : RxFrameState) (cs : Packet)
    → length st.prefix ≡ 16
    → length st.payload + length cs ≤ st.payload_len
    → run st cs
      ≡ received
          (record st {
            payload = st.payload ++ bytes cs;
            body_remaining = st.body_remaining - length cs;
          })
          []
unfolding run
payload_run st [] p h =
    ap (λ q. received (record st { payload = q }) []) (sym (append-nil st.payload))
    ∙ ap (λ n. received (record st { payload = st.payload ++ []; body_remaining = n }) [])
        (omega arith)
payload_run st (c ∷ cs) p h =
    let st' : RxFrameState = record st {
      payload = st.payload ++ c.byte ∷ [];
      body_remaining = st.body_remaining - 1;
    } in
    ap (λ r. and_then r (λ s. run s cs)) (feed-payload st c p (omega arith))
    ∙ deliver_nil (run st' cs)
    ∙ payload_run st' cs p (omega (arith, length-append st.payload (c.byte ∷ [])))
    ∙ ap₂ (λ q n. received (record st { payload = q; body_remaining = n }) [])
        (snoc_assoc st.payload c cs) (omega arith)

pub body_run :
    (st : RxFrameState) (cs : Packet)
    → length st.prefix ≡ 16
    → st.payload_len ≤ length st.payload
    → length cs < st.body_remaining
    → run st cs ≡ received (record st { body_remaining = st.body_remaining - length cs }) []
unfolding run
body_run st [] p q h = ap (λ n. received (record st { body_remaining = n }) []) (omega arith)
body_run st (c ∷ cs) p q h =
    let st' : RxFrameState = record st { body_remaining = st.body_remaining - 1 } in
    ap (λ r. and_then r (λ s. run s cs)) (feed-body st c p q (omega arith))
    ∙ deliver_nil (run st' cs)
    ∙ body_run st' cs p q (omega arith)
    ∙ ap (λ n. received (record st { body_remaining = n }) []) (omega arith)

pub body_full :
    (st : RxFrameState) (last : Option Bytes) (cs : Packet)
    → length st.prefix ≡ 16
    → st.payload_len ≤ length st.payload
    → length cs ≡ st.body_remaining
    → 0 < st.body_remaining
    → run st cs ≡ received (reset_frame st) (finish st (last_tag last cs))
unfolding run finish
body_full st last [] p q h b = absurd (omega arith)
body_full st last (c ∷ []) p q h b =
    ap (λ r. and_then r (λ s. received s [])) (feed-body_last st c p q (omega arith))
    ∙ and_then_received _
body_full st last (c ∷ d ∷ cs) p q h b =
    let st' : RxFrameState = record st { body_remaining = st.body_remaining - 1 } in
    ap (λ r. and_then r (λ s. run s (d ∷ cs))) (feed-body st c p q (omega arith))
    ∙ deliver_nil (run st' (d ∷ cs))
    ∙ body_full st' c.tag (d ∷ cs) p q (omega arith) (omega arith)

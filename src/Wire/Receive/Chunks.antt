-- ===== src/Wire/Receive/Chunks.antt =====
-- HandleRead takes the same bytes, whatever packets they come in.
use ghostdagsim.Common.{
  ℕ, suc, ◌+◌, ◌-◌, ◌*◌, ◌<◌, ◌≤◌, ◌≡◌, refl, ap, ap₂, sym, ◌∙◌, min, true, false, [], ◌∷◌, ◌++◌,
  Option, none, some, length, take, drop, if◌then◌else◌, ltb, ◌==◌, arith, Bool-cases, Option-cases,
  inl, inr, length-append, length-take, length-drop, take-drop, eq_of_==,
}
use ghostdagsim.Wire.Frame.{Bytes, Cell, Packet, bytes}
use ghostdagsim.Wire.Receive.{
  RxFrameState, reset_frame, Rx, received, deliver, and_then, read_prefix, finish, last_tag, resume,
  rx_loop,
}
use ghostdagsim.Wire.Receive.Bytewise.{
  feed_open, feed, run, is_pending, IsFrameState, deliver_nil, and_then-deliver, run-append,
}
use ghostdagsim.Wire.Receive.Runs.{prefix_run, prefix_full, payload_run, body_run, body_full}

split :
    (st : RxFrameState) (n : ℕ) (cs : Packet)
    → run st cs ≡ and_then (run st (take n cs)) (λ s. run s (drop n cs))
split st n cs = ap (run st) (sym (take-drop n cs)) ∙ run-append st (take n cs) (drop n cs)

length-bytes : (cs : Packet) → length (bytes cs) ≡ length cs
length-bytes [] = refl
length-bytes (c ∷ cs) = ap suc (length-bytes cs)

pub read_prefix-IsFrameState :
    (st s : RxFrameState) → length st.prefix ≡ 16 → read_prefix st ≡ some s → IsFrameState s
unfolding read_prefix
read_prefix-IsFrameState st s h e = record {
  prefix_le = ground arith;
  body = λ _. ground arith;
  inline = λ _ _. ground arith;
}

resume-and_then :
    (o : Option RxFrameState) (k : RxFrameState → Rx)
    → and_then (resume o (λ s. received s [])) k ≡ resume o k
resume-and_then none k = refl
resume-and_then (some s) k = deliver_nil (k s)

-- A complete frame that is still there goes out before the next byte.
pub run_pending :
    (st : RxFrameState) (c : Cell) (cs : Packet)
    → is_pending st ≡ true
    → run st (c ∷ cs) ≡ deliver (finish st none) (run (reset_frame st) (c ∷ cs))
unfolding run feed
run_pending st c cs h =
    rw h (and_then-deliver (finish st none) (feed_open (reset_frame st) c) (λ s. run s cs))

finish_inline :
    (st : RxFrameState) (k : ℕ) (last : Option Bytes)
    → 0 < st.payload_len
    → finish (record st { body_remaining = k }) last ≡ finish st none
unfolding finish
finish_inline st k last h = ground arith

-- One round, by the part of the frame that the next byte belongs to.
module _ (rounds : ℕ) (st : RxFrameState) (last : Option Bytes) (c : Cell) (cs : Packet) where
  abbrev pub again : ℕ → RxFrameState → Rx
  again n s = rx_loop rounds s (last_tag last (take n (c ∷ cs))) (drop n (c ∷ cs))

  abbrev with_prefix : ℕ → RxFrameState
  with_prefix n = record st { prefix = st.prefix ++ bytes (take n (c ∷ cs)) }

  abbrev with_payload : ℕ → RxFrameState
  with_payload n = record st {
    payload = st.payload ++ bytes (take n (c ∷ cs));
    body_remaining = st.body_remaining - n;
  }

  abbrev with_body : ℕ → RxFrameState
  with_body n = record st { body_remaining = st.body_remaining - n }

  loop-prefix :
      length st.prefix < 16
      → let n : ℕ = min (16 - length st.prefix) (length (c ∷ cs)) in
        rx_loop (suc rounds) st last (c ∷ cs) ≡ (
          if length (with_prefix n).prefix == 16
          then resume (read_prefix (with_prefix n)) (again n)
          else again n (with_prefix n))
  unfolding rx_loop
  loop-prefix h = ground arith

  loop-payload :
      length st.prefix ≡ 16
      → length st.payload < st.payload_len
      → let n : ℕ = min (st.payload_len - length st.payload) (length (c ∷ cs)) in
        rx_loop (suc rounds) st last (c ∷ cs) ≡ again n (with_payload n)
  unfolding rx_loop
  loop-payload h p = ground arith

  loop-body :
      length st.prefix ≡ 16
      → st.payload_len ≤ length st.payload
      → let n : ℕ = min st.body_remaining (length (c ∷ cs)) in
        rx_loop (suc rounds) st last (c ∷ cs) ≡ (
          if ltb 0 (st.body_remaining - n)
          then again n (with_body n)
          else deliver
              (finish (with_body n) (last_tag last (take n (c ∷ cs))))
              (again n (reset_frame st)))
  unfolding rx_loop
  loop-body h p = ground arith

  abbrev pub Agrees : Type 0
  Agrees =
      (s : RxFrameState) (l : Option Bytes) (ds : Packet)
      → IsFrameState s
      → 2 * length ds + (if is_pending s then 1 else 0) ≤ rounds
      → rx_loop rounds s l ds ≡ run s ds

  module _ (ih : Agrees) (w : IsFrameState st) (enough : 2 * length (c ∷ cs) ≤ suc rounds) where
    again-run :
        (n : ℕ) (s : RxFrameState)
        → 0 < n
        → n ≤ length (c ∷ cs)
        → IsFrameState s
        → again n s ≡ run s (drop n (c ∷ cs))
    again-run n s pos le v =
        ih s (last_tag last (take n (c ∷ cs))) (drop n (c ∷ cs)) v
          (ground (arith, length-drop n (c ∷ cs)))

    pub round-prefix :
        length st.prefix < 16 → rx_loop (suc rounds) st last (c ∷ cs) ≡ run st (c ∷ cs)
    round-prefix h =
        let n : ℕ = min (16 - length st.prefix) (length (c ∷ cs)) in
        let taken : length (take n (c ∷ cs)) ≡ n = length-take n (c ∷ cs) (omega arith) in
        let longer = length-append st.prefix (bytes (take n (c ∷ cs))) in
        let size = length-bytes (take n (c ∷ cs)) in
        loop-prefix h ∙ (elim (Bool-cases (length (with_prefix n).prefix == 16)) [
          | inl e ↦ rw e (
              full n (ground arith) (omega arith) (omega arith)
              ∙ sym (
                  split st n (c ∷ cs)
                  ∙ ap (λ r. and_then r (λ s. run s (drop n (c ∷ cs))))
                      (prefix_full st (take n (c ∷ cs)) h (omega (arith, eq_of_== _ _ e)))
                  ∙ resume-and_then (read_prefix (with_prefix n)) (λ s. run s (drop n (c ∷ cs)))))
          | inr e ↦ rw e (
              again-run n (with_prefix n) (omega arith) (omega arith) (partial n (ground arith))
              ∙ sym (
                  split st n (c ∷ cs)
                  ∙ ap (λ r. and_then r (λ s. run s (drop n (c ∷ cs))))
                      (prefix_run st (take n (c ∷ cs)) (ground arith))
                  ∙ deliver_nil (run (with_prefix n) (drop n (c ∷ cs)))))
        ])
      where
        partial : (n : ℕ) → length (with_prefix n).prefix < 16 → IsFrameState (with_prefix n)
        partial n lt = record {
          prefix_le = omega arith;
          body = λ e. absurd (omega arith);
          inline = λ e _. absurd (omega arith);
        }

        full :
            (n : ℕ)
            → length (with_prefix n).prefix ≡ 16
            → 0 < n
            → n ≤ length (c ∷ cs)
            → resume (read_prefix (with_prefix n)) (again n)
              ≡ resume (read_prefix (with_prefix n)) (λ s. run s (drop n (c ∷ cs)))
        full n e pos le = elim (Option-cases (read_prefix (with_prefix n))) [
          | inl bad ↦ rw bad
          | inr (s, good) ↦
              rw good (again-run n s pos le (read_prefix-IsFrameState (with_prefix n) s e good))
        ]

    pub round-payload :
        length st.prefix ≡ 16
        → length st.payload < st.payload_len
        → rx_loop (suc rounds) st last (c ∷ cs) ≡ run st (c ∷ cs)
    round-payload h p =
        let n : ℕ = min (st.payload_len - length st.payload) (length (c ∷ cs)) in
        let taken : length (take n (c ∷ cs)) ≡ n = length-take n (c ∷ cs) (omega arith) in
        let longer = length-append st.payload (bytes (take n (c ∷ cs))) in
        let size = length-bytes (take n (c ∷ cs)) in
        let room = w.body h in
        loop-payload h p
        ∙ again-run n (with_payload n) (omega arith) (omega arith) (record {
          prefix_le = w.prefix_le;
          body = λ _. omega arith;
          inline = λ _ e. absurd (omega arith);
        })
        ∙ sym (
            split st n (c ∷ cs)
            ∙ ap (λ r. and_then r (λ s. run s (drop n (c ∷ cs))))
                (payload_run st (take n (c ∷ cs)) h (omega arith)
                  ∙ ap
                      (λ k.
                        received
                          (record (with_payload n) { body_remaining = st.body_remaining - k }) [])
                      taken)
            ∙ deliver_nil (run (with_payload n) (drop n (c ∷ cs))))

    pub body_open :
        length st.prefix ≡ 16
        → st.payload_len ≤ length st.payload
        → length (c ∷ cs) < st.body_remaining
        → rx_loop (suc rounds) st last (c ∷ cs) ≡ run st (c ∷ cs)
    body_open h p lt =
        let n : ℕ = min st.body_remaining (length (c ∷ cs)) in
        let taken : length (take n (c ∷ cs)) ≡ n = length-take n (c ∷ cs) (omega arith) in
        let test : ltb 0 (st.body_remaining - n) ≡ true = ground arith in
        loop-body h p
        ∙ rw test (
            again-run n (with_body n) (omega arith) (omega arith) (record {
              prefix_le = w.prefix_le;
              body = λ _. omega (arith, w.body h);
              inline = λ _ e. omega arith;
            })
            ∙ sym (
                split st n (c ∷ cs)
                ∙ ap (λ r. and_then r (λ s. run s (drop n (c ∷ cs))))
                    (body_run st (take n (c ∷ cs)) h p (omega arith)
                      ∙ ap (λ k. received (record st { body_remaining = st.body_remaining - k }) [])
                          taken)
                ∙ deliver_nil (run (with_body n) (drop n (c ∷ cs)))))

    reset-IsFrameState : IsFrameState (reset_frame st)
    reset-IsFrameState = record {
      prefix_le = omega arith;
      body = λ e. absurd (omega arith);
      inline = λ e _. absurd (omega arith);
    }

    pub body_ends :
        length st.prefix ≡ 16
        → st.payload_len ≤ length st.payload
        → st.body_remaining ≤ length (c ∷ cs)
        → 0 < st.body_remaining
        → rx_loop (suc rounds) st last (c ∷ cs) ≡ run st (c ∷ cs)
    unfolding finish run
    body_ends h p le pos =
        let n : ℕ = min st.body_remaining (length (c ∷ cs)) in
        let taken : length (take n (c ∷ cs)) ≡ n = length-take n (c ∷ cs) (omega arith) in
        let test : ltb 0 (st.body_remaining - n) ≡ false = ground arith in
        loop-body h p
        ∙ rw test (
            ap (deliver (finish (with_body n) (last_tag last (take n (c ∷ cs)))))
              (again-run n (reset_frame st) (omega arith) (omega arith) reset-IsFrameState)
            ∙ sym (
                split st n (c ∷ cs)
                ∙ ap (λ r. and_then r (λ s. run s (drop n (c ∷ cs))))
                    (body_full st last (take n (c ∷ cs)) h p (omega arith) pos)))

    pub body_pending :
        length st.prefix ≡ 16
        → st.payload_len ≤ length st.payload
        → st.body_remaining ≡ 0
        → 2 * length (c ∷ cs) ≤ rounds
        → rx_loop (suc rounds) st last (c ∷ cs) ≡ run st (c ∷ cs)
    body_pending h p z more =
        let n : ℕ = min st.body_remaining (length (c ∷ cs)) in
        let nothing : n ≡ 0 = omega arith in
        let test : ltb 0 (st.body_remaining - n) ≡ false = ground arith in
        loop-body h p
        ∙ rw test (
            ap
              (λ k.
                deliver (finish (with_body k) (last_tag last (take k (c ∷ cs))))
                  (again k (reset_frame st)))
              nothing)
        ∙ ap₂ deliver (finish_inline st (st.body_remaining - 0) last inline_pos)
            (ih (reset_frame st) last (c ∷ cs) reset-IsFrameState (ground arith))
        ∙ sym (run_pending st c cs (ground arith))
      where
        inline_pos : 0 < st.payload_len
        inline_pos = elim (Bool-cases (st.payload_len == 0)) [
          | inl e ↦ let b = w.inline h (eq_of_== st.payload_len 0 e) in omega arith
          | inr e ↦ ground arith
        ]

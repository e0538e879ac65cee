-- ===== src/Node/Timeouts/Asked.antt =====
-- What ProcessTxTimeouts of node.cc does to each request.
use ghostdagsim.Common.{
  ℕ, zero, suc, ◌+◌, ◌<◌, ◌≤◌, ◌≡◌, ◌⊎◌, refl, sym, ap₂, arith, false, not, List, [], ◌∷◌, ◌++◌,
  Option, none, some, length, subst, ap, ◌∙◌, Bool-cases, inl, inr, ◌==◌, is_some, max,
  if◌then◌else◌, set, get_or, length-set, eq_of_==,
}
use mathlib.Core.List.{append-nil}
use ghostdagsim.Common.Maps.{find, find-assign, find-erase}
use ghostdagsim.Node.State.{
  Node, Sent, Message, req_transactions, TxRequest, Library, send_lem, sent_with,
}
use ghostdagsim.Node.Sizes.{wire_size_tx_inv}
use ghostdagsim.Node.Transactions.{arm_tx_timeout_timer}
use ghostdagsim.Node.Timeouts.{swap_front, expire, process_entry, process_loop, process_tx_timeouts}
use ghostdagsim.Node.Timeouts.Ends.{process_entry-inv_timeout}
use ghostdagsim.Node.Timeouts.Rule.{InSome, process_loop_rule}
use ghostdagsim.Node.Timeouts.Fate.{
  IsSent, IsSent-last, asking, Outcome, Outcome-same, start_Outcome, Outcome-gone, Outcome-again,
}

first-swap_front :
    (i a : ℕ) (as' : List ℕ) → get_or (swap_front i a as') 0 a ≡ get_or (swap_front i a as') 0 0
first-swap_front zero a as' = refl
first-swap_front (suc i) a as' = refl

length-swap_front : (i a : ℕ) (as' : List ℕ) → length (swap_front i a as') ≡ length as' + 1
length-swap_front i a as' =
    length-set (set (a ∷ as') 0 (get_or (a ∷ as') i a)) i a
    ∙ length-set (a ∷ as') 0 (get_or (a ∷ as') i a)
    ∙ omega arith

-- What is sent comes after what was sent, and nothing is sent on a node that does not run.
sent_with-grows :
    (n : Node) (to : ℕ) (message : Message) (w : ℕ)
    → (ts : List Sent) × (sent_with n to message w ≡ n.sent ++ ts)
sent_with-grows n to message w = elim (Bool-cases n.running) [
  | inl runs ↦ (record { to = to; message = message; wire_bytes = w } ∷ [], rw runs refl)
  | inr stopped ↦ ([], rw stopped (sym (append-nil n.sent)))
]

sent_with-last :
    (n : Node) (to : ℕ) (message : Message) (w : ℕ)
    → ((n.running ≡ false)
        ⊎ IsSent (record { to = to; message = message; wire_bytes = w }) (sent_with n to message w))
sent_with-last n to message w = elim (Bool-cases n.running) [
  | inl runs ↦ inr (rw runs (IsSent-last _ n.sent))
  | inr stopped ↦ inl stopped
]

module _ (library : Library) (now timeout tx_id : ℕ) (pos : 0 < timeout) where
  expire-Outcome :
      (before : Option TxRequest) (t d : ℕ) (announcers : List ℕ) (n : Node)
      → d ≤ now
      → n.inv_timeout ≡ timeout
      → find t n.queue_inv_tx ≡ some (record { announcers = announcers; deadline = d })
      → Outcome now timeout tx_id before n
      → Outcome now timeout tx_id before
          (expire library now t (record { announcers = announcers; deadline = d }) n)
  unfolding expire
  expire-Outcome before t d [] n due same there_t h = h
  expire-Outcome before t d (a ∷ []) n due same there_t h = elim (Bool-cases (tx_id == t)) [
    | inl e ↦
        Outcome-gone now timeout tx_id (record { announcers = a ∷ []; deadline = d }) n _
          (ap (λ k. find k n.queue_inv_tx) (eq_of_== tx_id t e) ∙ there_t) due pos before
          (omega arith) (find-erase tx_id t n.queue_inv_tx ∙ rw e refl) h
    | inr e ↦
        Outcome-same now timeout tx_id before n _ [] (find-erase tx_id t n.queue_inv_tx ∙ rw e refl)
          refl (sym (append-nil n.sent)) h
  ]
  expire-Outcome before t d (asked ∷ a ∷ as') n due same there_t h =
      let (i, generator) : ℕ × ℕ = library.pick (length as') n.generator in
      let announcers : List ℕ = swap_front i a as' in
      let request : TxRequest = record {
        announcers = announcers;
        deadline = now + n.inv_timeout;
      } in
      let drawn : Node = record n { generator = generator } in
      let to : ℕ = get_or announcers 0 a in
      let message : Message = req_transactions (t ∷ []) in
      let (ts, grows) = sent_with-grows drawn to message (wire_size_tx_inv 1) in
      let last = sent_with-last drawn to message (wire_size_tx_inv 1) in
      elim (Bool-cases (tx_id == t)) [
        | inl e ↦ rw (send_lem drawn to message (wire_size_tx_inv 1)) (
            Outcome-again now timeout tx_id (record { announcers = asked ∷ a ∷ as'; deadline = d })
              n _ (ap (λ k. find k n.queue_inv_tx) (eq_of_== tx_id t e) ∙ there_t) due pos before
              request (find-assign tx_id t request n.queue_inv_tx ∙ rw e refl)
              (ap (λ k. k + 1) (length-swap_front i a as') ∙ omega arith) (ap (◌+◌ now) same)
              (elim last [
                | inl stopped ↦ inl stopped
                | inr sent ↦ inr (
                    subst (λ (x : Sent). IsSent x (sent_with drawn to message (wire_size_tx_inv 1)))
                      (ap₂ asking (sym (eq_of_== tx_id t e)) (first-swap_front i a as')) sent)
              ])
              h)
        | inr e ↦ rw (send_lem drawn to message (wire_size_tx_inv 1)) (
            Outcome-same now timeout tx_id before n _ ts
              (find-assign tx_id t request n.queue_inv_tx ∙ rw e refl) refl grows h)
      ]

  process_entry-Outcome :
      (before : Option TxRequest) (d t : ℕ) (n : Node)
      → d ≤ now
      → n.inv_timeout ≡ timeout
      → Outcome now timeout tx_id before n
      → Outcome now timeout tx_id before (process_entry library now d t n)
  unfolding process_entry
  process_entry-Outcome before d t n due same h = by_request (find t n.queue_inv_tx) refl
    where
      by_request :
          (o : Option TxRequest)
          → find t n.queue_inv_tx ≡ o
          → Outcome now timeout tx_id before (elim o [
            | none ↦ n
            | some req ↦ if not (req.deadline == d) then n else expire library now t req n
          ])
      by_request none missing = h
      by_request (some req) there_t = elim (Bool-cases (not (req.deadline == d))) [
        | inl stale ↦ rw stale h
        | inr in_time ↦
            rw in_time
              (expire-Outcome before t req.deadline req.announcers n (ground arith) same there_t h)
      ]

  -- What the loop keeps.
  Goes : Option TxRequest → Node → Type 0
  Goes before n = (n.inv_timeout ≡ timeout) × Outcome now timeout tx_id before n

  process_loop-Goes :
      (before : Option TxRequest) (rounds : ℕ) (n : Node)
      → Goes before n
      → InSome (Goes before) (process_loop library rounds now n)
  unfolding Goes
  process_loop-Goes before rounds n h =
      process_loop_rule library now (Goes before)
        (λ d t es m due same g. (
          process_entry-inv_timeout library now d t (record m { tx_timeout_queue = es })
                (subst (λ k. 0 < k) (sym g.0) pos)
              ∙ g.0,
          process_entry-Outcome before d t (record m { tx_timeout_queue = es }) due g.0
              (Outcome-same now timeout tx_id before m (record m { tx_timeout_queue = es }) [] refl
                refl (sym (append-nil m.sent)) g.1),
        ))
        rounds n h

  arm-Outcome :
      (before : Option TxRequest) (n : Node)
      → Outcome now timeout tx_id before n
      → Outcome now timeout tx_id before (arm_tx_timeout_timer now n)
  unfolding arm_tx_timeout_timer
  arm-Outcome before n h = by_queue n.tx_timeout_queue
    where
      by_queue :
          (q : List (ℕ × ℕ))
          → Outcome now timeout tx_id before (elim q [
            | [] ↦ n
            | entry ∷ entries ↦
                if is_some n.tx_timeout_event
                then n
                else record n { tx_timeout_event = some (max now entry.0) }
          ])
      by_queue [] = h
      by_queue (e ∷ es) = elim (Bool-cases (is_some n.tx_timeout_event)) [
        | inl pending ↦ rw pending h
        | inr idle ↦
            rw idle
              (Outcome-same now timeout tx_id before n _ [] refl refl (sym (append-nil n.sent)) h)
      ]

  -- Every request, after the timer.
  pub process_tx_timeouts-Outcome :
      (n : Node)
      → n.inv_timeout ≡ timeout
      → InSome
          (Outcome now timeout tx_id (find tx_id n.queue_inv_tx))
          (process_tx_timeouts library now n)
  unfolding process_tx_timeouts Goes
  process_tx_timeouts-Outcome n same = rearmed _ (
      process_loop-Goes (find tx_id n.queue_inv_tx) (length n.tx_timeout_queue) start
        (same, start_Outcome now timeout tx_id start))
    where
      start : Node
      start = record n { tx_timeout_event = none }

      rearmed :
          (o : Option Node)
          → InSome (Goes (find tx_id n.queue_inv_tx)) o
          → InSome
              (Outcome now timeout tx_id (find tx_id n.queue_inv_tx))
              (elim o [ none ↦ none | some n' ↦ some (arm_tx_timeout_timer now n') ])
      rearmed none h = tt
      rearmed (some n') h = arm-Outcome (find tx_id n.queue_inv_tx) n' h.1

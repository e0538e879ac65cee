-- ===== src/Node/Timeouts/Ends.antt =====
-- The loop of ProcessTxTimeouts.
use ghostdagsim.Common.{
  ℕ, zero, suc, ◌+◌, ◌<◌, ◌≤◌, ◌≡◌, refl, sym, arith, Bool, true, false, List, [], ◌∷◌, ◌++◌,
  Option, none, some, length, All, All-append, Bool-cases, inl, inr, subst, ap, ◌∙◌, not,
  if◌then◌else◌, ◌==◌, ltb,
}
use mathlib.Core.List.{append-nil, append_assoc}
use ghostdagsim.Common.Maps.{find}
use ghostdagsim.Node.State.{Node, TxRequest, Library, send_lem}
use ghostdagsim.Node.Transactions.{arm_tx_timeout_timer}
use ghostdagsim.Node.Timeouts.{expire, process_entry, process_loop, process_tx_timeouts}

abbrev pub Front : ℕ → List (ℕ × ℕ) → Type 0
Front now [] = Unit
Front now (e ∷ es) = now < e.0

abbrev Later : ℕ → List (ℕ × ℕ) → Type 0
Later now = All λ e. now < e.0

record Grows (now : ℕ) (n n' : Node) : Type 0 where
  inv_timeout : n'.inv_timeout ≡ n.inv_timeout
  event : n'.tx_timeout_event ≡ n.tx_timeout_event
  added : List (ℕ × ℕ)
  queue : n'.tx_timeout_queue ≡ n.tx_timeout_queue ++ added
  later : Later now added

module _ (library : Library) (now : ℕ) where
  stays : (n : Node) → Grows now n n
  stays n = record {
    inv_timeout = refl;
    event = refl;
    added = [];
    queue = sym (append-nil n.tx_timeout_queue);
    later = tt;
  }

  expire-Grows :
      (tx_id : ℕ) (announcers : List ℕ) (deadline : ℕ) (n : Node)
      → 0 < n.inv_timeout
      → Grows now n
          (expire library now tx_id (record { announcers = announcers; deadline = deadline }) n)
  unfolding expire
  expire-Grows tx_id [] d n pos = stays n
  expire-Grows tx_id (asked ∷ []) d n pos = record {
    inv_timeout = refl;
    event = refl;
    added = [];
    queue = sym (append-nil n.tx_timeout_queue);
    later = tt;
  }
  expire-Grows tx_id (asked ∷ a ∷ as') d n pos = rw (send_lem _ _ _ _) (record {
    inv_timeout = refl;
    event = refl;
    added = (now + n.inv_timeout, tx_id) ∷ [];
    queue = refl;
    later = (omega arith, tt);
  })

  either :
      (b : Bool) (n x y : Node) → Grows now n x → Grows now n y → Grows now n (if b then x else y)
  either true n x y p q = p
  either false n x y p q = q

  process_entry-Grows :
      (deadline tx_id : ℕ) (n : Node)
      → 0 < n.inv_timeout
      → Grows now n (process_entry library now deadline tx_id n)
  unfolding process_entry
  process_entry-Grows deadline tx_id n pos = kept (find tx_id n.queue_inv_tx)
    where
      kept :
          (o : Option TxRequest)
          → Grows now n (elim o [
            | none ↦ n
            | some req ↦
                if not (req.deadline == deadline) then n else expire library now tx_id req n
          ])
      kept none = stays n
      kept (some req) =
          either (not (req.deadline == deadline)) n n _ (stays n)
            (expire-Grows tx_id req.announcers req.deadline n pos)

  pub process_entry-inv_timeout :
      (deadline tx_id : ℕ) (n : Node)
      → 0 < n.inv_timeout
      → (process_entry library now deadline tx_id n).inv_timeout ≡ n.inv_timeout
  process_entry-inv_timeout deadline tx_id n pos =
      (process_entry-Grows deadline tx_id n pos).inv_timeout

  record Ended (event : Option ℕ) (r : Option Node) : Type 0 where
    node : Node
    ended : r ≡ some node
    event_kept : node.tx_timeout_event ≡ event
    front : Front now node.tx_timeout_queue

  later-Front : (q : List (ℕ × ℕ)) → Later now q → Front now q
  later-Front [] h = tt
  later-Front (e ∷ es) h = h.0

  with_queue : Node → List (ℕ × ℕ) → Node
  with_queue n q = record n { tx_timeout_queue = q }

  stops_at :
      (rounds : ℕ) (q : List (ℕ × ℕ)) (n : Node)
      → Front now q
      → Ended n.tx_timeout_event (process_loop library rounds now (with_queue n q))
  unfolding process_loop with_queue
  stops_at zero [] n h = record {
    node = with_queue n [];
    ended = refl;
    event_kept = refl;
    front = tt;
  }
  stops_at (suc r) [] n h = record {
    node = with_queue n [];
    ended = refl;
    event_kept = refl;
    front = tt;
  }
  stops_at zero (e ∷ es) n h = record {
    node = with_queue n (e ∷ es);
    ended = ground arith;
    event_kept = refl;
    front = h;
  }
  stops_at (suc r) (e ∷ es) n h = record {
    node = with_queue n (e ∷ es);
    ended = ground arith;
    event_kept = refl;
    front = h;
  }

  process_loop-Ended :
      (rounds : ℕ) (old new : List (ℕ × ℕ)) (n : Node)
      → length old ≤ rounds
      → Later now new
      → 0 < n.inv_timeout
      → Ended n.tx_timeout_event (process_loop library rounds now (with_queue n (old ++ new)))
  unfolding process_loop with_queue
  process_loop-Ended rounds [] new n h later pos = stops_at rounds new n (later-Front new later)
  process_loop-Ended zero (e ∷ old) new n h later pos = absurd (omega arith)
  process_loop-Ended (suc rounds) (e ∷ old) new n h later pos = elim (Bool-cases (ltb now e.0)) [
    | inl early ↦ stops_at (suc rounds) (e ∷ (old ++ new)) n (ground arith)
    | inr due ↦
        let g = process_entry-Grows e.0 e.1 (with_queue n (old ++ new)) pos in
        let m : Node = process_entry library now e.0 e.1 (with_queue n (old ++ new)) in
        let rest =
          process_loop-Ended rounds old (new ++ g.added) m (omega arith)
            (All-append (λ e. now < e.0) new g.added later g.later)
            (subst (λ t. 0 < t) (sym g.inv_timeout) pos) in
        let same : with_queue m (old ++ (new ++ g.added)) ≡ m =
          ap (with_queue m) (sym (g.queue ∙ append_assoc old new g.added)) in
        let kept =
          subst (λ x. Ended m.tx_timeout_event (process_loop library rounds now x)) same rest in
        rw due (subst (λ t. Ended t (process_loop library rounds now m)) g.event kept)
  ]

abbrev pub front_deadline : List (ℕ × ℕ) → Option ℕ
front_deadline [] = none
front_deadline (e ∷ es) = some e.0

-- What the timer leaves: no request is overdue at the front, and the timer is armed for the front's
-- deadline if there is one.
pub record IsArmed (now : ℕ) (n : Node) : Type 0 where
  pub front : Front now n.tx_timeout_queue
  pub event : n.tx_timeout_event ≡ front_deadline n.tx_timeout_queue

arm-IsArmed :
    (now : ℕ) (n : Node) (q : List (ℕ × ℕ))
    → Front now q
    → IsArmed now
        (arm_tx_timeout_timer now (record n { tx_timeout_queue = q; tx_timeout_event = none }))
unfolding arm_tx_timeout_timer
arm-IsArmed now n [] h = record { front = tt; event = refl }
arm-IsArmed now n (e ∷ es) h = record { front = h; event = ap some (omega arith) }

-- ProcessTxTimeouts ends where requests have some time to be answered: when it is done, the deadline
-- at the front of the queue is later than now, and the timer is armed for exactly that deadline, or
-- not at all where the queue is empty.
pub process_tx_timeouts-IsArmed :
    (library : Library) (now : ℕ) (n : Node)
    → 0 < n.inv_timeout
    → (n' : Node) × (process_tx_timeouts library now n ≡ some n') × IsArmed now n'
unfolding process_tx_timeouts with_queue
process_tx_timeouts-IsArmed library now n pos =
    let q : List (ℕ × ℕ) = n.tx_timeout_queue in
    let start : Node = record n { tx_timeout_event = none } in
    let r = process_loop-Ended library now (length q) q [] start (omega arith) tt pos in
    let run : process_loop library (length q) now start ≡ some r.node =
      subst
        (λ z.
          process_loop library (length q) now (record start { tx_timeout_queue = z }) ≡ some r.node)
        (append-nil q) r.ended in
    (
      arm_tx_timeout_timer now r.node,
      rw (process_tx_timeouts, run) refl,
      subst (λ z. IsArmed now (arm_tx_timeout_timer now (record r.node { tx_timeout_event = z })))
          (sym r.event_kept) (arm-IsArmed now r.node r.node.tx_timeout_queue r.front),
    )

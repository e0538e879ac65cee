-- ===== src/Node/Timeouts/Announced.antt =====
-- Requests for transactions are watched by the timer after announcements.
use ghostdagsim.Common.{
  ℕ, ◌+◌, ◌≡◌, refl, sym, arith, Bool, true, false, List, [], ◌∷◌, ◌++◌, Option, none, some,
  if◌then◌else◌, ◌==◌, is_nil, is_some, foldl, subst, ap, ◌∙◌, Bool-cases, inl, inr, max, eq_of_==,
  false≢true,
}
use ghostdagsim.Common.Maps.{Map, find, find-assign, assign}
use ghostdagsim.Node.Known.{knows}
use ghostdagsim.Node.State.{Node, TxRequest, send_lem}
use ghostdagsim.Node.Transactions.{
  request, announce, ask, handle_inv_transactions, arm_tx_timeout_timer,
}
use ghostdagsim.Node.Timeouts.Ends.{front_deadline}
use ghostdagsim.Node.Timeouts.Tracked.{queued, Tracked, IsTracked, assign-Tracked, some_inj}
use ghostdagsim.Node.Timeouts.Watched.{IsWatched, arm-IsTracked}

-- A further announcer of a request.
extend-Tracked :
    (t : ℕ) (req : TxRequest) (announcers : List ℕ) (requests : Map TxRequest)
    (queue : List (ℕ × ℕ))
    → is_nil announcers ≡ false
    → find t requests ≡ some req
    → Tracked requests queue
    → Tracked
        (assign t (record { announcers = announcers; deadline = req.deadline }) requests)
        queue
extend-Tracked t req announcers requests queue full there h id r e = elim (Bool-cases (id == t)) [
  | inl same ↦
      let new : TxRequest = record { announcers = announcers; deadline = req.deadline } in
      let eq : new ≡ r = some_inj (
        sym
          (find-assign id t new requests ∙ ap (λ b. if b then some new else find id requests) same)
        ∙ e) in
      (
        subst (λ (x : TxRequest). is_nil x.announcers ≡ false) eq full,
        subst (λ (x : TxRequest). queued x.deadline id queue ≡ true) eq
            (subst (λ k. queued req.deadline k queue ≡ true) (sym (eq_of_== id t same))
              (h t req there).1),
      )
  | inr other ↦ h id r (
      ground (
        arith,
        find-assign id t (record { announcers = announcers; deadline = req.deadline }) requests,
      ))
]

pub weaken :
    (d t : ℕ) (requests : Map TxRequest) (queue : List (ℕ × ℕ))
    → Tracked requests queue
    → Tracked requests ((d, t) ∷ queue)
unfolding queued
weaken d t requests queue h id r e = ground (arith, h id r e)

-- The fold over the ids of an announcement: no deadline was added while no id is wanted.
record IsAsking (start : Node) (r : Node × List ℕ) : Type 0 where
  tracked : IsTracked r.0
  event : r.0.tx_timeout_event ≡ start.tx_timeout_event
  unchanged : is_nil r.1 ≡ true → r.0.tx_timeout_queue ≡ start.tx_timeout_queue

pick_if :
    (start : Node) (b : Bool) (x y : Node × List ℕ)
    → IsAsking start x
    → IsAsking start y
    → IsAsking start (if b then x else y)
pick_if start true x y p q = p
pick_if start false x y p q = q

abbrev or_empty : Option TxRequest → TxRequest
or_empty o = elim o [ none ↦ record { announcers = []; deadline = 0 } | some req ↦ req ]

is_there :
    (o : Option TxRequest) (a : ℕ) (as' : List ℕ)
    → (or_empty o).announcers ≡ a ∷ as'
    → o ≡ some (or_empty o)
is_there none a as' h = absurd (ground arith)
is_there (some req) a as' h = refl

wants-something : (t : ℕ) (wanted : List ℕ) → is_nil (wanted ++ t ∷ []) ≡ false
wants-something t [] = refl
wants-something t (w ∷ wanted) = refl

announce-IsAsking :
    (now from : ℕ) (start n : Node) (wanted : List ℕ) (tx_id : ℕ)
    → IsAsking start (n, wanted)
    → IsAsking start (announce now from (n, wanted) tx_id)
unfolding announce
announce-IsAsking now from start n wanted t h =
    pick_if start (knows n.known_txs t) (n, wanted) _ h (kept (request n t).announcers refl)
  where
    kept :
        (xs : List ℕ)
        → (request n t).announcers ≡ xs
        → IsAsking start (elim xs [
          | [] ↦ (
            record n {
              queue_inv_tx =
                  assign t
                    (record { announcers = from ∷ []; deadline = now + n.inv_timeout })
                    n.queue_inv_tx;
              tx_timeout_queue = n.tx_timeout_queue ++ (now + n.inv_timeout, t) ∷ [];
            },
            wanted ++ t ∷ [],
          )
          | a ∷ as' ↦ (
            record n {
              queue_inv_tx =
                  assign t
                    (record {
                      announcers = (a ∷ as') ++ from ∷ [];
                      deadline = (request n t).deadline;
                    })
                    n.queue_inv_tx;
            },
            wanted,
          )
        ])
    kept [] e = record {
      tracked =
          assign-Tracked 0 t (now + n.inv_timeout) (from ∷ []) n.queue_inv_tx n.tx_timeout_queue
            refl (weaken 0 t n.queue_inv_tx n.tx_timeout_queue h.tracked);
      event = h.event;
      unchanged = λ empty. absurd (ground (arith, wants-something t wanted));
    }
    kept (a ∷ as') e = record {
      tracked =
          extend-Tracked t (request n t) ((a ∷ as') ++ from ∷ []) n.queue_inv_tx n.tx_timeout_queue
            refl (is_there (find t n.queue_inv_tx) a as' e) h.tracked;
      event = h.event;
      unchanged = h.unchanged;
    }

announced-IsAsking :
    (now from : ℕ) (tx_ids : List ℕ) (start : Node) (r : Node × List ℕ)
    → IsAsking start r
    → IsAsking start (foldl (announce now from) r tx_ids)
announced-IsAsking now from [] start r h = h
announced-IsAsking now from (t ∷ tx_ids) start r h =
    announced-IsAsking now from tx_ids start (announce now from r t)
      (announce-IsAsking now from start r.0 r.1 t h)

abbrev Pending : Node → Type 0
Pending n = is_some (front_deadline n.tx_timeout_queue) ≡ true → is_some n.tx_timeout_event ≡ true

arm-Pending : (now : ℕ) (n : Node) → Pending (arm_tx_timeout_timer now n)
unfolding arm_tx_timeout_timer
arm-Pending now n = kept n.tx_timeout_queue refl
  where
    kept :
        (q : List (ℕ × ℕ))
        → n.tx_timeout_queue ≡ q
        → Pending (elim q [
          | [] ↦ n
          | entry ∷ entries ↦
              if is_some n.tx_timeout_event
              then n
              else record n { tx_timeout_event = some (max now entry.0) }
        ])
    kept [] same full =
        absurd
          (false≢true (subst (λ (q : List (ℕ × ℕ)). is_some (front_deadline q) ≡ true) same full))
    kept (e ∷ es) same full = elim (Bool-cases (is_some n.tx_timeout_event)) [
      | inl pending ↦ rw pending pending
      | inr idle ↦ rw idle refl
    ]

ask-IsWatched :
    (now from : ℕ) (start : Node) (r : Node × List ℕ)
    → IsWatched start
    → IsAsking start r
    → IsWatched (ask now from r)
ask-IsWatched now from start (n, []) w h = record {
  tracked = h.tracked;
  pending = λ full.
      subst (λ (v : Option ℕ). is_some v ≡ true) (sym h.event)
        (w.pending (
          subst (λ (q : List (ℕ × ℕ)). is_some (front_deadline q) ≡ true) (h.unchanged refl) full));
}
ask-IsWatched now from start (n, t ∷ wanted) w h =
    let armed : IsWatched (arm_tx_timeout_timer now n) = record {
      tracked = arm-IsTracked now n h.tracked;
      pending = arm-Pending now n;
    } in
    rw (send_lem (arm_tx_timeout_timer now n) from _ _)
      (record { tracked = armed.tracked; pending = armed.pending })

-- On a node whose requests are all tracked, and whose timer is pending while there are deadlines,
-- an announcement of transactions leaves both true.
pub handle_inv_transactions-IsWatched :
    (now : ℕ) (tx_ids : List ℕ) (from : ℕ) (n : Node)
    → IsWatched n
    → IsWatched (handle_inv_transactions now tx_ids from n)
unfolding handle_inv_transactions
handle_inv_transactions-IsWatched now tx_ids from n h = ask-IsWatched now from n _ h (
    announced-IsAsking now from tx_ids n (n, [])
      (record { tracked = h.tracked; event = refl; unchanged = λ _. refl }))

-- ===== src/Node/Timeouts/Tracked.antt =====
-- Requests for transactions are kept track of by all the handlers that touch them.
use ghostdagsim.Common.{
  ℕ, zero, suc, ◌+◌, ◌≡◌, refl, sym, arith, Bool, true, false, ◌&&◌, ◌||◌, List, [], ◌∷◌, ◌++◌,
  Option, none, some, length, not, if◌then◌else◌, ◌==◌, is_nil, subst, ap, ◌∙◌, Bool-cases,
  eq_of_==, inl, inr,
}
use ghostdagsim.Common.Maps.{Map, find, find-assign, find-erase, assign, erase}
use ghostdagsim.Node.State.{Node, TxRequest, Library}
use ghostdagsim.Node.Timeouts.{swap_front, expire, process_entry}

-- The deadline of a request is in the queue.
unfoldable pub queued : ℕ → ℕ → List (ℕ × ℕ) → Bool
queued deadline tx_id [] = false
queued deadline tx_id (e ∷ es) = (deadline == e.0 && tx_id == e.1) || queued deadline tx_id es

pub queued-append :
    (d t : ℕ) (p q : List (ℕ × ℕ)) → queued d t (p ++ q) ≡ (queued d t p || queued d t q)
unfolding queued
queued-append d t [] q = refl
queued-append d t (e ∷ p) q = ground (arith, queued-append d t p q)

-- Every outstanding request has an announcer, and its deadline is in the queue.
abbrev pub Tracked : Map TxRequest → List (ℕ × ℕ) → Type 0
Tracked requests queue =
    (tx_id : ℕ) (req : TxRequest)
    → find tx_id requests ≡ some req
    → (is_nil req.announcers ≡ false) × (queued req.deadline tx_id queue ≡ true)

abbrev pub IsTracked : Node → Type 0
IsTracked n = Tracked n.queue_inv_tx n.tx_timeout_queue

pub pick_if :
    (b : Bool) (x y : Node)
    → (b ≡ true → IsTracked x)
    → (b ≡ false → IsTracked y)
    → IsTracked (if b then x else y)
pick_if true x y p q = p refl
pick_if false x y p q = q refl

-- Erasing the request whose deadline was taken out of the queue, or giving it a new deadline.
pub erase-Tracked :
    (d t : ℕ) (requests : Map TxRequest) (queue : List (ℕ × ℕ))
    → Tracked requests ((d, t) ∷ queue)
    → Tracked (erase t requests) queue
unfolding queued
erase-Tracked d t requests queue h id req e = ground (arith, find-erase id t requests, h id req)

pub some_inj : {x y : TxRequest} → some x ≡ some y → x ≡ y
some_inj {x} e = ap (λ (o : Option TxRequest). elim o [ none ↦ x | some z ↦ z ]) e

pub assign-Tracked :
    (d t d' : ℕ) (announcers : List ℕ) (requests : Map TxRequest) (queue : List (ℕ × ℕ))
    → is_nil announcers ≡ false
    → Tracked requests ((d, t) ∷ queue)
    → Tracked
        (assign t (record { announcers = announcers; deadline = d' }) requests)
        (queue ++ (d', t) ∷ [])
unfolding queued
assign-Tracked d t d' announcers requests queue full h id req e = elim (Bool-cases (id == t)) [
  | inl same ↦
      let r : record { announcers = announcers; deadline = d' } ≡ req = some_inj (
        sym (
          find-assign id t (record { announcers = announcers; deadline = d' }) requests
          ∙ ap
              (λ b.
                if b
                then some (record { announcers = announcers; deadline = d' })
                else find id requests)
              same)
        ∙ e) in
      (
        subst (λ (x : TxRequest). is_nil x.announcers ≡ false) r full,
        subst (λ (x : TxRequest). queued x.deadline id (queue ++ (d', t) ∷ []) ≡ true) r
            (ground (arith, queued-append d' id queue ((d', t) ∷ []))),
      )
  | inr other ↦
      let e' : find id requests ≡ some req =
        ground
          (arith, find-assign id t (record { announcers = announcers; deadline = d' }) requests) in
      let old = h id req e' in
      (old.0, ground (arith, queued-append req.deadline id queue ((d', t) ∷ [])))
]

swap_front-full : (i a : ℕ) (as' : List ℕ) → is_nil (swap_front i a as') ≡ false
swap_front-full zero a as' = refl
swap_front-full (suc i) a as' = refl

module _ (library : Library) (now : ℕ) where
  expire-IsTracked :
      (d t : ℕ) (announcers : List ℕ) (n : Node)
      → is_nil announcers ≡ false
      → Tracked n.queue_inv_tx ((d, t) ∷ n.tx_timeout_queue)
      → IsTracked (expire library now t (record { announcers = announcers; deadline = d }) n)
  unfolding expire
  expire-IsTracked d t [] n full h = absurd (ground arith)
  expire-IsTracked d t (a ∷ []) n full h = erase-Tracked d t n.queue_inv_tx n.tx_timeout_queue h
  expire-IsTracked d t (asked ∷ a ∷ as') n full h =
      assign-Tracked d t (now + n.inv_timeout)
        (swap_front (library.pick (length as') n.generator).0 a as') n.queue_inv_tx
        n.tx_timeout_queue (swap_front-full _ a as') h

  due_eq : (x d : ℕ) → not (x == d) ≡ false → d ≡ x
  due_eq x d h = ground arith

  stale_kept :
      (d t : ℕ) (n : Node) (req : TxRequest)
      → Tracked n.queue_inv_tx ((d, t) ∷ n.tx_timeout_queue)
      → find t n.queue_inv_tx ≡ some req
      → not (req.deadline == d) ≡ true
      → IsTracked n
  unfolding queued
  stale_kept d t n req h there stale id r e = elim (Bool-cases (id == t)) [
    | inl same ↦
        let eq : req ≡ r =
          some_inj
            (sym there ∙ subst (λ k. find k n.queue_inv_tx ≡ some r) (eq_of_== id t same) e) in
        let fresh : not (r.deadline == d) ≡ true =
          subst (λ (x : TxRequest). not (x.deadline == d) ≡ true) eq stale in
        ground (arith, h id r e)
    | inr other ↦ ground (arith, h id r e)
  ]

  pub process_entry-IsTracked :
      (d t : ℕ) (n : Node)
      → Tracked n.queue_inv_tx ((d, t) ∷ n.tx_timeout_queue)
      → IsTracked (process_entry library now d t n)
  unfolding process_entry queued
  process_entry-IsTracked d t n h = kept (find t n.queue_inv_tx) refl
    where
      kept :
          (o : Option TxRequest)
          → find t n.queue_inv_tx ≡ o
          → IsTracked (elim o [
            | none ↦ n
            | some req ↦ if not (req.deadline == d) then n else expire library now t req n
          ])
      kept none missing = λ id req e. ground (arith, h id req)
      kept (some req) there =
          pick_if (not (req.deadline == d)) n _ (stale_kept d t n req h there) (λ due.
            subst
              (λ x.
                IsTracked
                  (expire library now t (record { announcers = req.announcers; deadline = x }) n))
              (due_eq req.deadline d due)
              (expire-IsTracked d t req.announcers n (h t req there).0 h))

-- ===== src/Node/Timeouts/Fate.antt =====
-- What may become of a request for a transaction when the timer fires.
use ghostdagsim.Common.{
  ℕ, ◌+◌, ◌<◌, ◌≤◌, ◌≡◌, ◌⊎◌, refl, sym, arith, false, List, [], ◌∷◌, ◌++◌, Option, none, some,
  length, subst, ap, ◌∙◌, inl, inr, get_or,
}
use ghostdagsim.Common.Maps.{find}
use ghostdagsim.Node.State.{Node, Sent, req_transactions, TxRequest}
use ghostdagsim.Node.Sizes.{wire_size_tx_inv}
use ghostdagsim.Node.Timeouts.Tracked.{some_inj}

-- The first announcer of a request.
abbrev pub first : TxRequest → ℕ
first req = get_or req.announcers 0 0

-- A message is among those sent.
pub data IsSent (s : Sent) : List Sent → Type 0 where
  here : {ss : List Sent} → IsSent s (s ∷ ss)
  there : {t : Sent} {ss : List Sent} → IsSent s ss → IsSent s (t ∷ ss)

pub IsSent-last : (s : Sent) (ss : List Sent) → IsSent s (ss ++ s ∷ [])
IsSent-last s [] = here
IsSent-last s (t ∷ ss) = there (IsSent-last s ss)

IsSent-append : (s : Sent) (ss ts : List Sent) → IsSent s ss → IsSent s (ss ++ ts)
IsSent-append s [] ts h = elim h [ ]
IsSent-append s (t ∷ ss) ts here = here
IsSent-append s (t ∷ ss) ts (there h) = there (IsSent-append s ss ts h)

-- REQ_TRANSACTIONS for one transaction to one peer.
abbrev pub asking : ℕ → ℕ → Sent
asking tx_id to = record {
  to = to;
  message = req_transactions (tx_id ∷ []);
  wire_bytes = wire_size_tx_inv 1;
}

-- What the timer makes of a request: it is as it was; or it was due, had no other announcer and is
-- given up; or it was due and has one announcer less, was asked again of the one that is first now
-- unless the node does not run, and is due a timeout later.
pub data Fate (now timeout tx_id : ℕ) (req : TxRequest) (n : Node) : Type 0 where
  kept : find tx_id n.queue_inv_tx ≡ some req → Fate now timeout tx_id req n
  given_up :
      req.deadline ≤ now
      → length req.announcers ≤ 1
      → find tx_id n.queue_inv_tx ≡ none
      → Fate now timeout tx_id req n
  asked_again :
      (request : TxRequest)
      → req.deadline ≤ now
      → find tx_id n.queue_inv_tx ≡ some request
      → length request.announcers + 1 ≡ length req.announcers
      → request.deadline ≡ now + timeout
      → ((n.running ≡ false) ⊎ IsSent (asking tx_id (first request)) n.sent)
      → Fate now timeout tx_id req n

-- The same of an id, by the request that there was; the timer requests nothing new.
abbrev pub Outcome : ℕ → ℕ → ℕ → Option TxRequest → Node → Type 0
Outcome now timeout tx_id none n = find tx_id n.queue_inv_tx ≡ none
Outcome now timeout tx_id (some req) n = Fate now timeout tx_id req n

module _ (now timeout tx_id : ℕ) where
  pub Outcome-same :
      (before : Option TxRequest) (m n : Node) (ts : List Sent)
      → find tx_id n.queue_inv_tx ≡ find tx_id m.queue_inv_tx
      → n.running ≡ m.running
      → n.sent ≡ m.sent ++ ts
      → Outcome now timeout tx_id before m
      → Outcome now timeout tx_id before n
  Outcome-same none m n ts f r s h = f ∙ h
  Outcome-same (some req) m n ts f r s (kept e) = kept (f ∙ e)
  Outcome-same (some req) m n ts f r s (given_up due few e) = given_up due few (f ∙ e)
  Outcome-same (some req) m n ts f r s (asked_again request due e fewer later (inl stopped)) =
      asked_again request due (f ∙ e) fewer later (inl (r ∙ stopped))
  Outcome-same (some req) m n ts f r s (asked_again request due e fewer later (inr sent)) =
      asked_again request due (f ∙ e) fewer later (
        inr
          (subst (IsSent (asking tx_id (first request))) (sym s) (IsSent-append _ m.sent ts sent)))

  pub start_Outcome : (n : Node) → Outcome now timeout tx_id (find tx_id n.queue_inv_tx) n
  start_Outcome n = by_request (find tx_id n.queue_inv_tx) refl
    where
      by_request :
          (o : Option TxRequest) → find tx_id n.queue_inv_tx ≡ o → Outcome now timeout tx_id o n
      by_request none e = e
      by_request (some req) e = kept e

  -- A request that was due and not yet asked again is taken away, or asked again.
  module _ (r : TxRequest) (m n : Node) (there_r : find tx_id m.queue_inv_tx ≡ some r)
      (due : r.deadline ≤ now) (pos : 0 < timeout) where
    same_request : (q : TxRequest) → find tx_id m.queue_inv_tx ≡ some q → r ≡ q
    same_request q e = some_inj (sym there_r ∙ e)

    not_later :
        {A : Type 0} (q : TxRequest)
        → find tx_id m.queue_inv_tx ≡ some q
        → q.deadline ≡ now + timeout
        → A
    not_later q e later =
        let same : r.deadline ≡ q.deadline =
          ap (λ (x : TxRequest). x.deadline) (same_request q e) in
        absurd (omega arith)

    pub Outcome-gone :
        (before : Option TxRequest)
        → length r.announcers ≤ 1
        → find tx_id n.queue_inv_tx ≡ none
        → Outcome now timeout tx_id before m
        → Outcome now timeout tx_id before n
    Outcome-gone none few gone h = gone
    Outcome-gone (some req) few gone (kept e) =
        let same = same_request req e in
        given_up (subst (λ (x : TxRequest). x.deadline ≤ now) same due)
          (subst (λ (x : TxRequest). length x.announcers ≤ 1) same few) gone
    Outcome-gone (some req) few gone (given_up due_req few_req e) = given_up due_req few_req gone
    Outcome-gone (some req) few gone (asked_again request due_req e fewer later sent) =
        not_later request e later

    pub Outcome-again :
        (before : Option TxRequest) (r' : TxRequest)
        → find tx_id n.queue_inv_tx ≡ some r'
        → length r'.announcers + 1 ≡ length r.announcers
        → r'.deadline ≡ now + timeout
        → ((n.running ≡ false) ⊎ IsSent (asking tx_id (first r')) n.sent)
        → Outcome now timeout tx_id before m
        → Outcome now timeout tx_id before n
    Outcome-again none r' e' fewer later sent h =
        let lost : none ≡ some r = sym h ∙ there_r in absurd (ground arith)
    Outcome-again (some req) r' e' fewer later sent (kept e) =
        let same = same_request req e in
        asked_again r' (subst (λ (x : TxRequest). x.deadline ≤ now) same due) e'
          (fewer ∙ ap (λ (x : TxRequest). length x.announcers) same) later sent
    Outcome-again (some req) r' e' fewer later sent (given_up due_req few_req e) =
        let lost : none ≡ some r = sym e ∙ there_r in absurd (ground arith)
    Outcome-again (some req) r' e' fewer later sent (asked_again request due_req e less later' s) =
        not_later request e later'

-- ===== src/Node/Graphene/Pending.antt =====
-- The transfers of compact blocks in progress: m_graphene_state, m_graphene_senders and
-- m_graphene_timeouts of node.h have the same keys.
use ghostdagsim.Common.{
  ℕ, ◌≡◌, refl, arith, true, false, not, ◌+◌, ◌||◌, ◌&&◌, Option, none, some, Bool-cases,
  Option-cases, inl, inr, ◌==◌,
}
use ghostdagsim.Common.Maps.{find, has, has-assign, has-erase}
use ghostdagsim.Block.{BodyTable}
use ghostdagsim.Chain.State.{has_block, is_orphan}
use ghostdagsim.Graphene.Numbers.{Numbers}
use ghostdagsim.Graphene.Filters.{Filters}
use ghostdagsim.Graphene.Receiver.{
  GrapheneState, Incoming, rebuilt, recovering, process_incoming_block,
}
use ghostdagsim.Graphene.Receiver
use ghostdagsim.Graphene.Recovery
use ghostdagsim.Graphene.Recovery.{Recovered, failed, recovered, process_recovery_response}
use ghostdagsim.Graphene.Json.{GrapheneBlock, RecoveryResponse}
use ghostdagsim.Node.State.{
  Node, Message, inv_relay_block, req_relay_block, full_block, inv_transactions, req_transactions,
  transactions, graphene_block, graphene_recovery_request, graphene_recovery_response, Library,
}
use ghostdagsim.Node.Graphene.{
  GrapheneNode, ask_full_block, forget, take_incoming, take_response, graphene_recovery_timeout,
  graphene_recovery_timed_out, handle_graphene_block, take_recovered,
  handle_graphene_recovery_response,
}
use ghostdagsim.Node.Dispatch.{process_message, process_block}

-- Every transfer has the peer that sent the block and a timeout, and there are no others.
pub record IsPending {I : Type 0} (s : GrapheneNode I) : Type 0 where
  pub senders : (id : ℕ) → has id s.graphene_senders ≡ has id s.graphene_state
  pub timeouts : (id : ℕ) → has id s.graphene_timeouts ≡ has id s.graphene_state

forget-IsPending :
    {I : Type 0} (id : ℕ) (s : GrapheneNode I) → IsPending s → IsPending (forget id s)
forget-IsPending id s h = record {
  senders = λ j.
      ground
        (arith, has-erase j id s.graphene_senders, has-erase j id s.graphene_state, h.senders j);
  timeouts = λ j.
      ground
        (arith, has-erase j id s.graphene_timeouts, has-erase j id s.graphene_state, h.timeouts j);
}

-- Nothing but the three maps matters.
with_node-IsPending :
    {I : Type 0} (n : Node) (bodies : BodyTable) (s : GrapheneNode I)
    → IsPending s
    → IsPending (record s { node = n; bodies = bodies })
with_node-IsPending n bodies s h = record { senders = h.senders; timeouts = h.timeouts }

-- A result, if there is one, has the property.
abbrev pub IsPendingIn : {I : Type 0} → Option (GrapheneNode I) → Type 0
IsPendingIn none = Unit
IsPendingIn (some s) = IsPending s

-- A node whose transfers all have a sender and a timeout, and the timer of a transfer whose block is
-- missing still: when it fires, the entries of the transfer are erased, its sender is asked for the
-- full block, and nothing else of the node changes.
pub graphene_recovery_timed_out-asks :
    {I : Type 0} (id : ℕ) (s : GrapheneNode I)
    → IsPending s
    → has id s.graphene_state ≡ true
    → (has_block s.node.blockchain id || is_orphan s.node.blockchain id) ≡ false
    → (from : ℕ) × (find id s.graphene_senders ≡ some from)
      × (graphene_recovery_timed_out id s
          ≡ forget id (record s { node = ask_full_block id from s.node }))
unfolding graphene_recovery_timed_out
graphene_recovery_timed_out-asks id s h pending missing =
    elim (Option-cases (find id s.graphene_state)) [
      | inl absent ↦ absurd (ground arith)
      | inr (state, there) ↦ elim (Option-cases (find id s.graphene_senders)) [
        | inl absent ↦ absurd (ground (arith, h.senders id))
        | inr (from, known) ↦
            (from, known, rw (graphene_recovery_timed_out, there, missing, known) refl)
      ]
    ]

timed_out_known :
    {I : Type 0} (id : ℕ) (s : GrapheneNode I)
    → has id s.graphene_state ≡ true
    → (has_block s.node.blockchain id || is_orphan s.node.blockchain id) ≡ true
    → graphene_recovery_timed_out id s ≡ forget id s
unfolding graphene_recovery_timed_out
timed_out_known id s pending known = elim (Option-cases (find id s.graphene_state)) [
  | inl absent ↦ absurd (ground arith)
  | inr (state, there) ↦ rw (graphene_recovery_timed_out, there, known) refl
]

-- A node whose transfers all have a sender and a timeout: after the timer of a transfer has fired,
-- its three entries are gone, and the other transfers are there as before, with a sender and a
-- timeout.
pub graphene_recovery_timed_out-ends :
    {I : Type 0} (id : ℕ) (s : GrapheneNode I)
    → IsPending s
    → has id s.graphene_state ≡ true
    → IsPending (graphene_recovery_timed_out id s)
      × ((j : ℕ)
          → has j (graphene_recovery_timed_out id s).graphene_state
            ≡ (not (j == id) && has j s.graphene_state))
graphene_recovery_timed_out-ends id s h pending =
    elim (Bool-cases (has_block s.node.blockchain id || is_orphan s.node.blockchain id)) [
      | inl known ↦
          rw (timed_out_known id s pending known)
            (forget-IsPending id s h, λ j. has-erase j id s.graphene_state)
      | inr missing ↦
          let (from, known, is) = graphene_recovery_timed_out-asks id s h pending missing in
          rw is (
            forget-IsPending id (record s { node = ask_full_block id from s.node })
                (with_node-IsPending (ask_full_block id from s.node) s.bodies s h),
            λ j. has-erase j id s.graphene_state,
          )
    ]

module _ {B I : Type 0} (d : Numbers) (f : Filters B I) (library : Library) where
  take_incoming-IsPending :
      (now id from : ℕ) (s : GrapheneNode I) (r : BodyTable × Incoming I)
      → IsPending s
      → IsPendingIn (take_incoming d f library now id from s r)
  unfolding take_incoming
  take_incoming-IsPending now id from s (bodies, Receiver.aborted) h = tt
  take_incoming-IsPending now id from s (bodies, rebuilt b) h = with_node-IsPending _ _ s h
  take_incoming-IsPending now id from s (bodies, recovering state request z fpr_r) h =
      let time : ℕ = now + graphene_recovery_timeout in
      record {
        senders = λ j. ground (
          arith,
          has-assign j id from s.graphene_senders,
          has-assign j id state s.graphene_state,
          h.senders j,
        );
        timeouts = λ j. ground (
          arith,
          has-assign j id time s.graphene_timeouts,
          has-assign j id state s.graphene_state,
          h.timeouts j,
        );
      }

  handle_graphene_block-IsPending :
      (now : ℕ) (g : GrapheneBlock) (from : ℕ) (s : GrapheneNode I)
      → IsPending s
      → IsPendingIn (handle_graphene_block d f library now g from s)
  unfolding handle_graphene_block
  handle_graphene_block-IsPending now g from s h =
      elim (Bool-cases (
        has_block s.node.blockchain g.block_id
        || (is_orphan s.node.blockchain g.block_id || has g.block_id s.graphene_state))) [
          | inl known ↦ rw (handle_graphene_block, known) h
          | inr new ↦
              rw (handle_graphene_block, new) (take_incoming-IsPending now g.block_id from s _ h)
        ]

  take_response-IsPending :
      (now id : ℕ) (state : GrapheneState I) (from : ℕ) (s : GrapheneNode I) (r : Option Recovered)
      → IsPending s
      → IsPendingIn (take_response d f library now id state from s r)
  unfolding take_response take_recovered
  take_response-IsPending now id state from s none h = tt
  take_response-IsPending now id state from s (some Recovery.aborted) h = tt
  take_response-IsPending now id state from s (some failed) h =
      forget-IsPending id _ (with_node-IsPending _ _ s h)
  take_response-IsPending now id state from s (some (recovered ids)) h =
      forget-IsPending id _ (with_node-IsPending _ _ s h)

  handle_graphene_recovery_response-IsPending :
      (now : ℕ) (resp : RecoveryResponse) (from : ℕ) (s : GrapheneNode I)
      → IsPending s
      → IsPendingIn (handle_graphene_recovery_response d f library now resp from s)
  unfolding handle_graphene_recovery_response
  handle_graphene_recovery_response-IsPending now resp from s h =
      elim (Option-cases (find resp.block_id s.graphene_state)) [
        | inl absent ↦ rw (handle_graphene_recovery_response, absent) h
        | inr (state, there) ↦
            rw (handle_graphene_recovery_response, there)
              (take_response-IsPending now resp.block_id state from s _ h)
      ]

  -- A node whose transfers of compact blocks all have a sender and a timeout: whatever message
  -- arrives from whichever peer, this stays so, unless an assertion on a checksum fails.
  pub process_message-IsPending :
      (now : ℕ) (m : Message) (from : ℕ) (s : GrapheneNode I)
      → IsPending s
      → IsPendingIn (process_message d f library now m from s)
  unfolding process_message process_block
  process_message-IsPending now (inv_relay_block id) from s h = with_node-IsPending _ _ s h
  process_message-IsPending now (req_relay_block id gf count) from s h = with_node-IsPending _ _ s h
  process_message-IsPending now (full_block header txs) from s h = with_node-IsPending _ _ s h
  process_message-IsPending now (inv_transactions ids) from s h = with_node-IsPending _ _ s h
  process_message-IsPending now (req_transactions ids) from s h = with_node-IsPending _ _ s h
  process_message-IsPending now (transactions txs) from s h = with_node-IsPending _ _ s h
  process_message-IsPending now (graphene_block g) from s h =
      handle_graphene_block-IsPending now g from s h
  process_message-IsPending now (graphene_recovery_request req) from s h =
      with_node-IsPending _ _ s h
  process_message-IsPending now (graphene_recovery_response resp) from s h =
      handle_graphene_recovery_response-IsPending now resp from s h

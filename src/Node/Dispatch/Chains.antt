-- ===== src/Node/Dispatch/Chains.antt =====
-- ProcessMessage of node.cc: the chain of the node, and what a stopped node sends.
use ghostdagsim.Common.{
  ℕ, ◌+◌, ◌^◌, ◌<◌, ◌≡◌, ◌∙◌, Bool, false, not, ◌||◌, ◌&&◌, Option, none, some, length, Bool-cases,
  Option-cases, inl, inr,
}
use ghostdagsim.Common.Maps.{find, has}
use ghostdagsim.Block.{BodyTable}
use ghostdagsim.Chain.State.{Blockchain, has_block, is_orphan}
use ghostdagsim.Chain.Invariant.{IsChain}
use ghostdagsim.Graphene.Numbers.{Numbers}
use ghostdagsim.Graphene.Filters.{Filters}
use ghostdagsim.Graphene.Json.{GrapheneBlock, RecoveryRequest, RecoveryResponse}
use ghostdagsim.Graphene.Sender.{build_sender_components}
use ghostdagsim.Graphene.Receiver.{
  GrapheneState, Incoming, rebuilt, recovering, process_incoming_block,
}
use ghostdagsim.Graphene.Receiver
use ghostdagsim.Graphene.Recovery.{Recovered, failed, recovered, process_recovery_response}
use ghostdagsim.Graphene.Recovery
use ghostdagsim.Node.State.{
  Node, Message, inv_relay_block, req_relay_block, full_block, inv_transactions, req_transactions,
  transactions, graphene_block, graphene_recovery_request, graphene_recovery_response, Library,
}
use ghostdagsim.Node.Graphene.{
  GrapheneNode, known_block, handle_req_relay_block, handle_graphene_recovery_request,
  handle_graphene_block, take_incoming, take_response, take_recovered,
  handle_graphene_recovery_response,
}
use ghostdagsim.Node.Dispatch.{process_message, process_block}
use ghostdagsim.Node.Dispatch.Quiet.{
  Quiet, Quiet-refl, send-Quiet, handle_inv_relay_block-Quiet, handle_inv_transactions-Quiet,
  handle_req_transactions-Quiet, handle_transactions-Quiet,
}
use ghostdagsim.Node.Dispatch.Changes.{
  HasRoom, MayAdd, MayAdd-of_Takes, MayAdd-IsChain, Changes, Keeps, Keeps-of_Quiet, Keeps-MayAdd,
  handle_block-Keeps, handle_block-MayAdd,
}

-- What a result keeps, if there is one.
abbrev KeepsIn :
    {I : Type 0} → (Blockchain → Blockchain → Type 0) → Node → Option (GrapheneNode I) → Type 0
KeepsIn T n none = Unit
KeepsIn T n (some s) = Keeps T n s.node

-- The chain of a result, if there is one, is well formed, and changed as the message allows.
abbrev pub IsChainIn : {I : Type 0} → Message → Node → Option (GrapheneNode I) → Type 0
IsChainIn m n none = Unit
IsChainIn m n (some s) = IsChain s.node.blockchain × Changes m n.blockchain s.node.blockchain

-- The node of a result, if there is one, does not run and has sent what it had sent before.
abbrev pub IsSilentIn : {I : Type 0} → Node → Option (GrapheneNode I) → Type 0
IsSilentIn n none = Unit
IsSilentIn n (some s) = (s.node.running ≡ false) × (s.node.sent ≡ n.sent)

module _ {B I : Type 0} (d : Numbers) (f : Filters B I) where
  handle_req_relay_block-Quiet :
      (id : ℕ) (gf : Bool) (from count : ℕ) (n : Node)
      → Quiet n (handle_req_relay_block d f id gf from count n)
  unfolding handle_req_relay_block
  handle_req_relay_block-Quiet id gf from count n =
      elim (Option-cases (known_block n.blockchain id)) [
        | inl absent ↦ rw (handle_req_relay_block, absent) (Quiet-refl n)
        | inr (b, there) ↦ elim (Bool-cases (n.graphene_enabled && not gf)) [
          | inr full ↦ rw (handle_req_relay_block, there, full) (send-Quiet n from _ _)
          | inl compact ↦ elim (Option-cases (build_sender_components d f b.txs count)) [
            | inl none_made ↦
                rw (handle_req_relay_block, there, compact, none_made) (send-Quiet n from _ _)
            | inr (components, made) ↦
                rw (handle_req_relay_block, there, compact, made) (send-Quiet n from _ _)
          ]
        ]
      ]

  handle_graphene_recovery_request-Quiet :
      (req : RecoveryRequest) (from : ℕ) (n : Node)
      → Quiet n (handle_graphene_recovery_request d f req from n)
  unfolding handle_graphene_recovery_request
  handle_graphene_recovery_request-Quiet req from n =
      elim (Option-cases (known_block n.blockchain req.block_id)) [
        | inl absent ↦ rw (handle_graphene_recovery_request, absent) (Quiet-refl n)
        | inr (b, there) ↦ rw (handle_graphene_recovery_request, there) (send-Quiet n from _ _)
      ]

  module _ (library : Library) where
    take_incoming-Keeps :
        (now id from : ℕ) (s : GrapheneNode I) (r : BodyTable × Incoming I)
        → KeepsIn MayAdd s.node (take_incoming d f library now id from s r)
    unfolding take_incoming
    take_incoming-Keeps now id from s (bodies, Receiver.aborted) = tt
    take_incoming-Keeps now id from s (bodies, rebuilt b) =
        handle_block-MayAdd library now b from s.node
    take_incoming-Keeps now id from s (bodies, recovering state request z fpr_r) =
        Keeps-MayAdd _ _ (Keeps-of_Quiet _ _ (send-Quiet s.node from _ _))

    handle_graphene_block-Keeps :
        (now : ℕ) (g : GrapheneBlock) (from : ℕ) (s : GrapheneNode I)
        → KeepsIn MayAdd s.node (handle_graphene_block d f library now g from s)
    unfolding handle_graphene_block
    handle_graphene_block-Keeps now g from s =
        elim (Bool-cases (
          has_block s.node.blockchain g.block_id
          || (is_orphan s.node.blockchain g.block_id || has g.block_id s.graphene_state))) [
            | inl known ↦
                rw (handle_graphene_block, known)
                  (Keeps-MayAdd _ _ (Keeps-of_Quiet _ _ (Quiet-refl s.node)))
            | inr new ↦
                rw (handle_graphene_block, new) (take_incoming-Keeps now g.block_id from s _)
          ]

    take_response-Keeps :
        (now id : ℕ) (state : GrapheneState I) (from : ℕ) (s : GrapheneNode I)
        (r : Option Recovered)
        → KeepsIn MayAdd s.node (take_response d f library now id state from s r)
    unfolding take_response take_recovered
    take_response-Keeps now id state from s none = tt
    take_response-Keeps now id state from s (some Recovery.aborted) = tt
    take_response-Keeps now id state from s (some failed) =
        Keeps-MayAdd _ _ (Keeps-of_Quiet _ _ (send-Quiet s.node from _ _))
    take_response-Keeps now id state from s (some (recovered ids)) =
        let k = handle_block-MayAdd library now _ from _ in
        record { change = k.change; running = k.running; silent = k.silent }

    handle_graphene_recovery_response-Keeps :
        (now : ℕ) (resp : RecoveryResponse) (from : ℕ) (s : GrapheneNode I)
        → KeepsIn MayAdd s.node (handle_graphene_recovery_response d f library now resp from s)
    unfolding handle_graphene_recovery_response
    handle_graphene_recovery_response-Keeps now resp from s =
        elim (Option-cases (find resp.block_id s.graphene_state)) [
          | inl absent ↦
              rw (handle_graphene_recovery_response, absent)
                (Keeps-MayAdd _ _ (Keeps-of_Quiet _ _ (Quiet-refl s.node)))
          | inr (state, there) ↦
              rw (handle_graphene_recovery_response, there)
                (take_response-Keeps now resp.block_id state from s _)
        ]

    process_message-Keeps :
        (now : ℕ) (m : Message) (from : ℕ) (s : GrapheneNode I)
        → KeepsIn (Changes m) s.node (process_message d f library now m from s)
    unfolding process_message process_block
    process_message-Keeps now (inv_relay_block id) from s =
        Keeps-of_Quiet _ _ (handle_inv_relay_block-Quiet now id from s.node)
    process_message-Keeps now (req_relay_block id gf count) from s =
        Keeps-of_Quiet _ _ (handle_req_relay_block-Quiet id _ from _ s.node)
    process_message-Keeps now (full_block header txs) from s =
        handle_block-Keeps library now _ from s.node
    process_message-Keeps now (inv_transactions ids) from s =
        Keeps-of_Quiet _ _ (handle_inv_transactions-Quiet now ids from s.node)
    process_message-Keeps now (req_transactions ids) from s =
        Keeps-of_Quiet _ _ (handle_req_transactions-Quiet library ids from s.node)
    process_message-Keeps now (transactions txs) from s =
        Keeps-of_Quiet _ _ (handle_transactions-Quiet library now txs from s.node)
    process_message-Keeps now (graphene_block g) from s = handle_graphene_block-Keeps now g from s
    process_message-Keeps now (graphene_recovery_request req) from s =
        Keeps-of_Quiet _ _ (handle_graphene_recovery_request-Quiet req from s.node)
    process_message-Keeps now (graphene_recovery_response resp) from s =
        handle_graphene_recovery_response-Keeps now resp from s

    Changes-IsChain : (m : Message) (c c' : Blockchain) → HasRoom c → Changes m c c' → IsChain c'
    Changes-IsChain (full_block header txs) c c' h e =
        MayAdd-IsChain c c' h (MayAdd-of_Takes header c c' e)
    Changes-IsChain (graphene_block g) c c' h e = MayAdd-IsChain c c' h e
    Changes-IsChain (graphene_recovery_response resp) c c' h e = MayAdd-IsChain c c' h e
    Changes-IsChain (inv_relay_block id) c c' h e = MayAdd-IsChain c c' h (inl e)
    Changes-IsChain (req_relay_block id gf count) c c' h e = MayAdd-IsChain c c' h (inl e)
    Changes-IsChain (inv_transactions ids) c c' h e = MayAdd-IsChain c c' h (inl e)
    Changes-IsChain (req_transactions ids) c c' h e = MayAdd-IsChain c c' h (inl e)
    Changes-IsChain (transactions txs) c c' h e = MayAdd-IsChain c c' h (inl e)
    Changes-IsChain (graphene_recovery_request req) c c' h e = MayAdd-IsChain c c' h (inl e)

    -- A node with a well-formed chain that has an index left: whatever message arrives from whichever
    -- peer, the chain is well formed after it, unless an assertion on a checksum fails. A block that
    -- is sent whole, with its header, is given to AddBlock, if none with its number is in the DAG or an orphan, and
    -- otherwise leaves the chain as it was. A compact block or the answer to a recovery request gives
    -- at most one block to AddBlock, one with a number that is neither in the DAG nor an orphan's,
    -- or leaves the chain as it was. Every other message leaves the chain as it was.
    pub process_message-IsChain :
        (now : ℕ) (m : Message) (from : ℕ) (s : GrapheneNode I)
        → IsChain s.node.blockchain
        → length s.node.blockchain.id_of + length s.node.blockchain.orphans < 2 ^ 32
        → IsChainIn m s.node (process_message d f library now m from s)
    process_message-IsChain now m from s chain room =
        each (process_message d f library now m from s) (process_message-Keeps now m from s)
      where
        each : (r : Option (GrapheneNode I)) → KeepsIn (Changes m) s.node r → IsChainIn m s.node r
        each none k = tt
        each (some s') k =
            (Changes-IsChain m _ _ (record { chain = chain; room = room }) k.change, k.change)

    -- A node that does not run: whatever message arrives from whichever peer, the node does not run
    -- after it either and has sent nothing, unless an assertion on a checksum fails.
    pub process_message-IsSilent :
        (now : ℕ) (m : Message) (from : ℕ) (s : GrapheneNode I)
        → s.node.running ≡ false
        → IsSilentIn s.node (process_message d f library now m from s)
    process_message-IsSilent now m from s stopped =
        each (process_message d f library now m from s) (process_message-Keeps now m from s)
      where
        each : (r : Option (GrapheneNode I)) → KeepsIn (Changes m) s.node r → IsSilentIn s.node r
        each none k = tt
        each (some s') k = (k.running ∙ stopped, k.silent stopped)

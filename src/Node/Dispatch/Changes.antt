-- ===== src/Node/Dispatch/Changes.antt =====
-- What a message may do to the chain of a node, and what HandleBlock does.
use ghostdagsim.Common.{
  ℕ, ◌+◌, ◌^◌, ◌<◌, ◌≡◌, refl, sym, ◌∙◌, subst, Bool, true, false, ◌||◌, List, [], ◌∷◌, length,
  foldl, if◌then◌else◌, ◌==◌, Bool-cases, inl, inr, ◌⊎◌, ap, arith,
}
use ghostdagsim.Block.{Block, BlockHeader}
use ghostdagsim.Chain.State.{Blockchain, has_block, is_orphan}
use ghostdagsim.Chain.Add.{add_block}
use ghostdagsim.Chain.Add.Keeps.{add_block-IsChain}
use ghostdagsim.Chain.Invariant.{IsChain}
use ghostdagsim.Node.State.{
  Node, Message, inv_relay_block, req_relay_block, full_block, inv_transactions, req_transactions,
  transactions, graphene_block, graphene_recovery_request, graphene_recovery_response, Library,
  send,
}
use ghostdagsim.Node.Sizes.{wire_size_inv}
use ghostdagsim.Node.Relay.{take_block, handle_block}
use ghostdagsim.Node.Dispatch.Quiet.{Quiet, Quiet-refl, Quiet-trans, send-Quiet}

-- A well-formed chain with an index left.
pub record HasRoom (c : Blockchain) : Type 0 where
  pub chain : IsChain c
  pub room : length c.id_of + length c.orphans < 2 ^ 32

-- A block with this id is in the DAG or an orphan.
abbrev pub is_known : Blockchain → ℕ → Bool
is_known c id = has_block c id || is_orphan c id

-- AddBlock of a block with this header, if no block with its id is in the DAG or an orphan, or nothing.
abbrev pub Takes : BlockHeader → Blockchain → Blockchain → Type 0
Takes header c c' =
    ((is_known c header.block_id ≡ true) × (c' ≡ c))
    ⊎ (b : Block) × (b.header ≡ header)
      × (is_known c header.block_id ≡ false)
      × (c' ≡ add_block c b)

-- Nothing, or AddBlock of some block that was neither in the DAG nor an orphan.
abbrev pub MayAdd : Blockchain → Blockchain → Type 0
MayAdd c c' = (c' ≡ c) ⊎ (b : Block) × (is_known c b.header.block_id ≡ false) × (c' ≡ add_block c b)

pub MayAdd-of_Takes : (header : BlockHeader) (c c' : Blockchain) → Takes header c c' → MayAdd c c'
MayAdd-of_Takes header c c' (inl (known, same)) = inl same
MayAdd-of_Takes header c c' (inr (b, e, new, added)) =
    inr (b, ap (λ (h : BlockHeader). is_known c h.block_id) e ∙ new, added)

pub MayAdd-IsChain : (c c' : Blockchain) → HasRoom c → MayAdd c c' → IsChain c'
MayAdd-IsChain c c' h (inl same) = subst IsChain (sym same) h.chain
MayAdd-IsChain c c' h (inr (b, new, added)) =
    subst IsChain (sym added)
      (add_block-IsChain c b h.chain
        (record { unknown = ground arith; absent = ground arith; room = h.room })).1

-- What a message may do to the chain.
abbrev pub Changes : Message → Blockchain → Blockchain → Type 0
Changes (full_block header txs) c c' = Takes header c c'
Changes (graphene_block g) c c' = MayAdd c c'
Changes (graphene_recovery_response resp) c c' = MayAdd c c'
Changes (inv_relay_block id) c c' = c' ≡ c
Changes (req_relay_block id gf count) c c' = c' ≡ c
Changes (inv_transactions ids) c c' = c' ≡ c
Changes (req_transactions ids) c c' = c' ≡ c
Changes (transactions txs) c c' = c' ≡ c
Changes (graphene_recovery_request req) c c' = c' ≡ c

-- What a handler keeps: the chain, but for what the relation allows; and a stopped node stays so and
-- sends nothing.
pub record Keeps (T : Blockchain → Blockchain → Type 0) (n n' : Node) : Type 0 where
  pub change : T n.blockchain n'.blockchain
  pub running : n'.running ≡ n.running
  pub silent : n.running ≡ false → n'.sent ≡ n.sent

abbrev pub Same : Blockchain → Blockchain → Type 0
Same c c' = c' ≡ c

pub Keeps-of_Quiet : (n n' : Node) → Quiet n n' → Keeps Same n n'
Keeps-of_Quiet n n' q = record { change = q.chain; running = q.running; silent = q.silent }

pub Keeps-MayAdd : (n n' : Node) → Keeps Same n n' → Keeps MayAdd n n'
Keeps-MayAdd n n' k = record { change = inl k.change; running = k.running; silent = k.silent }

broadcast-Quiet :
    (id exclude : ℕ) (peers : List ℕ) (n : Node)
    → Quiet n (
        foldl
          (λ n' peer.
            if peer == exclude then n' else send n' peer (inv_relay_block id) wire_size_inv)
          n
          peers)
broadcast-Quiet id exclude [] n = Quiet-refl n
broadcast-Quiet id exclude (p ∷ ps) n =
    Quiet-trans n _ _ (one (p == exclude)) (broadcast-Quiet id exclude ps _)
  where
    one : (b : Bool) → Quiet n (if b then n else send n p (inv_relay_block id) wire_size_inv)
    one true = Quiet-refl n
    one false = send-Quiet n p (inv_relay_block id) wire_size_inv

module _ (library : Library) where
  pub handle_block-Keeps :
      (now : ℕ) (b : Block) (from : ℕ) (n : Node)
      → Keeps (Takes b.header) n (handle_block library now b from n)
  unfolding handle_block take_block
  handle_block-Keeps now b from n = elim (Bool-cases (is_known n.blockchain b.header.block_id)) [
    | inl known ↦ record {
      change = inl (known, rw (handle_block, known) refl);
      running = rw (handle_block, known) refl;
      silent = λ _. rw (handle_block, known) refl;
    }
    | inr new ↦
        let q = broadcast-Quiet b.header.block_id from n.peers_addresses _ in
        record {
          change = inr (
            record b { time_received = now; received_from = from },
            refl,
            new,
            rw (handle_block, new) q.chain,
          );
          running = rw (handle_block, new) q.running;
          silent = λ stopped. rw (handle_block, new) (q.silent stopped);
        }
  ]

  pub handle_block-MayAdd :
      (now : ℕ) (b : Block) (from : ℕ) (n : Node)
      → Keeps MayAdd n (handle_block library now b from n)
  handle_block-MayAdd now b from n =
      let k = handle_block-Keeps now b from n in
      record {
        change = MayAdd-of_Takes b.header _ _ k.change;
        running = k.running;
        silent = k.silent;
      }

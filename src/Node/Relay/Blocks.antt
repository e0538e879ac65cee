-- ===== src/Node/Relay/Blocks.antt =====
-- Blocks that arrive: HandleBlock of node.cc.
use ghostdagsim.Common.{
  ℕ, ◌+◌, ◌^◌, ◌<◌, ◌≡◌, refl, sym, ap, ◌∙◌, subst, arith, Bool, true, false, ◌||◌, List, [], ◌∷◌,
  length, if◌then◌else◌, foldl, ◌==◌, Bool-cases, inl, inr,
}
use ghostdagsim.Block.{Block}
use ghostdagsim.Chain.State.{has_block, is_orphan}
use ghostdagsim.Chain.Invariant.{IsChain}
use ghostdagsim.Chain.Add.Keeps.{add_block-IsChain}
use ghostdagsim.Node.State.{Node, Message, inv_relay_block, Library, send, send_lem}
use ghostdagsim.Node.Sizes.{wire_size_inv}
use ghostdagsim.Node.Relay.{take_block, handle_block}

send-blockchain :
    (n : Node) (to : ℕ) (m : Message) (w : ℕ) → (send n to m w).blockchain ≡ n.blockchain
send-blockchain n to m w = ap (λ (x : Node). x.blockchain) (send_lem n to m w)

pub broadcast-blockchain :
    (id exclude : ℕ) (peers : List ℕ) (n : Node)
    → (foldl
        (λ n' peer. if peer == exclude then n' else send n' peer (inv_relay_block id) wire_size_inv)
        n
        peers).blockchain
      ≡ n.blockchain
broadcast-blockchain id exclude [] n = refl
broadcast-blockchain id exclude (p ∷ ps) n =
    broadcast-blockchain id exclude ps _ ∙ one (p == exclude)
  where
    one :
        (b : Bool)
        → (if b then n else send n p (inv_relay_block id) wire_size_inv).blockchain ≡ n.blockchain
    one true = refl
    one false = send-blockchain n p (inv_relay_block id) wire_size_inv

-- A node with a well-formed chain that has an index left: whatever block arrives from whichever
-- peer, the chain stays well formed.
pub handle_block-IsChain :
    (library : Library) (now : ℕ) (b : Block) (from : ℕ) (n : Node)
    → IsChain n.blockchain
    → length n.blockchain.id_of + length n.blockchain.orphans < 2 ^ 32
    → IsChain (handle_block library now b from n).blockchain
unfolding handle_block take_block
handle_block-IsChain library now b from n h room =
    elim (Bool-cases
      (has_block n.blockchain b.header.block_id || is_orphan n.blockchain b.header.block_id)) [
        | inl known ↦ rw (handle_block, known) h
        | inr fresh ↦
            let kept =
              (add_block-IsChain n.blockchain
                (record b { time_received = now; received_from = from }) h
                (record { unknown = ground arith; absent = ground arith; room = room })).1 in
            rw (handle_block, fresh)
              (subst IsChain (sym (broadcast-blockchain b.header.block_id from n.peers_addresses _))
                kept)
      ]

-- ===== src/Miner/Blocks.antt =====
-- The blocks of a miner: MineBlock of miner.cc.
use ghostdagsim.Common.{
  ℕ, ◌+◌, ◌%◌, ◌^◌, ◌<◌, ◌≡◌, refl, sym, some, subst, arith, true, false, ◌||◌, length, all_of,
  all_of_each,
}
use ghostdagsim.Common.Maps.{has}
use ghostdagsim.Block.{Block, intern}
use ghostdagsim.Chain.State.{Blockchain, has_block, is_orphan, parents_of}
use ghostdagsim.Chain.Invariant.{IsChain, IsFresh}
use ghostdagsim.Chain.Settings.{IsChain-settings}
use ghostdagsim.Chain.Add.{parents_known}
use ghostdagsim.Chain.Add.Present.{header_at, add_block-header}
use ghostdagsim.Chain.Add.Rule.{Settled}
use ghostdagsim.Chain.Add.Keeps.{add_block-IsChain, add_block-Settled}
use ghostdagsim.Node.State.{Node, Library}
use ghostdagsim.Node.Relay.Blocks.{broadcast-blockchain}
use ghostdagsim.Node.Graphene.{GrapheneNode}
use ghostdagsim.Miner.{new_block, complete, publish, select_transactions, mine}

-- The tips of a well-formed chain are all in the DAG.
tips_known : (c : Blockchain) → IsChain c → all_of (λ p. has p c.blocks) c.tips ≡ true
tips_known c h = all_of_each (λ p. has p c.blocks) c.tips (λ p m. ground (arith, h.linked.tip p))

-- A miner with a well-formed chain that has an index left, and whose next number no block or orphan
-- has: the parents of the block that MineBlock makes are the tips, which are all in the DAG; after it the block is in the
-- miner's DAG, under its number and with its header; the chain is well formed, and no orphan that
-- could be added is left.
pub mine-IsChain :
    {I : Type 0} (library : Library) (now txs_per_block strategy : ℕ) (r : GrapheneNode I)
    → IsChain r.node.blockchain
    → length r.node.blockchain.id_of + length r.node.blockchain.orphans < 2 ^ 32
    → (has_block r.node.blockchain (new_block now r.node).header.block_id
        || is_orphan r.node.blockchain (new_block now r.node).header.block_id)
      ≡ false
    → (parents_of (new_block now r.node) ≡ r.node.blockchain.tips)
      × (parents_known r.node.blockchain (new_block now r.node) ≡ true)
      × (header_at
            (new_block now r.node).header.block_id
            (mine library now txs_per_block strategy r).node.blockchain.blocks
          ≡ some (new_block now r.node).header)
      × IsChain (mine library now txs_per_block strategy r).node.blockchain
      × Settled (mine library now txs_per_block strategy r).node.blockchain
unfolding mine publish new_block
mine-IsChain library now count strategy r h room fresh =
    let n : Node = r.node in
    let b : Block = new_block now n in
    let next : ℕ = (n.blockchain.next_block_id + 1) % 2 ^ 64 in
    let c : Blockchain = record n.blockchain { next_block_id = next } in
    let chosen = select_transactions library.pick count strategy n.generator n.mempool in
    let body = (intern b.header.block_id chosen.0 r.bodies).1 in
    let made : Block = complete now b body in
    let known = tips_known n.blockchain h in
    let usual : IsChain c =
      IsChain-settings n.blockchain n.blockchain.ghostdag_k next n.blockchain.node_id_metric h in
    let new : IsFresh c made = record {
      unknown = ground arith;
      absent = ground arith;
      room = room;
    } in
    let same = broadcast-blockchain made.header.block_id library.no_address n.peers_addresses _ in
    (
      refl,
      known,
      subst (λ (d : Blockchain). header_at made.header.block_id d.blocks ≡ some made.header)
          (sym same) (add_block-header c made usual new known),
      subst IsChain (sym same) (add_block-IsChain c made usual new).1,
      subst Settled (sym same) (add_block-Settled c made usual new known),
    )

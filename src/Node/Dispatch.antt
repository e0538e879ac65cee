-- ===== src/Node/Dispatch.antt =====
-- ProcessMessage of node.cc: what a node does with a message, by its kind.
pub mod Quiet
pub mod Changes
pub mod Chains
use ghostdagsim.Common.{ℕ, Bool, false, List, [], ◌∷◌, Option, none, some, foldl, get_or}
use ghostdagsim.Block.{
  Transaction, TxSet, insert_tx, BlockHeader, BodyTable, intern, Block, default_block,
}
use ghostdagsim.Graphene.Numbers.{Numbers}
use ghostdagsim.Graphene.Filters.{Filters}
use ghostdagsim.Node.State.{
  Node, Message, inv_relay_block, req_relay_block, full_block, inv_transactions, req_transactions,
  transactions, graphene_block, graphene_recovery_request, graphene_recovery_response, Library,
}
use ghostdagsim.Node.Relay.{handle_inv_relay_block, handle_block}
use ghostdagsim.Node.Transactions.{
  handle_inv_transactions, handle_req_transactions, handle_transactions,
}
use ghostdagsim.Node.Graphene.{
  GrapheneNode, handle_req_relay_block, handle_graphene_block, handle_graphene_recovery_request,
  handle_graphene_recovery_response,
}

-- `data.value(name, default)`
abbrev pub value : {A : Type 0} → Option A → A → A
value none otherwise = otherwise
value (some a) otherwise = a

-- The set of the transactions of a message.
abbrev pub tx_set : List Transaction → TxSet
tx_set txs = foldl (λ s t. insert_tx t s) [] txs

module _ {B I : Type 0} (d : Numbers) (f : Filters B I) (library : Library) where
  -- A full block, whose body is shared before the block is looked at.
  unfoldable pub process_block :
      ℕ → BlockHeader → List Transaction → ℕ → GrapheneNode I → GrapheneNode I
  process_block now header txs from s =
      let (bodies, body) : BodyTable × TxSet = intern header.block_id (tx_set txs) s.bodies in
      record s {
        node =
            handle_block library now (record default_block { header = header; txs = body }) from
              s.node;
        bodies = bodies;
      }

  -- `none` is a failed assertion, on the checksum of a compact block.
  unfoldable pub process_message : ℕ → Message → ℕ → GrapheneNode I → Option (GrapheneNode I)
  process_message now (inv_relay_block id) from s =
      some (record s { node = handle_inv_relay_block now id from s.node })
  process_message now (req_relay_block id graphene_failed count) from s = some (record s {
    node = handle_req_relay_block d f id (value graphene_failed false) from (value count 0) s.node;
  })
  process_message now (full_block header txs) from s = some (process_block now header txs from s)
  process_message now (inv_transactions ids) from s =
      some (record s { node = handle_inv_transactions now ids from s.node })
  process_message now (req_transactions ids) from s =
      some (record s { node = handle_req_transactions library ids from s.node })
  process_message now (transactions txs) from s =
      some (record s { node = handle_transactions library now txs from s.node })
  process_message now (graphene_block g) from s = handle_graphene_block d f library now g from s
  process_message now (graphene_recovery_request req) from s =
      some (record s { node = handle_graphene_recovery_request d f req from s.node })
  process_message now (graphene_recovery_response resp) from s =
      handle_graphene_recovery_response d f library now resp from s

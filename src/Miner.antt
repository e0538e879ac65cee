-- ===== src/Miner.antt =====
-- The miner of miner.cc: a node that also makes blocks. `ℕ` stands for the int of the number of
-- transactions per block and of the strategy; a setter's negative number is 0.
pub mod Select
pub mod Blocks
pub mod Tests
use ghostdagsim.Common.{
  ℕ, zero, suc, ◌+◌, ◌*◌, ◌^◌, ◌%◌, bit_or, min, Bool, true, false, ◌||◌, List, [], ◌∷◌, Option,
  none, some, length, if◌then◌else◌, ◌==◌,
}
use ghostdagsim.Block.{
  Transaction, TxSet, insert_tx, BodyTable, intern, Block, default_block, total_size,
}
use ghostdagsim.Chain.State.{Blockchain}
use ghostdagsim.Chain.Add.{add_block}
use ghostdagsim.Mempool
use ghostdagsim.Mempool.{
  Mempool, HtabItem, HtabIterator, is_valid, item_at, erase_transaction,
  get_sorted_transaction_descending,
}
use ghostdagsim.Mempool.Random.{get_random_transaction}
use ghostdagsim.Graphene.Numbers.{Numbers}
use ghostdagsim.Node.State.{Node, Library}
use ghostdagsim.Node.Relay.{broadcast_inv_block}
use ghostdagsim.Node.Graphene.{GrapheneNode}
use ghostdagsim.Node.Lifecycle.{Application}
use ghostdagsim.Node.Lifecycle

-- A time of the statistics is a double.
pub record Miner (I : Type 0) : Type 0 where
  pub application : Application I
  pub block_gen_interval : ℕ
  pub next_mining_event : Option ℕ
  pub mining_duration : ℕ
  pub stop_mining_event : Option ℕ
  pub txs_per_block : ℕ
  pub tx_selection_strategy : ℕ
  pub miner_generated_blocks : ℕ
  pub previous_block_generation_time : ℕ
  pub average_block_gen_interval : ℕ

-- The setters.
abbrev pub set_block_generation_interval : {I : Type 0} → ℕ → Miner I → Miner I
set_block_generation_interval interval s = record s { block_gen_interval = interval }

abbrev pub set_tx_selection_strategy : {I : Type 0} → ℕ → Miner I → Miner I
set_tx_selection_strategy strategy s = record s { tx_selection_strategy = strategy }

abbrev pub set_transactions_per_block : {I : Type 0} → ℕ → Miner I → Miner I
set_transactions_per_block txs s = record s { txs_per_block = txs }

-- The transaction that an iterator points at, for a block.
abbrev pub taken : HtabItem → Transaction
taken t = record { tx_id = t.tx_id; size_bytes = 522; fee = t.fee }

-- A chosen transaction goes from the mempool into the block.
unfoldable pub take_transaction : HtabIterator → TxSet × Mempool → TxSet × Mempool
take_transaction it (selected, m) = elim (is_valid it) [
  | false ↦ (selected, m)
  | true ↦ elim (item_at m it) [
    | none ↦ (selected, m)
    | some t ↦ (insert_tx (taken t) selected, erase_transaction m it)
  ]
]

-- The two loops, by the way in which they choose.
unfoldable pub select_rounds : (Mempool → HtabIterator) → ℕ → TxSet × Mempool → TxSet × Mempool
unfolding take_transaction
select_rounds choose zero state = state
select_rounds choose (suc rounds) (selected, m) =
    select_rounds choose rounds (take_transaction (choose m) (selected, m))

-- The random choice, whose generator is passed by value, or the one of the highest fee.
unfoldable pub choice : (ℕ → ℕ → ℕ × ℕ) → ℕ → ℕ → Mempool → HtabIterator
choice pick strategy generator m =
    if strategy == 0
    then get_random_transaction pick m generator
    else get_sorted_transaction_descending m

unfoldable pub select_transactions : (ℕ → ℕ → ℕ × ℕ) → ℕ → ℕ → ℕ → Mempool → TxSet × Mempool
unfolding select_rounds choice
select_transactions pick txs_per_block strategy generator m =
    if (txs_per_block == 0) || (Mempool.size m == 0)
    then ([], m)
    else select_rounds (choice pick strategy generator) (min txs_per_block (Mempool.size m)) ([], m)

-- The block with a number that is not used, on the tips of the DAG.
unfoldable pub new_block : ℕ → Node → Block
new_block now n = record default_block {
  header = record {
    block_id = bit_or (n.node_id * 2 ^ 32 % 2 ^ 64) n.blockchain.next_block_id;
    miner_id = n.node_id;
    time_created = now;
    parent_hashes = n.blockchain.tips;
  };
}

-- The block with its body and its size.
abbrev pub complete : ℕ → Block → TxSet → Block
complete now b body =
    let filled : Block = record b { txs = body } in
    record filled { size_in_bytes = total_size filled; time_received = now }

-- `application.relay`, and a miner with another one.
abbrev pub relay_of : {I : Type 0} → Miner I → GrapheneNode I
relay_of s = s.application.relay

abbrev pub with_relay : {I : Type 0} → Miner I → GrapheneNode I → Miner I
with_relay s relay = record s { application = record s.application { relay = relay } }

-- The block is added to the miner's own DAG and announced to all peers.
unfoldable pub publish : Library → Block → Node → Node
publish library b n =
    broadcast_inv_block b.header.block_id library.no_address
      (record n { blockchain = add_block n.blockchain b })

-- The DAG, the mempool, the table of bodies and the messages, after MineBlock.
unfoldable pub mine : {I : Type 0} → Library → ℕ → ℕ → ℕ → GrapheneNode I → GrapheneNode I
unfolding publish new_block select_transactions
mine library now txs_per_block strategy r =
    let n : Node = r.node in
    let b : Block = new_block now n in
    let c : Blockchain = record n.blockchain {
      next_block_id = (n.blockchain.next_block_id + 1) % 2 ^ 64;
    } in
    let (txs, mempool) : TxSet × Mempool =
      select_transactions library.pick txs_per_block strategy n.generator n.mempool in
    let (bodies, body) : BodyTable × TxSet = intern b.header.block_id txs r.bodies in
    record r {
      node = publish library (complete now b body) (record n { blockchain = c; mempool = mempool });
      bodies = bodies;
    }

module _ {I : Type 0} (d : Numbers) (library : Library) (draw_block_delay : ℕ → ℕ × ℕ) where
  unfoldable pub schedule_next_mining_event : ℕ → Miner I → Miner I
  schedule_next_mining_event now s =
      let (delay, generator) : ℕ × ℕ = draw_block_delay (relay_of s).node.generator in
      record (with_relay s
        (record (relay_of s) { node = record (relay_of s).node { generator = generator } })) {
          next_mining_event = some (now + delay);
        }

  -- The mean interval between the miner's blocks.
  unfoldable pub average : ℕ → Miner I → ℕ
  average seconds s =
      let count : ℕ = d.of_nat s.miner_generated_blocks in
      let next : ℕ = d.of_nat (s.miner_generated_blocks + 1) in
      d.add (d.mul (d.div count next) s.average_block_gen_interval)
        (d.div (d.sub seconds s.previous_block_generation_time) next)

  -- `seconds` is `now` as a double.
  unfoldable pub mine_block : ℕ → ℕ → Miner I → Miner I
  unfolding schedule_next_mining_event average mine
  mine_block now seconds s =
      schedule_next_mining_event now
        (record (with_relay s
          (mine library now s.txs_per_block s.tx_selection_strategy (relay_of s))) {
            average_block_gen_interval = average seconds s;
            previous_block_generation_time = seconds;
            miner_generated_blocks = s.miner_generated_blocks + 1;
          })

  unfoldable pub stop_mining : Miner I → Miner I
  stop_mining s = record s { next_mining_event = none }

  unfoldable pub start_application : (ℕ → ℕ) → ℕ → Miner I → Miner I
  unfolding schedule_next_mining_event
  start_application seeded now s =
      let started : Miner I =
        schedule_next_mining_event now (record s {
          application = Lifecycle.start_application library seeded now s.application;
        }) in
      if s.mining_duration == 0
      then started
      else record started { stop_mining_event = some (now + s.mining_duration) }

  unfoldable pub stop_application : Miner I → Miner I
  stop_application s = record s {
    next_mining_event = none;
    stop_mining_event = none;
    application = Lifecycle.stop_application s.application;
  }

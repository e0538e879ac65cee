-- ===== src/Block.antt =====
-- Transactions, block headers, blocks and the shared store of block bodies: dag.h and the first
-- part of dag.cc. A shared pointer to a constant set is the set. Times are numbers of simulator
-- ticks, which the code only compares and copies. An `int` or `uint32_t` wraps at 2 ^ 32.
pub mod Bodies
pub mod Ids
pub mod Tests
use ghostdagsim.Common.{
  ℕ, suc, ◌+◌, ◌-◌, ◌*◌, ◌%◌, ◌^◌, bit_xor, Bool, true, false, ◌&&◌, List, [], ◌∷◌, Option, none,
  some, length, ltb, leb, ◌==◌, if◌then◌else◌, map,
}
use ghostdagsim.Common.Maps.{Map, find, assign}

pub record Transaction : Type 0 where
  pub tx_id : ℕ
  pub size_bytes : ℕ
  pub fee : ℕ

-- std::set<Transaction>, ordered by `tx_id`.
abbrev pub TxSet : Type 0
TxSet = List Transaction

-- An element whose id is there already is not inserted.
unfoldable pub insert_tx : Transaction → TxSet → TxSet
insert_tx t [] = t ∷ []
insert_tx t (u ∷ us) =
    if ltb t.tx_id u.tx_id
    then t ∷ u ∷ us
    else (if t.tx_id == u.tx_id then u ∷ us else u ∷ insert_tx t us)

abbrev pub tx_ids : TxSet → List ℕ
tx_ids = map λ t. t.tx_id

pub tx_checksum_from : ℕ → TxSet → ℕ
tx_checksum_from c [] = c
tx_checksum_from c (t ∷ ts) = tx_checksum_from (bit_xor c t.tx_id) ts

pub tx_checksum : TxSet → ℕ
unfolding tx_checksum_from
tx_checksum txs = tx_checksum_from 0 txs

-- The table of BlockBodyStore.
abbrev pub BodyTable : Type 0
BodyTable = Map TxSet

-- The table afterwards, and the body that the caller holds.
pub intern : ℕ → TxSet → BodyTable → BodyTable × TxSet
unfolding tx_checksum
intern block_id txs table = elim (find block_id table) [
  | some body ↦
      if (length body == length txs) && (tx_checksum body == tx_checksum txs)
      then (table, body)
      else (table, txs)
  | none ↦ (assign block_id txs table, txs)
]

abbrev pub clear : BodyTable → BodyTable
clear table = []

pub record BlockHeader : Type 0 where
  pub block_id : ℕ
  pub miner_id : ℕ
  pub time_created : ℕ
  pub parent_hashes : List ℕ

unfoldable pub header_size : BlockHeader → ℕ
header_size h =
    let parents = length h.parent_hashes in
    (80 + (if leb 253 parents then 3 else 1) + parents * 32) % 2 ^ 32

pub record Block : Type 0 where
  pub header : BlockHeader
  pub txs : TxSet
  pub size_in_bytes : ℕ
  pub time_received : ℕ
  pub received_from : ℕ
  pub blue_score : ℕ
  pub is_blue : Bool
  pub selected_parent : ℕ

-- `Block()`: `selected_parent(-1)`, and address 0 for a default Ipv4Address.
abbrev pub default_block : Block
default_block = record {
  header = record { block_id = 0; miner_id = 0; time_created = 0; parent_hashes = [] };
  txs = [];
  size_in_bytes = 0;
  time_received = 0;
  received_from = 0;
  blue_score = 0;
  is_blue = false;
  selected_parent = 2 ^ 64 - 1;
}

unfoldable pub total_size : Block → ℕ
unfolding header_size
total_size b = (header_size b.header + length b.txs * 4) % 2 ^ 32

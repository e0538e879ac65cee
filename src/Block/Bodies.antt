-- ===== src/Block/Bodies.antt =====
-- What BlockBodyStore::Intern hands out.
use ghostdagsim.Common.{ℕ, ◌≡◌, ◌≢◌, none, some, length, arith, ◌==◌, if◌then◌else◌}
use ghostdagsim.Common.Maps.{find, has, assign, find-assign}
use ghostdagsim.Block.{TxSet, tx_checksum, BodyTable, intern}

-- The body that a caller gets has as many transactions as its own set, and the same checksum, and
-- the table's entry for every id that had one stays as it was.
pub intern_agrees :
    (block_id : ℕ) (txs : TxSet) (table : BodyTable) (j : ℕ)
    → (length (intern block_id txs table).1 ≡ length txs)
      × (tx_checksum (intern block_id txs table).1 ≡ tx_checksum txs)
      × (find j (intern block_id txs table).0
          ≡ (if has j table then find j table else (if j == block_id then some txs else none)))
unfolding intern
intern_agrees block_id txs table j =
    (ground arith, ground arith, ground (arith, find-assign j block_id txs table))

-- Two callers that intern sets of the same size and checksum under an id that is new share one
-- body, the one of the first call, also when other ids were interned in between.
pub intern_shares :
    (block_id : ℕ) (txs later : TxSet) (table : BodyTable) (j : ℕ) (other : TxSet)
    → find block_id table ≡ none
    → j ≢ block_id
    → length later ≡ length txs
    → tx_checksum later ≡ tx_checksum txs
    → (intern block_id later (intern j other (intern block_id txs table).0).0).1 ≡ txs
unfolding intern
intern_shares block_id txs later table j other new ne size sum = ground (
  arith,
  find-assign block_id block_id txs table,
  find-assign block_id j other (assign block_id txs table),
)

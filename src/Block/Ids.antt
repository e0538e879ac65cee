-- ===== src/Block/Ids.antt =====
-- The ids of a set of transactions.
use ghostdagsim.Common.{◌≡◌, refl, arith, [], ◌∷◌}
use ghostdagsim.Common.Sets.{insert}
use ghostdagsim.Block.{TxSet, Transaction, insert_tx, tx_ids}

pub tx_ids-insert_tx :
    (t : Transaction) (s : TxSet) → tx_ids (insert_tx t s) ≡ insert t.tx_id (tx_ids s)
unfolding insert_tx insert
tx_ids-insert_tx t [] = refl
tx_ids-insert_tx t (u ∷ us) = ground (arith, tx_ids-insert_tx t us)

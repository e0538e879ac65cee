-- ===== src/Block/Tests.antt =====
-- Intern at bodies of two transactions.
use ghostdagsim.Common.{ℕ, ◌≡◌, refl, [], ◌∷◌}
use ghostdagsim.Common.Maps.{find}
use ghostdagsim.Block.{Transaction, TxSet, tx_checksum, BodyTable, intern}

abbrev tx : ℕ → Transaction
tx id = record { tx_id = id; size_bytes = 250; fee = 1 }

-- Two bodies of two transactions each, with the checksum 3.
abbrev one_two : TxSet
one_two = tx 1 ∷ tx 2 ∷ []

abbrev four_seven : TxSet
four_seven = tx 4 ∷ tx 7 ∷ []

abbrev table : BodyTable
table = (5, one_two) ∷ []

-- The set that is interned second has other ids, and is replaced by the stored one.
replaced : (intern 5 four_seven table).1 ≡ one_two
unfolding intern tx_checksum find
replaced = refl

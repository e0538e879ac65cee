-- ===== src/Mempool/Tests.antt =====
-- The theorems on the mempool at concrete contents.
use ghostdagsim.Common.{
  ℕ, ◌+◌, ◌%◌, ◌≡◌, refl, arith, List, [], ◌∷◌, some, if◌then◌else◌, ◌&&◌, ◌==◌, drop, min, All,
  ◌≤◌,
}
use ghostdagsim.Mempool.{
  Mempool, new, insert, find, erase_transaction, erase_transactions_ascending,
  get_sorted_transaction_descending,
}
use ghostdagsim.Mempool.Contents.{Stored, Holds, handle, by_fee, without, stored_at, FeesAscend}
use ghostdagsim.Mempool.Updates.{new-Holds, insert-Holds, erase_transaction-Holds}
use ghostdagsim.Mempool.Lowest.{erase_transactions_ascending-Holds}
use ghostdagsim.Mempool.Highest.{get_sorted_transaction_descending-highest}
use ghostdagsim.Mempool.Lookup.{find-insert}
use ghostdagsim.Mempool.Random.{get_random_transaction}
use ghostdagsim.Mempool.Random.Walk.{get_random_transaction-stored}

abbrev mix : ℕ → ℕ → ℕ
mix miner_id tx_id = miner_id + tx_id

m0 : Mempool
unfolding new
m0 = new 4

-- A transaction of miner 1 with id 7, and then one of miner 2 with id 6 in the same bucket.
m1 : Mempool
unfolding m0 insert
m1 = (insert mix m0 1 7 30).0

pub m2 : Mempool
unfolding m1 insert
m2 = (insert mix m1 2 6 20).0

abbrev pub first : Stored
first = record { address = 1; tx_id = 7; fee = 30; index = 0 }

abbrev pub second : Stored
second = record { address = 2; tx_id = 6; fee = 20; index = 0 }

m1-Holds : Holds m1 (first ∷ [])
unfolding m0 new m1 insert
m1-Holds = insert-Holds m0 [] (new-Holds 4 (omega arith) (omega arith)) mix 1 7 30 (omega arith)

insert-Holds_example : Holds (insert mix m1 2 6 20).0 (second ∷ first ∷ [])
unfolding m0 new m1 insert
insert-Holds_example = insert-Holds m1 (first ∷ []) m1-Holds mix 2 6 20 (omega arith)

pub m2-Holds : Holds m2 (second ∷ first ∷ [])
unfolding m2
m2-Holds = insert-Holds_example

erase_transaction-Holds_example :
    Holds (erase_transaction m2 (handle first)) (without 1 (second ∷ first ∷ []))
unfolding stored_at
erase_transaction-Holds_example =
    erase_transaction-Holds m2 (second ∷ first ∷ []) m2-Holds first refl

erase_transactions_ascending-Holds_example :
    (left : List Stored) × Holds (erase_transactions_ascending m2 1) left
    × (by_fee left ≡ drop 1 (by_fee (second ∷ first ∷ [])))
    × FeesAscend 0 (by_fee (second ∷ first ∷ []))
erase_transactions_ascending-Holds_example =
    erase_transactions_ascending-Holds m2 (second ∷ first ∷ []) 1 m2-Holds

find-insert_example : find mix (insert mix m1 2 6 20).0 1 7 ≡ (
    if (mix 1 7 % m1.arr_size == mix 2 6 % m1.arr_size) && (7 == 6)
    then (insert mix m1 2 6 20).1
    else find mix m1 1 7)
find-insert_example = find-insert mix m1 (first ∷ []) 2 6 20 1 7 m1-Holds

-- A draw that is the generator, within the range.
abbrev bounded_draw : ℕ → ℕ → ℕ × ℕ
bounded_draw n gen = (min n gen, gen + 1)

get_random_transaction-stored_example :
    (r : Stored) × (stored_at r.address (second ∷ first ∷ []) ≡ some r)
    × (get_random_transaction bounded_draw m2 1 ≡ handle r)
get_random_transaction-stored_example =
    get_random_transaction-stored bounded_draw m2 (second ∷ first ∷ []) 1 m2-Holds (omega arith)
      (λ n g. omega arith)

get_sorted_transaction_descending-highest_example :
    (r : Stored) × (stored_at r.address (second ∷ first ∷ []) ≡ some r)
    × (get_sorted_transaction_descending m2 ≡ handle r)
    × All (λ s. s.fee ≤ r.fee) (second ∷ first ∷ [])
get_sorted_transaction_descending-highest_example =
    get_sorted_transaction_descending-highest m2 (second ∷ first ∷ []) m2-Holds (omega arith)

-- ===== src/Miner/Select.antt =====
-- The transactions of a miner's block: SelectTransactions of miner.cc.
use ghostdagsim.Common.{
  ℕ, zero, suc, ◌+◌, ◌-◌, ◌^◌, ◌≤◌, ◌<◌, ◌≡◌, refl, sym, ap, subst, ◌∙◌, arith, false, ◌||◌, List,
  [], ◌∷◌, some, length, map, contains, min, ◌==◌, Bool-cases, inl, inr,
}
use ghostdagsim.Common.Sets.{contains-insert}
use ghostdagsim.Block.{TxSet, insert_tx, tx_ids}
use ghostdagsim.Block.Ids.{tx_ids-insert_tx}
use ghostdagsim.Mempool.{Mempool, HtabIterator, erase_transaction, size}
use ghostdagsim.Mempool.Contents.{Stored, Holds, handle, item, stored_at, without, length-without}
use ghostdagsim.Mempool.Updates.{erase_transaction-Holds, item_at-handle, placed_r}
use ghostdagsim.Mempool.Highest.{get_sorted_transaction_descending-highest}
use ghostdagsim.Mempool.Random.Walk.{get_random_transaction-stored}
use ghostdagsim.Miner.{taken, take_transaction, select_rounds, choice, select_transactions}

abbrev pub stored_ids : List Stored → List ℕ
stored_ids = map λ r. r.tx_id

-- A way to choose that finds a stored transaction in every mempool that is not empty.
abbrev Chooses : (Mempool → HtabIterator) → Type 0
Chooses choose =
    (m : Mempool) (log : List Stored)
    → Holds m log
    → 0 < length log
    → (r : Stored) × (stored_at r.address log ≡ some r) × (choose m ≡ handle r)

contains-without :
    (id : ℕ) (r : Stored) (log : List Stored)
    → stored_at r.address log ≡ some r
    → contains id (stored_ids log)
      ≡ ((id == r.tx_id) || contains id (stored_ids (without r.address log)))
unfolding stored_at without
contains-without id r [] e = cc
contains-without id r (s ∷ rs) e = elim (Bool-cases (s.address == r.address)) [
  | inl same ↦
      let first : s ≡ r = ground arith in
      rw same (ap (λ (x : Stored). (id == x.tx_id) || contains id (stored_ids rs)) first)
  | inr other ↦ ground (arith, contains-without id r rs)
]

take_transaction-stored :
    (m : Mempool) (log : List Stored) (selected : TxSet) (r : Stored)
    → Holds m log
    → stored_at r.address log ≡ some r
    → take_transaction (handle r) (selected, m)
      ≡ (insert_tx (taken (item r)) selected, erase_transaction m (handle r))
unfolding take_transaction
take_transaction-stored m log selected r h found =
    let placed = placed_r m log h r found in
    let valid : (r.index == 2 ^ 64 - 1) ≡ false = ground (arith, h.size.1) in
    rw (take_transaction, valid, item_at-handle m log h r found) refl

-- What is left of a mempool and what was taken from it: together, the ids that there were.
pub record Takes (n : ℕ) (log : List Stored) (before : List ℕ) (r : TxSet × Mempool) : Type 0 where
  pub left : List Stored
  pub holds : Holds r.1 left
  pub fewer : length left + n ≡ length log
  pub kept :
      (id : ℕ)
      → (contains id (tx_ids r.0) || contains id (stored_ids left))
        ≡ (contains id before || contains id (stored_ids log))

select_rounds-Takes :
    (choose : Mempool → HtabIterator)
    → Chooses choose
    → (rounds : ℕ) (m : Mempool) (log : List Stored) (selected : TxSet) → Holds m log
    → rounds ≤ length log
    → Takes rounds log (tx_ids selected) (select_rounds choose rounds (selected, m))
unfolding select_rounds
select_rounds-Takes choose finds zero m log selected h enough = record {
  left = log;
  holds = h;
  fewer = omega arith;
  kept = λ id. refl;
}
select_rounds-Takes choose finds (suc rounds) m log selected h enough =
    let (r, found, is) = finds m log h (omega arith) in
    let shorter = length-without r.address r log found in
    let rest =
      select_rounds-Takes choose finds rounds (erase_transaction m (handle r))
        (without r.address log) (insert_tx (taken (item r)) selected)
        (erase_transaction-Holds m log h r found) (omega arith) in
    let step =
      ap (λ it. take_transaction it (selected, m)) is
      ∙ take_transaction-stored m log selected r h found in
    subst (λ s. Takes (suc rounds) log (tx_ids selected) (select_rounds choose rounds s)) (sym step)
      (record {
        left = rest.left;
        holds = rest.holds;
        fewer = omega (arith, rest.fewer);
        kept = λ id. ground (
          arith,
          rest.kept id,
          contains-without id r log found,
          ap (contains id) (tx_ids-insert_tx (taken (item r)) selected),
          contains-insert id r.tx_id (tx_ids selected),
        );
      })

choice-Chooses :
    (pick : ℕ → ℕ → ℕ × ℕ) (strategy generator : ℕ)
    → ((n g : ℕ) → (pick n g).0 ≤ n)
    → Chooses (choice pick strategy generator)
unfolding choice
choice-Chooses pick strategy generator fair m log h some_left = elim (Bool-cases (strategy == 0)) [
  | inl random ↦ rw random (get_random_transaction-stored pick m log generator h some_left fair)
  | inr highest ↦
      let (r, found, is, _) = get_sorted_transaction_descending-highest m log h some_left in
      rw highest (r, found, is)
]

-- From a mempool that holds a list of transactions, with either strategy, and with draws that are in
-- range: SelectTransactions takes as many transactions out of the mempool as a block is to have, or
-- all of them if there are fewer, and the block's ids with the ids that are left are the ids that
-- the mempool had.
pub select_transactions-Takes :
    (pick : ℕ → ℕ → ℕ × ℕ) (txs_per_block strategy generator : ℕ) (m : Mempool) (log : List Stored)
    → Holds m log
    → ((n g : ℕ) → (pick n g).0 ≤ n)
    → Takes
        (min txs_per_block (length log))
        log
        []
        (select_transactions pick txs_per_block strategy generator m)
unfolding select_transactions
select_transactions-Takes pick count strategy generator m log h fair =
    elim (Bool-cases ((count == 0) || (size m == 0))) [
      | inl nothing ↦
          rw nothing
            (record { left = log; holds = h; fewer = ground (arith, h.count); kept = λ id. refl })
      | inr something ↦ rw something (
          subst
            (λ n.
              Takes (min count (length log)) log []
                (select_rounds (choice pick strategy generator) (min count n) ([], m)))
            (sym h.count)
            (select_rounds-Takes (choice pick strategy generator)
              (choice-Chooses pick strategy generator fair) (min count (length log)) m log [] h
              (omega arith)))
    ]

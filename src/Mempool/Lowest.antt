-- ===== src/Mempool/Lowest.antt =====
-- Erasing in ascending order of the fees, and the transaction with the highest fee.
use ghostdagsim.Common.{
  ℕ, zero, suc, ◌<◌, ◌≡◌, ap, sym, ◌∙◌, List, [], ◌∷◌, some, drop, All, arith, ltb, Bool-cases,
  List-cases, inl, inr,
}
use ghostdagsim.Mempool.{
  Entry, Mempool, insert_entry, erase_entry, erase_first, erase_transactions_ascending, remove,
}
use ghostdagsim.Mempool.Contents.{
  Stored, Holds, handle, entry, by_fee, without, stored_at, Descends, FeesAscend, by_fee-FeesAscend,
  erase_entry-by_fee, stored_at-All,
}
use ghostdagsim.Mempool.Updates.{remove-Holds}

pub Descends-All : (n : ℕ) (log : List Stored) → Descends n log → All (λ s. s.address < n) log
Descends-All n [] d = tt
Descends-All n (r ∷ rs) d = (d.0, widen rs (Descends-All r.address rs d.1))
  where
    widen : (xs : List Stored) → All (λ s. s.address < r.address) xs → All (λ s. s.address < n) xs
    widen [] a = tt
    widen (x ∷ xs) a = (omega (arith, d.0), widen xs a.1)

-- The first entry of the multimap is that of a stored transaction.
by_fee-head :
    (n : ℕ) (log : List Stored) (e : Entry) (es : List Entry)
    → Descends n log
    → by_fee log ≡ e ∷ es
    → (r : Stored) × (stored_at r.address log ≡ some r) × (e ≡ entry r)
unfolding by_fee stored_at insert_entry
by_fee-head n [] e es d p = cc
by_fee-head n (s ∷ rs) e es d p = elim (List-cases (by_fee rs)) [
  | inl none_left ↦ (s, ground arith, ground arith)
  | inr (x, xs, q) ↦ elim (Bool-cases (ltb s.fee x.fee)) [
    | inl below ↦ (s, ground arith, ground arith)
    | inr above ↦
        let (r, found, is) = by_fee-head s.address rs x xs d.1 q in
        let older =
          stored_at-All (λ t. t.address < s.address) r.address r rs (Descends-All s.address rs d.1)
            found in
        (r, ground arith, ground arith)
  ]
]

erase_first-Holds :
    (rounds : ℕ) (m : Mempool) (log : List Stored) (entries : List Entry)
    → Holds m log
    → entries ≡ by_fee log
    → (left : List Stored) × Holds (erase_first rounds entries m) left
      × (by_fee left ≡ drop rounds entries)
unfolding erase_first
erase_first-Holds zero m log entries h e = (log, h, sym e)
erase_first-Holds (suc rounds) m log [] h e = (log, h, sym e)
erase_first-Holds (suc rounds) m log (x ∷ xs) h e =
    let (r, found, is) = by_fee-head m.next log x xs h.newest_first (sym e) in
    let rest : xs ≡ by_fee (without r.address log) = tail_eq r found is in
    rw is (
      erase_first-Holds rounds (remove m r.address (handle r)) (without r.address log) xs
        (remove-Holds m log h r found) rest)
  where
    tail_eq :
        (r : Stored)
        → stored_at r.address log ≡ some r
        → x ≡ entry r
        → xs ≡ by_fee (without r.address log)
    tail_eq r found is =
        ground (arith, ap (erase_entry r.address) e, erased r is)
        ∙ erase_entry-by_fee r.address m.next r log h.newest_first found
      where
        erased : (r : Stored) → x ≡ entry r → erase_entry r.address (x ∷ xs) ≡ xs
        erased r is = ground arith

-- In a mempool that holds `log`, erasing `n` transactions leaves one that holds the transactions
-- whose entries are behind the first `n` of the multimap, which is ordered by fee, older first.
pub erase_transactions_ascending-Holds :
    (m : Mempool) (log : List Stored) (n : ℕ)
    → Holds m log
    → (left : List Stored) × Holds (erase_transactions_ascending m n) left
      × (by_fee left ≡ drop n (by_fee log))
      × FeesAscend 0 (by_fee log)
unfolding erase_transactions_ascending
erase_transactions_ascending-Holds m log n h =
    let (left, holds, e) = erase_first-Holds n m log m.multimap_items h h.entries in
    (left, holds, e ∙ ap (drop n) h.entries, by_fee-FeesAscend log)

-- ===== src/Mempool/Highest.antt =====
-- getSortedTransactionDescending: the stored transaction with the highest fee.
use ghostdagsim.Common.{
  ℕ, suc, ◌<◌, ◌≤◌, ◌≡◌, refl, ap, sym, ltb, ◌∙◌, List, [], ◌∷◌, some, length, All, arith,
  Bool-cases, inl, inr, subst,
}
use ghostdagsim.Mempool.{
  HtabIterator, Entry, Mempool, insert_entry, last_entry, end, get_sorted_transaction_descending,
}
use ghostdagsim.Mempool.Contents.{
  Stored, Holds, Descends, FeesAscend, by_fee, by_fee-FeesAscend, entry, handle, stored_at,
}

insert_entry-All {κ} :
    (P : Entry → Type κ) (e : Entry) (es : List Entry) → P e → All P es → All P (insert_entry e es)
unfolding insert_entry
insert_entry-All P e [] p ps = (p, tt)
insert_entry-All P e (x ∷ xs) p ps = elim (Bool-cases (ltb e.fee x.fee)) [
  | inl b ↦ rw b (p, ps)
  | inr b ↦ rw b (ps.0, insert_entry-All P e xs p ps.1)
]

insert_entry-each {κ} :
    (P : Entry → Type κ) (e : Entry) (es : List Entry) → All P (insert_entry e es) → P e × All P es
unfolding insert_entry
insert_entry-each P e [] h = (h.0, tt)
insert_entry-each P e (x ∷ xs) h = elim (Bool-cases (ltb e.fee x.fee)) [
  | inl b ↦ rw (insert_entry, b) at h
  | inr b ↦
      let h' : P x × All P (insert_entry e xs) = rw (insert_entry, b) at h in
      let (p, ps) = insert_entry-each P e xs h'.1 in (p, (h'.0, ps))
]

-- The entry of a transaction that the list holds.
abbrev IsEntry : List Stored → Entry → Type 0
IsEntry log e = (r : Stored) × (stored_at r.address log ≡ some r) × (entry r ≡ e)

stored_at-below :
    (n : ℕ) (r : Stored) (log : List Stored)
    → Descends n log
    → stored_at r.address log ≡ some r
    → r.address < n
unfolding stored_at
stored_at-below n r [] d e = cc
stored_at-below n r (s ∷ rs) d e = ground (arith, stored_at-below s.address r rs)

-- What is stored stays so behind a newer transaction.
kept_behind :
    (s : Stored) (rs : List Stored) (es : List Entry)
    → Descends s.address rs
    → All (IsEntry rs) es
    → All (IsEntry (s ∷ rs)) es
unfolding stored_at
kept_behind s rs [] d h = tt
kept_behind s rs (e ∷ es) d h =
    let (r, found, same) = h.0 in
    let behind = stored_at-below s.address r rs d found in
    ((r, ground arith, same), kept_behind s rs es d h.1)

by_fee-IsEntry : (n : ℕ) (log : List Stored) → Descends n log → All (IsEntry log) (by_fee log)
unfolding by_fee stored_at
by_fee-IsEntry n [] d = tt
by_fee-IsEntry n (s ∷ rs) d =
    insert_entry-All (IsEntry (s ∷ rs)) (entry s) (by_fee rs) (s, ground arith, refl)
      (kept_behind s rs (by_fee rs) d.1 (by_fee-IsEntry s.address rs d.1))

by_fee-each :
    (n : ℕ) (log : List Stored) → All (λ e. e.fee ≤ n) (by_fee log) → All (λ r. r.fee ≤ n) log
unfolding by_fee
by_fee-each n [] h = tt
by_fee-each n (s ∷ rs) h =
    let (first, rest) = insert_entry-each (λ e. e.fee ≤ n) (entry s) (by_fee rs) h in
    (first, by_fee-each n rs rest)

length-insert_entry : (e : Entry) (es : List Entry) → length (insert_entry e es) ≡ suc (length es)
unfolding insert_entry
length-insert_entry e [] = refl
length-insert_entry e (x ∷ xs) = ground (arith, length-insert_entry e xs)

length-by_fee : (log : List Stored) → length (by_fee log) ≡ length log
unfolding by_fee
length-by_fee [] = refl
length-by_fee (s ∷ rs) = omega (arith, length-insert_entry (entry s) (by_fee rs), length-by_fee rs)

-- The last of some entries with ascending fees has the highest fee.
last_entry-highest :
    (P : Entry → Type 0) (n : ℕ) (it : HtabIterator) (e : Entry) (es : List Entry)
    → All P (e ∷ es)
    → FeesAscend n (e ∷ es)
    → (x : Entry) × P x × (last_entry it (e ∷ es) ≡ x.item) × All (λ y. y.fee ≤ x.fee) (e ∷ es)
unfolding last_entry
last_entry-highest P n it e [] h up = (e, h.0, refl, (omega arith, tt))
last_entry-highest P n it e (e' ∷ es) h up =
    let (x, p, last, below) = last_entry-highest P e.fee e.item e' es h.1 up.1 in
    (x, p, last, (omega (arith, up.1.0, below.0), below))

-- From a mempool that holds at least one transaction, getSortedTransactionDescending returns the
-- iterator of a stored transaction, and no stored transaction has a higher fee.
pub get_sorted_transaction_descending-highest :
    (m : Mempool) (log : List Stored)
    → Holds m log
    → 0 < length log
    → (r : Stored) × (stored_at r.address log ≡ some r)
      × (get_sorted_transaction_descending m ≡ handle r)
      × All (λ s. s.fee ≤ r.fee) log
unfolding get_sorted_transaction_descending
get_sorted_transaction_descending-highest m log h some_left =
    go (by_fee log) refl (by_fee-IsEntry m.next log h.newest_first) (by_fee-FeesAscend log)
  where
    go :
        (es : List Entry)
        → es ≡ by_fee log
        → All (IsEntry log) es
        → FeesAscend 0 es
        → (r : Stored) × (stored_at r.address log ≡ some r)
          × (get_sorted_transaction_descending m ≡ handle r)
          × All (λ s. s.fee ≤ r.fee) log
    go [] e stored up = absurd (omega (arith, length-by_fee log, ap length e))
    go (x ∷ xs) e stored up =
        let (y, (r, found, same), last, below) =
          last_entry-highest (IsEntry log) 0 end x xs stored up in
        (
          r,
          found,
          ap (last_entry end) (h.entries ∙ sym e) ∙ last ∙ ap (λ (z : Entry). z.item) (sym same),
          by_fee-each r.fee log (
              subst (All (λ z. z.fee ≤ r.fee)) e
                (subst (λ (z : Entry). All (λ w. w.fee ≤ z.fee) (x ∷ xs)) (sym same) below)),
        )

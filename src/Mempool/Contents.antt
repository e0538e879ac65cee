-- ===== src/Mempool/Contents.antt =====
-- What a mempool holds, as a list of stored transactions with the newest first: every bucket and the
-- multimap are views of it.
use ghostdagsim.Common.{
  ℕ, suc, ◌<◌, ◌≤◌, ◌^◌, ◌≡◌, ◌≢◌, refl, List, [], ◌∷◌, Option, none, some, length, All,
  if◌then◌else◌, ◌==◌, arith, Bool-cases, inl, inr, subst,
}
use ghostdagsim.Mempool.{
  HtabItem, HtabIterator, Entry, Mempool, bucket, insert_entry, erase_entry, erase_item, item_in,
}

pub record Stored : Type 0 where
  pub address : ℕ
  pub tx_id : ℕ
  pub fee : ℕ
  pub index : ℕ

abbrev pub item : Stored → HtabItem
item r = record { address = r.address; tx_id = r.tx_id; fee = r.fee; multimap_iterator = r.address }

abbrev pub handle : Stored → HtabIterator
handle r = record { iterator = r.address; index = r.index }

abbrev pub entry : Stored → Entry
entry r = record { address = r.address; fee = r.fee; item = handle r }

-- The items of a bucket.
unfoldable pub in_bucket : ℕ → List Stored → List HtabItem
in_bucket i [] = []
in_bucket i (r ∷ rs) = let rest = in_bucket i rs in if r.index == i then item r ∷ rest else rest

-- The entries in ascending order of their fees, older ones first where fees agree.
unfoldable pub by_fee : List Stored → List Entry
by_fee [] = []
by_fee (r ∷ rs) = insert_entry (entry r) (by_fee rs)

unfoldable pub without : ℕ → List Stored → List Stored
without a [] = []
without a (r ∷ rs) = let rest = without a rs in if r.address == a then rs else r ∷ rest

unfoldable pub stored_at : ℕ → List Stored → Option Stored
stored_at a [] = none
stored_at a (r ∷ rs) = let rest = stored_at a rs in if r.address == a then some r else rest

-- Addresses descend from below `n`.
abbrev pub Descends : ℕ → List Stored → Type 0
Descends n [] = Unit
Descends n (r ∷ rs) = (r.address < n) × Descends r.address rs

pub record Holds (m : Mempool) (log : List Stored) : Type 0 where
  pub buckets : (i : ℕ) → bucket m i ≡ in_bucket i log
  pub entries : m.multimap_items ≡ by_fee log
  pub count : m.item_count ≡ length log
  pub room : length log < 2 ^ 64
  pub width : length m.htab_items ≡ m.arr_size
  pub size : (0 < m.arr_size) × (m.arr_size < 2 ^ 32)
  pub newest_first : Descends m.next log
  pub placed : All (λ r. r.index < m.arr_size) log

-- Ascending fees.
abbrev pub FeesAscend : ℕ → List Entry → Type 0
FeesAscend n [] = Unit
FeesAscend n (e ∷ es) = (n ≤ e.fee) × FeesAscend e.fee es

pub FeesAscend-mono : (m n : ℕ) (es : List Entry) → m ≤ n → FeesAscend n es → FeesAscend m es
FeesAscend-mono m n [] h p = tt
FeesAscend-mono m n (e ∷ es) h p = (omega arith, p.1)

pub insert_entry-FeesAscend :
    (n : ℕ) (e : Entry) (es : List Entry)
    → n ≤ e.fee
    → FeesAscend n es
    → FeesAscend n (insert_entry e es)
unfolding insert_entry
insert_entry-FeesAscend n e [] h p = (h, tt)
insert_entry-FeesAscend n e (x ∷ xs) h p = ground (arith, insert_entry-FeesAscend x.fee e xs)

pub by_fee-FeesAscend : (log : List Stored) → FeesAscend 0 (by_fee log)
unfolding by_fee
by_fee-FeesAscend [] = tt
by_fee-FeesAscend (r ∷ rs) =
    insert_entry-FeesAscend 0 (entry r) (by_fee rs) (omega arith) (by_fee-FeesAscend rs)

-- In front of entries with larger fees.
insert_entry_first :
    (e : Entry) (n : ℕ) (es : List Entry) → e.fee < n → FeesAscend n es → insert_entry e es ≡ e ∷ es
unfolding insert_entry
insert_entry_first e n [] h p = refl
insert_entry_first e n (x ∷ xs) h p = ground arith

-- The entry of another address goes to the same place.
pub erase_entry-insert_entry :
    (a n : ℕ) (e : Entry) (es : List Entry)
    → FeesAscend n es
    → e.address ≢ a
    → erase_entry a (insert_entry e es) ≡ insert_entry e (erase_entry a es)
unfolding insert_entry erase_entry
erase_entry-insert_entry a n e [] p ne = ground arith
erase_entry-insert_entry a n e (x ∷ xs) p ne =
    ground (arith, erase_entry-insert_entry a x.fee e xs p.1 ne, insert_entry_first e x.fee xs)

abbrev Avoids : ℕ → List Entry → Type 0
Avoids a [] = Unit
Avoids a (e ∷ es) = (e.address ≢ a) × Avoids a es

pub erase_entry-insert_self :
    (e : Entry) (es : List Entry)
    → Avoids e.address es
    → erase_entry e.address (insert_entry e es) ≡ es
unfolding insert_entry erase_entry
erase_entry-insert_self e [] h = ground arith
erase_entry-insert_self e (x ∷ xs) h = ground (arith, erase_entry-insert_self e xs h.1)

insert_entry-Avoids :
    (a : ℕ) (e : Entry) (es : List Entry)
    → e.address ≢ a
    → Avoids a es
    → Avoids a (insert_entry e es)
unfolding insert_entry
insert_entry-Avoids a e [] ne h = (ne, tt)
insert_entry-Avoids a e (x ∷ xs) ne h = ground (arith, insert_entry-Avoids a e xs ne h.1)

by_fee-Avoids : (a n : ℕ) (log : List Stored) → Descends n log → n ≤ a → Avoids a (by_fee log)
unfolding by_fee
by_fee-Avoids a n [] d h = tt
by_fee-Avoids a n (r ∷ rs) d h =
    insert_entry-Avoids a (entry r) (by_fee rs) (omega arith)
      (by_fee-Avoids a r.address rs d.1 (omega arith))

-- Taking a stored transaction out of the list takes its entry out of the multimap.
pub erase_entry-by_fee :
    (a n : ℕ) (r : Stored) (log : List Stored)
    → Descends n log
    → stored_at a log ≡ some r
    → erase_entry a (by_fee log) ≡ by_fee (without a log)
unfolding by_fee without stored_at
erase_entry-by_fee a n r [] d e = cc
erase_entry-by_fee a n r (s ∷ rs) d e = elim (Bool-cases (s.address == a)) [
  | inl same ↦
      ground
        (arith, erase_entry-insert_self (entry s) (by_fee rs), by_fee-Avoids s.address s.address rs)
  | inr other ↦
      let ih = erase_entry-by_fee a s.address r rs d.1 (ground arith) in
      ground (arith, ih, erase_entry-insert_entry a 0 (entry s) (by_fee rs) (by_fee-FeesAscend rs))
]

pub item_in-in_bucket :
    (a : ℕ) (r : Stored) (log : List Stored)
    → stored_at a log ≡ some r
    → item_in a (in_bucket r.index log) ≡ some (item r)
unfolding in_bucket stored_at item_in
item_in-in_bucket a r [] e = cc
item_in-in_bucket a r (s ∷ rs) e = ground (arith, item_in-in_bucket a r rs)

pub erase_item-in_bucket :
    (a : ℕ) (r : Stored) (log : List Stored)
    → stored_at a log ≡ some r
    → erase_item a (in_bucket r.index log) ≡ in_bucket r.index (without a log)
unfolding in_bucket stored_at erase_item without
erase_item-in_bucket a r [] e = cc
erase_item-in_bucket a r (s ∷ rs) e = ground (arith, erase_item-in_bucket a r rs)

pub in_bucket-without :
    (a j : ℕ) (r : Stored) (log : List Stored)
    → stored_at a log ≡ some r
    → r.index ≢ j
    → in_bucket j (without a log) ≡ in_bucket j log
unfolding in_bucket stored_at without
in_bucket-without a j r [] e ne = cc
in_bucket-without a j r (s ∷ rs) e ne = ground (arith, in_bucket-without a j r rs)

pub length-without :
    (a : ℕ) (r : Stored) (log : List Stored)
    → stored_at a log ≡ some r
    → suc (length (without a log)) ≡ length log
unfolding stored_at without
length-without a r [] e = cc
length-without a r (s ∷ rs) e = ground (arith, length-without a r rs)

pub Descends-mono : (m n : ℕ) (log : List Stored) → m ≤ n → Descends m log → Descends n log
Descends-mono m n [] h d = tt
Descends-mono m n (r ∷ rs) h d = (omega arith, d.1)

pub without-Descends : (a n : ℕ) (log : List Stored) → Descends n log → Descends n (without a log)
unfolding without
without-Descends a n [] d = tt
without-Descends a n (r ∷ rs) d = elim (Bool-cases (r.address == a)) [
  | inl e ↦ rw e (Descends-mono r.address n rs (omega arith) d.1)
  | inr e ↦ rw e (d.0, without-Descends a r.address rs d.1)
]

pub without-All {κ} :
    (P : Stored → Type κ) (a : ℕ) (log : List Stored) → All P log → All P (without a log)
unfolding without
without-All P a [] h = tt
without-All P a (r ∷ rs) h = elim (Bool-cases (r.address == a)) [
  | inl e ↦ rw e h.1
  | inr e ↦ rw e (h.0, without-All P a rs h.1)
]

pub stored_at-All {κ} :
    (P : Stored → Type κ) (a : ℕ) (r : Stored) (log : List Stored)
    → All P log
    → stored_at a log ≡ some r
    → P r
unfolding stored_at
stored_at-All P a r [] h e = cc
stored_at-All P a r (s ∷ rs) h e = elim (Bool-cases (s.address == a)) [
  | inl same ↦ subst P (ground arith) h.0
  | inr other ↦ stored_at-All P a r rs h.1 (ground arith)
]

pub stored_at-address :
    (a : ℕ) (r : Stored) (log : List Stored) → stored_at a log ≡ some r → r.address ≡ a
unfolding stored_at
stored_at-address a r [] e = cc
stored_at-address a r (s ∷ rs) e = ground (arith, stored_at-address a r rs)

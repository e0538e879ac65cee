-- ===== src/Mempool.antt =====
-- The hash table of mempool.h and mempool.cc. A list node and a node of the multimap have an
-- address each, numbered in the order of insertion from 1: an iterator is the address that it points to,
-- and the end of a list is 0. `key` holds a reference that nothing reads, and is left out.
-- `hash miner tx` is std::hash of the text "miner.tx", `draw n gen` a std::uniform_int_distribution
-- over 0 to n, with the generator after it.
pub mod Random
pub mod Contents
pub mod Updates
pub mod Lowest
pub mod Highest
pub mod Lookup
pub mod Tests
use ghostdagsim.Common.{
  ℕ, suc, zero, ◌+◌, ◌-◌, ◌*◌, ◌/◌, ◌%◌, ◌^◌, Bool, true, false, not, ◌&&◌, List, [], ◌∷◌, ◌++◌,
  Option, none, some, length, get_or, set, replicate, if◌then◌else◌, ltb, leb, ◌==◌, map,
}

pub record HtabItem : Type 0 where
  pub address : ℕ
  pub tx_id : ℕ
  pub fee : ℕ
  pub multimap_iterator : ℕ

pub record HtabIterator : Type 0 where
  pub iterator : ℕ
  pub index : ℕ

-- A node of `multimapItems`: the key `fee`, and where the item is.
pub record Entry : Type 0 where
  pub address : ℕ
  pub fee : ℕ
  pub item : HtabIterator

pub record Mempool : Type 0 where
  pub htab_items : List (List HtabItem)
  pub multimap_items : List Entry
  pub item_count : ℕ
  pub arr_size : ℕ
  pub next : ℕ

abbrev pub size_max : ℕ
size_max = 2 ^ 64 - 1

abbrev pub is_valid : HtabIterator → Bool
is_valid it = not (it.index == size_max)

abbrev pub end : HtabIterator
end = record { iterator = 0; index = size_max }

unfoldable pub new : ℕ → Mempool
new n = record {
  htab_items = replicate n [];
  multimap_items = [];
  item_count = 0;
  arr_size = n;
  next = 1;
}

abbrev pub bucket : Mempool → ℕ → List HtabItem
bucket m i = get_or m.htab_items i []

abbrev pub size : Mempool → ℕ
size m = m.item_count

abbrev pub bucket_count : Mempool → ℕ
bucket_count m = m.arr_size

-- The first item of the first bucket that has one; the buckets from `i` on.
pub begin_from : ℕ → List (List HtabItem) → HtabIterator
begin_from i [] = end
begin_from i ([] ∷ buckets) = begin_from (i + 1) buckets
begin_from i ((t ∷ ts) ∷ buckets) = record { iterator = t.address; index = i }

pub begin : Mempool → HtabIterator
unfolding begin_from
begin m = begin_from 0 m.htab_items

-- The loop of `find` over one bucket.
pub find_in : ℕ → List HtabItem → Option ℕ
find_in tx_id [] = none
find_in tx_id (t ∷ ts) =
    let rest = find_in tx_id ts in if t.tx_id == tx_id then some t.address else rest

-- The node at an address.
pub item_in : ℕ → List HtabItem → Option HtabItem
item_in address [] = none
item_in address (t ∷ ts) =
    let rest = item_in address ts in if t.address == address then some t else rest

-- `it.iterator->`
abbrev pub item_at : Mempool → HtabIterator → Option HtabItem
item_at m it = item_in it.iterator (bucket m it.index)

-- `multimap::insert`: behind the entries with the same key.
pub insert_entry : Entry → List Entry → List Entry
insert_entry e [] = e ∷ []
insert_entry e (x ∷ xs) = if ltb e.fee x.fee then e ∷ x ∷ xs else x ∷ insert_entry e xs

pub erase_entry : ℕ → List Entry → List Entry
erase_entry address [] = []
erase_entry address (x ∷ xs) =
    let rest = erase_entry address xs in if x.address == address then xs else x ∷ rest

pub erase_item : ℕ → List HtabItem → List HtabItem
erase_item address [] = []
erase_item address (t ∷ ts) =
    let rest = erase_item address ts in if t.address == address then ts else t ∷ rest

-- `itemCount--` of a size_t
abbrev pub one_less : ℕ → ℕ
one_less n = (n + size_max) % 2 ^ 64

-- `htabItems[i].erase(...)` with the entry of the multimap taken out
pub remove : Mempool → ℕ → HtabIterator → Mempool
unfolding erase_entry erase_item
remove m entry it = record m {
  htab_items = set m.htab_items it.index (erase_item it.iterator (bucket m it.index));
  multimap_items = erase_entry entry m.multimap_items;
  item_count = one_less m.item_count;
}

abbrev pub entry_of : Option HtabItem → ℕ
entry_of none = 0
entry_of (some t) = t.multimap_iterator

unfoldable pub erase_transaction : Mempool → HtabIterator → Mempool
unfolding remove item_in
erase_transaction m it = if not (is_valid it) then m else remove m (entry_of (item_at m it)) it

-- The loop over the multimap from its begin; `rounds` is `size - i`.
pub erase_first : ℕ → List Entry → Mempool → Mempool
unfolding remove
erase_first zero entries m = m
erase_first (suc rounds) [] m = m
erase_first (suc rounds) (e ∷ entries) m = erase_first rounds entries (remove m e.address e.item)

unfoldable pub erase_transactions_ascending : Mempool → ℕ → Mempool
unfolding erase_first
erase_transactions_ascending m size = erase_first size m.multimap_items m

-- `*multimapItems.rbegin()`, of a multimap that is not empty
pub last_entry : HtabIterator → List Entry → HtabIterator
last_entry it [] = it
last_entry it (e ∷ entries) = last_entry e.item entries

pub get_sorted_transaction_descending : Mempool → HtabIterator
unfolding last_entry
get_sorted_transaction_descending m = last_entry end m.multimap_items

pub clear : Mempool → Mempool
clear m = record m { htab_items = map (λ _. []) m.htab_items; multimap_items = []; item_count = 0 }

pub entries_of : List (List HtabItem) → List (ℕ × ℕ)
entries_of [] = []
entries_of (b ∷ bs) = map (λ t. (t.tx_id / 2 ^ 32 % 2 ^ 32, t.tx_id)) b ++ entries_of bs

pub get_all_entries : Mempool → List (ℕ × ℕ)
unfolding entries_of
get_all_entries m = entries_of m.htab_items

module _ (hash : ℕ → ℕ → ℕ) where
  unfoldable pub find : Mempool → ℕ → ℕ → HtabIterator
  unfolding find_in
  find m miner_id tx_id =
      let index : ℕ = hash miner_id tx_id % m.arr_size in
      elim (find_in tx_id (bucket m index)) [
        | none ↦ end
        | some address ↦ record { iterator = address; index = index }
      ]

  -- A node of the multimap keeps 32 bits of the index, and there is no test for room.
  unfoldable pub insert : Mempool → ℕ → ℕ → ℕ → Mempool × HtabIterator
  unfolding insert_entry
  insert m miner_id tx_id fee =
      let index : ℕ = hash miner_id tx_id % m.arr_size in
      let it : HtabIterator = record { iterator = m.next; index = index } in
      let stored : HtabIterator = record { iterator = m.next; index = index % 2 ^ 32 } in
      let item : HtabItem = record {
        address = m.next;
        tx_id = tx_id;
        fee = fee;
        multimap_iterator = m.next;
      } in
      (
        record m {
          htab_items = set m.htab_items index (item ∷ bucket m index);
          multimap_items =
              insert_entry (record { address = m.next; fee = fee; item = stored }) m.multimap_items;
          item_count = (m.item_count + 1) % 2 ^ 64;
          next = m.next + 1;
        },
        it,
      )

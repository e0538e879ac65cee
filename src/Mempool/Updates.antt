-- ===== src/Mempool/Updates.antt =====
-- Every operation of the mempool keeps its buckets, its multimap and its counter in step.
use ghostdagsim.Common.{
  ℕ, ◌+◌, ◌-◌, ◌<◌, ◌^◌, ◌%◌, ◌≡◌, refl, ap, sym, ◌∙◌, false, List, [], ◌∷◌, some, length, get_or,
  set, get_or-set_self, get_or-set_ne, get_or-replicate, length-set, length-replicate, arith, ◌==◌,
  Bool-cases, eq_of_==, inl, inr,
}
use native.Mathlib.Nat.{mod-lt}
use ghostdagsim.Mempool.{
  HtabItem, Mempool, bucket, insert_entry, erase_entry, erase_item, item_in, new, insert, remove,
  erase_transaction,
}
use ghostdagsim.Mempool.Contents.{
  Stored, Holds, item, handle, entry, in_bucket, by_fee, without, stored_at, erase_entry-by_fee,
  item_in-in_bucket, erase_item-in_bucket, in_bucket-without, length-without, without-Descends,
  without-All, stored_at-All,
}

-- A new mempool holds nothing.
pub new-Holds : (n : ℕ) → 0 < n → n < 2 ^ 32 → Holds (new n) []
unfolding new in_bucket by_fee
new-Holds n pos h = record {
  buckets = λ i. get_or-replicate n i [];
  entries = refl;
  count = refl;
  room = omega arith;
  width = length-replicate n [];
  size = (pos, h);
  newest_first = tt;
  placed = tt;
}

module _ (m : Mempool) (log : List Stored) (h : Holds m log) where
  abbrev stored : ℕ → ℕ → ℕ → Stored
  stored index tx_id fee = record { address = m.next; tx_id = tx_id; fee = fee; index = index }

  -- In a mempool that holds `log`, with a counter that can count one more item, an insertion leaves a
  -- mempool that holds the new transaction in front of `log`.
  pub insert-Holds :
      (hash : ℕ → ℕ → ℕ) (miner_id tx_id fee : ℕ)
      → length log + 1 < 2 ^ 64
      → Holds
          (insert hash m miner_id tx_id fee).0
          (stored (hash miner_id tx_id % m.arr_size) tx_id fee ∷ log)
  unfolding insert in_bucket by_fee
  insert-Holds hash miner_id tx_id fee room =
      let index : ℕ = hash miner_id tx_id % m.arr_size in
      let lt : index < m.arr_size = mod-lt (hash miner_id tx_id) h.size.0 in
      let whole : index % 2 ^ 32 ≡ index = omega (arith, lt, h.size.1) in
      let new_bucket : List HtabItem = item (stored index tx_id fee) ∷ bucket m index in
      record {
        buckets = λ i. elim (Bool-cases (index == i)) [
          | inl e ↦ ground (
            arith,
            h.buckets index,
            h.width,
            eq_of_== index i e,
            get_or-set_self m.htab_items index new_bucket [],
            ap (λ j. get_or (set m.htab_items index new_bucket) j []) (eq_of_== index i e),
            ap (λ j. in_bucket j log) (eq_of_== index i e),
          )
          | inr e ↦ ground (arith, h.buckets i, get_or-set_ne m.htab_items index i new_bucket [])
        ];
        entries =
            ap
              (λ i.
                insert_entry
                  (record {
                    address = m.next;
                    fee = fee;
                    item = record { iterator = m.next; index = i };
                  })
                  m.multimap_items)
              whole
            ∙ ap (insert_entry (entry (stored index tx_id fee))) h.entries;
        count = omega (arith, h.count);
        room = omega arith;
        width = length-set m.htab_items index new_bucket ∙ h.width;
        size = h.size;
        newest_first = (omega arith, h.newest_first);
        placed = (lt, h.placed);
      }

  module _ (r : Stored) (there : stored_at r.address log ≡ some r) where
    pub placed_r : r.index < m.arr_size
    placed_r = stored_at-All (λ s. s.index < m.arr_size) r.address r log h.placed there

    pub remove-Holds : Holds (remove m r.address (handle r)) (without r.address log)
    unfolding remove
    remove-Holds =
        let fewer = length-without r.address r log there in
        let left : List HtabItem = erase_item r.address (bucket m r.index) in
        record {
          buckets = λ i. elim (Bool-cases (r.index == i)) [
            | inl e ↦
                ap (λ j. get_or (set m.htab_items r.index left) j []) (sym (eq_of_== r.index i e))
                ∙ get_or-set_self m.htab_items r.index left [] (omega (arith, placed_r, h.width))
                ∙ ap (erase_item r.address) (h.buckets r.index)
                ∙ erase_item-in_bucket r.address r log there
                ∙ ap (λ j. in_bucket j (without r.address log)) (eq_of_== r.index i e)
            | inr e ↦
                get_or-set_ne m.htab_items r.index i left [] (ground arith)
                ∙ h.buckets i
                ∙ sym (in_bucket-without r.address i r log there (ground arith))
          ];
          entries =
              ap (erase_entry r.address) h.entries
              ∙ erase_entry-by_fee r.address m.next r log h.newest_first there;
          count = omega (arith, h.count, h.room);
          room = omega (arith, h.room);
          width = length-set m.htab_items r.index left ∙ h.width;
          size = h.size;
          newest_first = without-Descends r.address m.next log h.newest_first;
          placed = without-All (λ s. s.index < m.arr_size) r.address log h.placed;
        }

    pub item_at-handle : item_in r.address (bucket m r.index) ≡ some (item r)
    item_at-handle =
        ap (item_in r.address) (h.buckets r.index) ∙ item_in-in_bucket r.address r log there

    -- In a mempool that holds `log`, erasing the iterator of a stored transaction leaves a mempool
    -- that holds all the others.
    pub erase_transaction-Holds : Holds (erase_transaction m (handle r)) (without r.address log)
    unfolding erase_transaction
    erase_transaction-Holds =
        let at = item_at-handle in
        let valid : (r.index == 2 ^ 64 - 1) ≡ false = ground (arith, placed_r, h.size.1) in
        rw (valid, at) remove-Holds

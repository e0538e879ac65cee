-- ===== src/Mempool/Lookup.antt =====
-- What `find` answers after an insertion, and on a new or cleared mempool.
use ghostdagsim.Common.{
  ℕ, ◌%◌, ◌<◌, ◌≡◌, ap, ◌&&◌, List, [], ◌∷◌, if◌then◌else◌, get_or, set, get_or-set_self,
  get_or-set_ne, arith, ◌==◌, Bool-cases, eq_of_==, inl, inr,
}
use native.Mathlib.Nat.{mod-lt}
use ghostdagsim.Mempool.{HtabItem, Mempool, bucket, find, find_in, insert}
use ghostdagsim.Mempool.Contents.{Stored, Holds}

-- In a mempool that holds `log`: after an insertion `find` gives the new item for its id in its
-- bucket, and for everything else what it gave before.
pub find-insert :
    (hash : ℕ → ℕ → ℕ) (m : Mempool) (log : List Stored) (miner_id tx_id fee other id : ℕ)
    → Holds m log
    → find hash (insert hash m miner_id tx_id fee).0 other id ≡ (
        if (hash other id % m.arr_size == hash miner_id tx_id % m.arr_size) && (id == tx_id)
        then (insert hash m miner_id tx_id fee).1
        else find hash m other id)
unfolding find insert find_in
find-insert hash m log miner_id tx_id fee other id h =
    let i : ℕ = hash miner_id tx_id % m.arr_size in
    let j : ℕ = hash other id % m.arr_size in
    let lt : i < m.arr_size = mod-lt (hash miner_id tx_id) h.size.0 in
    let items : List HtabItem =
      record { address = m.next; tx_id = tx_id; fee = fee; multimap_iterator = m.next }
      ∷ bucket m i in
    elim (Bool-cases (j == i)) [
      | inl same ↦ ground (
        arith,
        h.width,
        get_or-set_self m.htab_items i items [],
        ap (λ k. get_or (set m.htab_items i items) k []) (eq_of_== j i same),
        ap (λ k. bucket m k) (eq_of_== j i same),
      )
      | inr different ↦ ground (arith, get_or-set_ne m.htab_items i j items [])
    ]

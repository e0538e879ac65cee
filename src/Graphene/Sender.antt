-- ===== src/Graphene/Sender.antt =====
-- The sender's side of protocol 1 and of protocol 2.
use ghostdagsim.Common.{
  ℕ, ◌+◌, ◌-◌, max, List, [], ◌∷◌, ◌++◌, Option, none, some, length, ltb, leb, if◌then◌else◌, foldl,
}
use ghostdagsim.Block.{TxSet, tx_ids}
use ghostdagsim.Graphene.Numbers.{Numbers}
use ghostdagsim.Graphene.Filters.{Filters}
use ghostdagsim.Graphene.Hex.{u64_to_vec}
use ghostdagsim.Graphene.Sizing.{
  optimal_sym_diff, cb_bound, filter_fpr_max, iblt_cell_size, iblt_cell_minimum,
}

abbrev pub graphene_max_guaranteed_missing : ℕ
graphene_max_guaranteed_missing = 16

-- BuildIBLTFromIds, and the same loops elsewhere.
abbrev pub insert_ids : {B I : Type 0} → Filters B I → List ℕ → I → I
insert_ids f ids i = foldl (λ j id. f.insert id (u64_to_vec id) j) i ids

abbrev pub bloom_insert_ids : {B I : Type 0} → Filters B I → List ℕ → B → B
bloom_insert_ids f ids bf = foldl (λ c id. f.bloom_insert id c) bf ids

module _ {B I : Type 0} (d : Numbers) (f : Filters B I) where
  -- `optSymDiff`, a whole number in a double.
  unfoldable pub sym_diff : ℕ → ℕ → ℕ
  unfolding optimal_sym_diff
  sym_diff n m =
      if ltb n m then elim (optimal_sym_diff d f n m) [ none ↦ 1 | some a ↦ a ] else max (n - m) 1

  -- `fpr`
  unfoldable pub sender_fpr : ℕ → ℕ → ℕ
  unfolding sym_diff
  sender_fpr n m =
      let opt : ℕ = sym_diff n m in
      let others : ℕ = if ltb n m then m - n else max m 1 in
      if leb others opt then filter_fpr_max d f else d.div (d.of_nat opt) (d.of_nat others)

  -- The filters and the rate; `none` if the receiver misses too many transactions.
  unfoldable pub build_sender_components : TxSet → ℕ → Option (B × I × ℕ)
  unfolding sym_diff sender_fpr
  build_sender_components block_txs m =
      let n : ℕ = length block_txs in
      let fpr : ℕ = sender_fpr n m in
      let cells : ℕ =
        max iblt_cell_minimum (d.truncate (d.ceil (cb_bound d f (d.of_nat (sym_diff n m))))) in
      if ltb graphene_max_guaranteed_missing (n - m)
      then none
      else some (
        bloom_insert_ids f (tx_ids block_txs) (f.bloom (max n 10) fpr),
        insert_ids f (tx_ids block_txs)
            (f.iblt cells iblt_cell_size (f.overhead cells) (f.numhashes cells)),
        fpr,
      )

  -- SecondIBLT, with the ids that the receiver's filter does not hold.
  unfoldable pub second_iblt : TxSet → B → ℕ → ℕ → I × List ℕ
  second_iblt txs receiver_bloom y_star b =
      let cells : ℕ = b + y_star in
      foldl
        (λ (s : I × List ℕ) tx. (
          f.insert tx.tx_id (u64_to_vec tx.tx_id) s.0,
          if f.contains receiver_bloom tx.tx_id then s.1 else s.1 ++ tx.tx_id ∷ [],
        ))
        (f.iblt cells iblt_cell_size (f.overhead cells) (f.numhashes cells), []) txs

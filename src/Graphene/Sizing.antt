-- ===== src/Graphene/Sizing.antt =====
-- How large the filters of a message are: the parameter helpers of graphene.cc.
pub mod Optimal
use ghostdagsim.Common.{
  ℕ, zero, suc, ◌+◌, ◌-◌, ◌*◌, ◌%◌, ◌^◌, min, max, Bool, true, false, ◌||◌, Option, none, some, ltb,
  leb, ◌==◌, if◌then◌else◌,
}
use ghostdagsim.Graphene.Numbers.{Numbers}
use ghostdagsim.Graphene.Filters.{Filters}

abbrev pub large_mem_pool_size : ℕ
large_mem_pool_size = 10000000

abbrev pub iblt_cell_size : ℕ
iblt_cell_size = 12

abbrev pub iblt_cell_minimum : ℕ
iblt_cell_minimum = 2

-- The loop that keeps the first value of the least cost: from `a` on, for `rounds` values.
unfoldable pub least : (ℕ → ℕ → Bool) → (ℕ → ℕ) → ℕ → ℕ → ℕ → ℕ → ℕ
least less cost zero a best best_cost = best
least less cost (suc rounds) a best best_cost = elim (less (cost a) best_cost) [
  | true ↦ least less cost rounds (a + 1) a (cost a)
  | false ↦ least less cost rounds (a + 1) best best_cost
]

module _ {B I : Type 0} (d : Numbers) (f : Filters B I) where
  -- `FILTER_FPR_MAX`, a float
  abbrev pub filter_fpr_max : ℕ
  filter_fpr_max = d.to_float (d.decimal 999 3)

  abbrev pub ln2squared : ℕ
  ln2squared = d.decimal 4804530139182014246671025263266649717305529515945455 52

  -- `1.0 / 240.0`
  abbrev pub bound : ℕ
  bound = d.div (d.of_nat 1) (d.of_nat 240)

  -- The differences of ints are differences of the doubles, which hold them exactly.
  unfoldable pub compute_delta : ℕ → ℕ → ℕ → ℕ → ℕ
  compute_delta z x m fpr =
      d.sub (d.div (d.sub (d.of_nat z) (d.of_nat x)) (d.mul (d.sub (d.of_nat m) (d.of_nat x)) fpr))
        (d.of_nat 1)

  unfoldable pub rhs : ℕ → ℕ → ℕ → ℕ → ℕ
  rhs delta m x fpr =
      let one : ℕ = d.of_nat 1 in
      d.pow (d.div (d.exp delta) (d.pow (d.add one delta) (d.add one delta)))
        (d.mul (d.sub (d.of_nat m) (d.of_nat x)) fpr)

  -- The loop of SearchX from `x` on, for `rounds` values.
  pub search_from : ℕ → ℕ → ℕ → ℕ → ℕ → ℕ → ℕ
  unfolding compute_delta rhs
  search_from zero x total z m fpr = 0
  search_from (suc rounds) x total z m fpr =
      let result : ℕ = rhs (compute_delta z x m fpr) m x fpr in
      elim (d.less bound (d.add total result)) [
        | true ↦ if x == 0 then x else x - 1
        | false ↦ search_from rounds (x + 1) (d.add total result) z m fpr
      ]

  unfoldable pub search_x : ℕ → ℕ → ℕ → ℕ → ℕ
  unfolding search_from
  search_x z mempool_size fpr blk_size =
      search_from (min z blk_size + 1) 0 (d.of_nat 0) z mempool_size fpr

  unfoldable pub cb_bound : ℕ → ℕ
  cb_bound a =
      let s : ℕ = d.div (d.mul (d.neg (d.of_nat 1)) (d.log bound)) a in
      let temp : ℕ = d.sqrt (d.mul s (d.add s (d.of_nat 8))) in
      let delta_1 : ℕ = d.mul (d.decimal 5 1) (d.add s temp) in
      if d.at_most a (d.of_nat 0) then d.of_nat 1 else d.mul (d.add (d.of_nat 1) delta_1) a

  -- The bytes of an IBLT for so many entries: `L`, and the same lines of BuildRecoveryBloom.
  unfoldable pub iblt_bytes : ℕ → ℕ
  iblt_bytes a =
      let n : ℕ = f.numhashes a % 256 in
      let padded_cells : ℕ =
        d.truncate (d.to_float (d.mul (f.overhead a) (d.to_float (d.of_nat a)))) in
      let cells : ℕ =
        n
        * d.truncate (
            d.ceil (
              d.to_float (d.div (d.to_float (d.of_nat padded_cells)) (d.to_float (d.of_nat n))))) in
      iblt_cell_size * cells

  -- The false positive rate `fpr(a)` for so many items that the receiver has and the block has not.
  unfoldable pub fpr_of : ℕ → ℕ → ℕ
  fpr_of excess a =
      let fpr : ℕ = d.to_float (d.div (d.to_float (d.of_nat a)) (d.to_float (d.of_nat excess))) in
      if d.less fpr (d.of_nat 1) then fpr else filter_fpr_max

  -- `F(a)`
  unfoldable pub filter_bytes : ℕ → ℕ → ℕ → ℕ
  unfolding fpr_of
  filter_bytes n excess a = d.floor (
      d.div
        (d.mul (d.mul (d.div (d.neg (d.of_nat 1)) ln2squared) (d.of_nat n))
          (d.log (fpr_of excess a)))
        (d.of_nat 8))

  -- `F(a) + L(a)`
  unfoldable pub total_bytes : ℕ → ℕ → ℕ → ℕ
  unfolding filter_bytes iblt_bytes
  total_bytes n excess a = d.add (filter_bytes n excess a) (d.of_nat (iblt_bytes a))

  -- `none` is an exception. `nBlockTxs - 1` of an empty block is the largest uint64_t.
  unfoldable pub optimal_sym_diff : ℕ → ℕ → Option ℕ
  unfolding least total_bytes
  optimal_sym_diff n_block_txs n_receiver_pool_tx =
      let shared : ℕ = (n_block_txs + (2 ^ 64 - 1)) % 2 ^ 64 in
      let excess : ℕ = n_receiver_pool_tx - shared in
      if leb n_receiver_pool_tx shared || ltb large_mem_pool_size n_receiver_pool_tx
      then none
      else (if n_receiver_pool_tx == shared
          then some 1
          else some (
              least d.less (total_bytes n_block_txs excess) (n_receiver_pool_tx - 1) 1 1
                d.max_value))

-- ===== src/Graphene/Sizing/Optimal.antt =====
-- What OptimalSymDiff of graphene.cc chooses.
use ghostdagsim.Common.{
  ℕ, zero, suc, ◌+◌, ◌-◌, ◌^◌, ◌%◌, ◌≤◌, ◌<◌, ◌≡◌, refl, sym, ◌∙◌, Bool, true, false, arith,
  Bool-cases, inl, inr, ◌||◌, some, leb, ltb, ◌==◌, false≢true, subst,
}
use ghostdagsim.Graphene.Numbers.{Numbers}
use ghostdagsim.Graphene.Filters.{Filters}
use ghostdagsim.Graphene.Sizing.{large_mem_pool_size, least, total_bytes, optimal_sym_diff}

-- The costs of the values from `first` to `last - 1` are weakly ordered: none of them is a NaN.
pub record IsCostOrder (less : ℕ → ℕ → Bool) (cost : ℕ → ℕ) (first last : ℕ) : Type 0 where
  pub irreflexive : (a : ℕ) → first ≤ a → a < last → less (cost a) (cost a) ≡ false
  pub trans :
      (a b c : ℕ)
      → (first ≤ a) × (a < last)
      → (first ≤ b) × (b < last)
      → (first ≤ c) × (c < last)
      → less (cost a) (cost b) ≡ true
      → less (cost b) (cost c) ≡ true
      → less (cost a) (cost c) ≡ true
  pub weak :
      (a b c : ℕ)
      → (first ≤ a) × (a < last)
      → (first ≤ b) × (b < last)
      → (first ≤ c) × (c < last)
      → less (cost a) (cost b) ≡ false
      → less (cost b) (cost c) ≡ false
      → less (cost a) (cost c) ≡ false

-- `r` is the first value of the least cost from `first` to `last - 1`.
pub record IsFirstLeast (less : ℕ → ℕ → Bool) (cost : ℕ → ℕ) (first last r : ℕ) : Type 0 where
  pub inside : (first ≤ r) × (r < last)
  pub minimal : (a : ℕ) → first ≤ a → a < last → less (cost a) (cost r) ≡ false
  pub earliest : (a : ℕ) → first ≤ a → a < r → less (cost r) (cost a) ≡ true

module _ (less : ℕ → ℕ → Bool) (cost : ℕ → ℕ) (first last : ℕ)
    (order : IsCostOrder less cost first last) where
  -- One more value, by whether it costs less.
  replaced :
      (a best : ℕ)
      → a < last
      → IsFirstLeast less cost first a best
      → less (cost a) (cost best) ≡ true
      → IsFirstLeast less cost first (a + 1) a
  replaced a best below h e = record {
    inside = (omega (arith, h.inside), omega arith);
    minimal = λ b from to. ground (
      arith,
      order.irreflexive b,
      order.trans b a best (from, omega arith) (omega (arith, h.inside), below)
          (h.inside.0, omega (arith, h.inside)),
      h.minimal b,
    );
    earliest = λ b from to. elim (Bool-cases (less (cost a) (cost b))) [
      | inl less_b ↦ less_b
      | inr not_less ↦ absurd (
          false≢true (
            sym (
              order.weak a b best (omega (arith, h.inside), below) (from, omega arith)
                (h.inside.0, omega (arith, h.inside)) not_less (h.minimal b from to))
            ∙ e))
    ];
  }

  kept :
      (a best : ℕ)
      → IsFirstLeast less cost first a best
      → less (cost a) (cost best) ≡ false
      → IsFirstLeast less cost first (a + 1) best
  kept a best h e = record {
    inside = (h.inside.0, omega (arith, h.inside));
    minimal = λ b from to. ground (arith, h.minimal b);
    earliest = h.earliest;
  }

  least-IsFirstLeast :
      (rounds a best : ℕ)
      → a + rounds ≡ last
      → IsFirstLeast less cost first a best
      → IsFirstLeast less cost first last (least less cost rounds a best (cost best))
  unfolding least
  least-IsFirstLeast zero a best e h =
      subst (λ n. IsFirstLeast less cost first n best) (omega arith) h
  least-IsFirstLeast (suc rounds) a best e h = elim (Bool-cases (less (cost a) (cost best))) [
    | inl b ↦
        rw (least, b)
          (least-IsFirstLeast rounds (a + 1) a (omega arith) (replaced a best (omega arith) h b))
    | inr b ↦ rw (least, b) (least-IsFirstLeast rounds (a + 1) best (omega arith) (kept a best h b))
  ]

  -- The loop as it starts: no best cost so far but one that the first value is below.
  least-from_first :
      (top : ℕ)
      → first < last
      → less (cost first) top ≡ true
      → IsFirstLeast less cost first last (least less cost (last - first) first first top)
  unfolding least
  least-from_first top some_value below =
      let rounds : suc (last - first - 1) ≡ last - first = omega arith in
      subst (λ n. IsFirstLeast less cost first last (least less cost n first first top)) rounds
        (begun (last - first - 1) (omega arith))
    where
      begun :
          (n : ℕ)
          → first + 1 + n ≡ last
          → IsFirstLeast less cost first last (least less cost (suc n) first first top)
      begun n e =
          rw (least, below)
            (least-IsFirstLeast n (first + 1) first e (record {
              inside = (omega arith, omega arith);
              minimal = λ b from to. ground (arith, order.irreflexive b);
              earliest = λ b from to. absurd (omega arith);
            }))

module _ {B I : Type 0} (d : Numbers) (f : Filters B I) where
  -- A block with at least one transaction, below 2^64 of them, for a receiver whose mempool has more
  -- transactions than all but one of the block's, and at most the largest size, and is not empty
  -- otherwise; costs that are ordered, the first of which is below the largest double:
  -- OptimalSymDiff returns the first size of the symmetric difference, from 1 to the size of the
  -- mempool less 1, at which the filter and the table together are smallest.
  pub optimal_sym_diff-IsFirstLeast :
      (n_block_txs n_receiver_pool_tx : ℕ)
      → 0 < n_block_txs
      → n_block_txs ≤ 2 ^ 64
      → n_block_txs ≤ n_receiver_pool_tx
      → 1 < n_receiver_pool_tx
      → n_receiver_pool_tx ≤ large_mem_pool_size
      → IsCostOrder d.less
          (total_bytes d f n_block_txs (n_receiver_pool_tx - (n_block_txs - 1)))
          1
          n_receiver_pool_tx
      → d.less (total_bytes d f n_block_txs (n_receiver_pool_tx - (n_block_txs - 1)) 1) d.max_value
        ≡ true
      → (a : ℕ) × (optimal_sym_diff d f n_block_txs n_receiver_pool_tx ≡ some a)
        × IsFirstLeast d.less
            (total_bytes d f n_block_txs (n_receiver_pool_tx - (n_block_txs - 1)))
            1
            n_receiver_pool_tx
            a
  unfolding optimal_sym_diff
  optimal_sym_diff-IsFirstLeast n p pos fits more two small order below =
      let shared : (n + (2 ^ 64 - 1)) % 2 ^ 64 ≡ n - 1 = omega arith in
      let cost : ℕ → ℕ = total_bytes d f n (p - (n - 1)) in
      let in_range : (leb p (n - 1) || ltb large_mem_pool_size p) ≡ false = ground arith in
      let differ : (p == n - 1) ≡ false = ground arith in
      (
        least d.less cost (p - 1) 1 1 d.max_value,
        rw (shared, in_range, differ) refl,
        least-from_first d.less cost 1 p order d.max_value two below,
      )

-- ===== src/Mempool/Random.antt =====
-- getRandomTransaction and eraseRandomTransactions: a walk over the buckets from a random one, down
-- and up in turn. The generator is passed by value: the caller's one stays as it was.
pub mod Walk
use ghostdagsim.Common.{
  ℕ, suc, zero, ◌+◌, ◌-◌, ◌/◌, ◌%◌, ◌^◌, Bool, not, List, [], ◌∷◌, Option, none, some, length,
  get_or, if◌then◌else◌, ltb, ◌==◌,
}
use ghostdagsim.Mempool.{HtabItem, HtabIterator, Mempool, bucket, size_max, end, remove, one_less}

abbrev pub is_empty : List HtabItem → Bool
is_empty b = length b == 0

-- The loop: `over` is the test that sends the upper index back to 0.
pub walk : (ℕ → Bool) → (ℕ → Bool) → ℕ → ℕ → ℕ → ℕ → Option ℕ
walk filled over n zero down up = none
walk filled over n (suc rounds) down up =
    let d : ℕ = if down == size_max then one_less n else down in
    let u : ℕ = if over up then 0 else up in
    let rest = walk filled over n rounds (one_less d) (u + 1) in
    if filled d then some d else (if filled u then some u else rest)

-- Where the walk ends that starts at a random bucket.
abbrev pub walk_from : (ℕ → Bool) → Mempool → ℕ → Option ℕ
walk_from over m index =
    walk (λ i. not (is_empty (bucket m i))) over m.arr_size (m.arr_size / 2 + 1) index
      (if index == one_less m.arr_size then 0 else index + 1)

abbrev pub iterator_to : ℕ → Option HtabItem → HtabIterator
iterator_to i none = end
iterator_to i (some t) = record { iterator = t.address; index = i }

module _ (draw : ℕ → ℕ → ℕ × ℕ) where
  -- The only item, or a random one, of a bucket with items.
  abbrev pub choose : List HtabItem → ℕ → Option HtabItem × ℕ
  choose [] gen = (none, gen)
  choose (t ∷ []) gen = (some t, gen)
  choose (t ∷ u ∷ ts) gen =
      let (i, gen') = draw (length ts + 1) gen in (some (get_or (t ∷ u ∷ ts) i t), gen')

  -- What is returned once the walk has ended.
  abbrev pub random_in : Mempool → ℕ → Option ℕ → HtabIterator
  random_in m gen none = end
  random_in m gen (some i) = iterator_to i (choose (bucket m i) gen).0

  unfoldable pub get_random_transaction : Mempool → ℕ → HtabIterator
  unfolding walk
  get_random_transaction m gen =
      let (index, gen') = draw (m.arr_size - 1) gen in
      random_in m gen' (walk_from (λ up. up == m.arr_size) m index)

  -- One round of the outer loop.
  pub erase_random_one : Mempool × ℕ → Mempool × ℕ
  unfolding walk remove
  erase_random_one (m, gen) =
      let (index, gen') = draw (m.arr_size - 1) gen in
      elim (walk_from (λ up. ltb (one_less m.arr_size) up) m index) [
        | none ↦ (m, gen')
        | some i ↦
            let (chosen, gen'') = choose (bucket m i) gen' in
            elim chosen [
              | none ↦ (m, gen'')
              | some t ↦
                  (remove m t.multimap_iterator (record { iterator = t.address; index = i }), gen'')
            ]
      ]

  pub erase_rounds : ℕ → Mempool × ℕ → Mempool × ℕ
  unfolding erase_random_one
  erase_rounds zero s = s
  erase_rounds (suc rounds) s = erase_rounds rounds (erase_random_one s)

  -- `(int)size` is negative from 2^31 on.
  unfoldable pub erase_random_transactions : Mempool → ℕ → ℕ → Mempool
  unfolding erase_rounds
  erase_random_transactions m gen size =
      (erase_rounds (if ltb size (2 ^ 31) then size else 0) (m, gen)).0

-- ===== src/Mempool/Random/Walk.antt =====
-- The walk over the buckets reaches every bucket, so a random transaction is found if there is one.
use ghostdagsim.Common.{
  eq_of_==, subst, ℕ, zero, suc, ◌+◌, ◌-◌, ◌/◌, ◌^◌, ◌<◌, ◌≤◌, ◌≡◌, ◌≢◌, ◌⊎◌, refl, ap, sym, ◌∙◌,
  Bool, true, not, List, [], ◌∷◌, Option, some, length, get_or, if◌then◌else◌, arith, ltb, leb,
  ◌==◌, Bool-cases, false≢true, inl, inr,
}
use ghostdagsim.Mempool.{HtabItem, Mempool, bucket, size_max, one_less}
use ghostdagsim.Mempool.Random.{
  walk, walk_from, choose, random_in, iterator_to, get_random_transaction, is_empty,
}
use ghostdagsim.Mempool.Contents.{
  Stored, Holds, item, handle, in_bucket, stored_at, stored_at-All, Descends,
}
use ghostdagsim.Mempool.Lowest.{Descends-All}

-- How many steps down from `d`, or up from `u`, bucket `k` is away.
abbrev pub down_to : ℕ → ℕ → ℕ → ℕ
down_to n d k = if leb k d then d - k else d + n - k

abbrev pub up_to : ℕ → ℕ → ℕ → ℕ
up_to n u k = if leb u k then k - u else k + n - u

module _ (filled : ℕ → Bool) (over : ℕ → Bool) (n : ℕ) (pos : 0 < n) (small : n < 2 ^ 64) where
  -- The index that is read for a lower or an upper index of the loop.
  abbrev pub wrap_down : ℕ → ℕ
  wrap_down down = if down == size_max then one_less n else down

  abbrev pub wrap_up : ℕ → ℕ
  wrap_up up = if over up then 0 else up

  abbrev pub Found : Option ℕ → Type 0
  Found o = (i : ℕ) × (o ≡ some i) × (filled i ≡ true) × (i < n)

  next_down : (d : ℕ) → d < n → wrap_down (one_less d) ≡ (if d == 0 then n - 1 else d - 1)
  next_down d h = elim (Bool-cases (d == 0)) [
    | inl e ↦ let z : d ≡ 0 = ground arith in rw z (let p : one_less n ≡ n - 1 = omega arith in p)
    | inr e ↦
        let nz : d ≢ 0 = ground arith in
        let p : one_less d ≡ d - 1 = omega arith in ground (arith, p)
  ]

  nearer_down :
      (d k rounds : ℕ)
      → d < n
      → k < n
      → d ≢ k
      → down_to n d k < suc rounds
      → down_to n (if d == 0 then n - 1 else d - 1) k < rounds
  nearer_down d k rounds hd hk ne h = ground arith

  nearer_up :
      (u k rounds : ℕ)
      → u < n
      → k < n
      → u ≢ k
      → up_to n u k < suc rounds
      → up_to n (if leb n (u + 1) then 0 else u + 1) k < rounds
  nearer_up u k rounds hu hk ne h = ground arith

  pub walk-Found :
      (rounds down up k : ℕ)
      → ((up : ℕ) → up ≤ n → over up ≡ leb n up)
      → k < n
      → filled k ≡ true
      → wrap_down down < n
      → wrap_up up < n
      → (down_to n (wrap_down down) k < rounds) ⊎ (up_to n (wrap_up up) k < rounds)
      → Found (walk filled over n rounds down up)
  unfolding walk
  walk-Found zero down up k o hk f hd hu (inl h) = absurd (omega arith)
  walk-Found zero down up k o hk f hd hu (inr h) = absurd (omega arith)
  walk-Found (suc rounds) down up k o hk f hd hu h = elim (Bool-cases (filled (wrap_down down))) [
    | inl e ↦ (wrap_down down, rw e, e, hd)
    | inr e ↦ elim (Bool-cases (filled (wrap_up up))) [
      | inl e' ↦ (wrap_up up, rw (e, e'), e', hu)
      | inr e' ↦
          let d : ℕ = wrap_down down in
          let u : ℕ = wrap_up up in
          rw (e, e')
            (walk-Found rounds (one_less d) (u + 1) k o hk f (rw (next_down d hd) (ground arith))
              (rw (o (u + 1) (omega arith)) (ground arith))
              (nearer d u h (λ q. false≢true (sym e ∙ ap filled q ∙ f))
                (λ q. false≢true (sym e' ∙ ap filled q ∙ f)) hd hu))
    ]
  ]
    where
      nearer :
          (d u : ℕ)
          → (down_to n d k < suc rounds) ⊎ (up_to n u k < suc rounds)
          → d ≢ k
          → u ≢ k
          → d < n
          → u < n
          → (down_to n (wrap_down (one_less d)) k < rounds) ⊎ (up_to n (wrap_up (u + 1)) k < rounds)
      nearer d u (inl p) ne ne' hd hu =
          inl (rw (next_down d hd) (nearer_down d k rounds hd hk ne p))
      nearer d u (inr p) ne ne' hd hu =
          inr (rw (o (u + 1) (omega arith)) (nearer_up u k rounds hu hk ne' p))

-- Some item of a bucket is chosen.
choose-lt :
    (draw : ℕ → ℕ → ℕ × ℕ) (b : List HtabItem) (gen : ℕ) (d : HtabItem)
    → ((n g : ℕ) → (draw n g).0 ≤ n)
    → 0 < length b
    → (j : ℕ) × (j < length b) × ((choose draw b gen).0 ≡ some (get_or b j d))
choose-lt draw [] gen d fair h = absurd (omega arith)
choose-lt draw (t ∷ []) gen d fair h = (0, omega arith, refl)
choose-lt draw (t ∷ u ∷ ts) gen d fair h =
    let j : ℕ = (draw (length ts + 1) gen).0 in
    let lt : j < length (t ∷ u ∷ ts) = omega (arith, fair (length ts + 1) gen) in
    (j, lt, ap some (get_or_default (t ∷ u ∷ ts) j t d lt))
  where
    get_or_default :
        (xs : List HtabItem) (j : ℕ) (a b : HtabItem)
        → j < length xs
        → get_or xs j a ≡ get_or xs j b
    get_or_default [] j a b lt = absurd (omega arith)
    get_or_default (x ∷ xs) zero a b lt = refl
    get_or_default (x ∷ xs) (suc j) a b lt = get_or_default xs j a b (omega arith)

-- An item is that of a transaction stored in bucket `i`.
abbrev IsStored : ℕ → List Stored → HtabItem → Type 0
IsStored i log t = (r : Stored) × (stored_at r.address log ≡ some r) × (t ≡ item r) × (r.index ≡ i)

IsStored-cons :
    (i n : ℕ) (s : Stored) (rs : List Stored) (t : HtabItem)
    → Descends n (s ∷ rs)
    → IsStored i rs t
    → IsStored i (s ∷ rs) t
unfolding stored_at
IsStored-cons i n s rs t desc (r, found, is, at) =
    let older =
      stored_at-All (λ t. t.address < s.address) r.address r rs (Descends-All s.address rs desc.1)
        found in
    (r, ground arith, is, at)

in_bucket-IsStored :
    (i j n : ℕ) (log : List Stored) (d : HtabItem)
    → Descends n log
    → j < length (in_bucket i log)
    → IsStored i log (get_or (in_bucket i log) j d)
unfolding in_bucket stored_at
in_bucket-IsStored i j n [] d desc h = absurd (omega arith)
in_bucket-IsStored i zero n (s ∷ rs) d desc h = elim (Bool-cases (s.index == i)) [
  | inl e ↦ rw e (s, ground arith, refl, eq_of_== s.index i e)
  | inr e ↦
      rw e (
        IsStored-cons i n s rs _ desc (in_bucket-IsStored i zero s.address rs d desc.1 (rw e at h)))
]
in_bucket-IsStored i (suc j) n (s ∷ rs) d desc h = elim (Bool-cases (s.index == i)) [
  | inl e ↦ rw e (
      IsStored-cons i n s rs _ desc
        (in_bucket-IsStored i j s.address rs d desc.1 (let p = rw e at h in omega arith)))
  | inr e ↦ rw e (
      IsStored-cons i n s rs _ desc
        (in_bucket-IsStored i (suc j) s.address rs d desc.1 (rw e at h)))
]

-- Down and up together, the walk passes every bucket.
start_covers :
    (n index k up : ℕ)
    → 0 < n
    → n < 2 ^ 64
    → index < n
    → k < n
    → up ≡ (if index == one_less n then 0 else index + 1)
    → ((if index == size_max then one_less n else index) ≡ index)
      × (up < n)
      × ((down_to n index k < n / 2 + 1) ⊎ (up_to n up k < n / 2 + 1))
start_covers n index k up pos small hi hk e =
    let last : one_less n ≡ n - 1 = omega arith in
    (
      ground arith,
      ground arith,
      elim (Bool-cases (ltb (down_to n index k) (n / 2 + 1))) [
        | inl near ↦ inl (ground arith)
        | inr far ↦ inr (ground arith)
      ],
    )

filled_head :
    (m : Mempool) (s : Stored) (rs : List Stored)
    → Holds m (s ∷ rs)
    → not (is_empty (bucket m s.index)) ≡ true
unfolding in_bucket
filled_head m s rs h = ground (arith, h.buckets s.index)

abbrev has_item : Mempool → ℕ → Bool
has_item m i = not (is_empty (bucket m i))

walk_from-Found :
    (m : Mempool) (s : Stored) (rs : List Stored) (index : ℕ)
    → Holds m (s ∷ rs)
    → index < m.arr_size
    → (i : ℕ) × (walk_from (λ up. up == m.arr_size) m index ≡ some i) × (has_item m i ≡ true)
walk_from-Found m s rs index h lt =
    let n : ℕ = m.arr_size in
    let small_size : n < 2 ^ 64 = omega (arith, h.size.1) in
    let up : ℕ = if index == one_less n then 0 else index + 1 in
    let (same, up_lt, near) =
      start_covers n index s.index up h.size.0 small_size lt h.placed.0 refl in
    let up_same : (if up == n then 0 else up) ≡ up = ground arith in
    let (i, e, f, hi) =
      walk-Found (has_item m) (λ up. up == n) n h.size.0 small_size (n / 2 + 1) index up s.index
        (λ up p. ground arith) h.placed.0 (filled_head m s rs h) (rw same lt) (rw up_same up_lt)
        (rw (same, up_same) near) in
    (i, e, f)

random_in-stored :
    (draw : ℕ → ℕ → ℕ × ℕ) (m : Mempool) (s : Stored) (rs : List Stored) (gen i : ℕ)
    → Holds m (s ∷ rs)
    → has_item m i ≡ true
    → ((n g : ℕ) → (draw n g).0 ≤ n)
    → (r : Stored) × (stored_at r.address (s ∷ rs) ≡ some r)
      × (random_in draw m gen (some i) ≡ handle r)
random_in-stored draw m s rs gen i h f fair =
    let (j, lj, c) = choose-lt draw (bucket m i) gen (item s) fair (ground arith) in
    let (r, found, is, at) =
      in_bucket-IsStored i j m.next (s ∷ rs) (item s) h.newest_first
        (subst (λ b. j < length b) (h.buckets i) lj) in
    let t : get_or (bucket m i) j (item s) ≡ item r =
      ap (λ b. get_or b j (item s)) (h.buckets i) ∙ is in
    (
      r,
      found,
      ap (iterator_to i) (c ∙ ap some t)
          ∙ ap (λ k. record { iterator = r.address; index = k }) (sym at),
    )

-- From a mempool that holds at least one transaction, and with draws that are in range,
-- getRandomTransaction returns the iterator of a stored transaction.
pub get_random_transaction-stored :
    (draw : ℕ → ℕ → ℕ × ℕ) (m : Mempool) (log : List Stored) (gen : ℕ)
    → Holds m log
    → 0 < length log
    → ((n g : ℕ) → (draw n g).0 ≤ n)
    → (r : Stored) × (stored_at r.address log ≡ some r)
      × (get_random_transaction draw m gen ≡ handle r)
unfolding get_random_transaction
get_random_transaction-stored draw m [] gen h some_left fair = absurd (omega arith)
get_random_transaction-stored draw m (s ∷ rs) gen h some_left fair =
    let lt : (draw (m.arr_size - 1) gen).0 < m.arr_size =
      omega (arith, fair (m.arr_size - 1) gen, h.size.0) in
    let (i, e, f) = walk_from-Found m s rs (draw (m.arr_size - 1) gen).0 h lt in
    let (r, found, is) = random_in-stored draw m s rs (draw (m.arr_size - 1) gen).1 i h f fair in
    (r, found, ap (random_in draw m (draw (m.arr_size - 1) gen).1) e ∙ is)

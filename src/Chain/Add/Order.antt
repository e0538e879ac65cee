-- ===== src/Chain/Add/Order.antt =====
-- In a well-formed chain the indices of a block's past are below its own.
use ghostdagsim.Common.{
  ℕ, zero, suc, ◌<◌, ◌≤◌, ◌≡◌, ap, sym, ◌∙◌, true, false, length, get_or, get_or_beyond, arith, leb,
  any_of-eq-true, Bool-cases, inl, inr,
}
use ghostdagsim.BitSet.{no_bits, test}
use ghostdagsim.BitSet.Update.{test-no_bits}
use ghostdagsim.Chain.State.{Blockchain, past_at, blue_at, index_at}
use ghostdagsim.Chain.Invariant.{parents_at, IsIndexed, IsPast}
use ghostdagsim.Chain.Add.Pasts.{brings}

module _ (c : Blockchain) (x : IsIndexed c) (y : IsPast c) where
  past-beyond : (i j : ℕ) → length c.id_of ≤ i → test (past_at c i) j ≡ false
  past-beyond i j h =
      ap (λ s. test s j) (get_or_beyond c.past i no_bits (omega (arith, x.past_length)))
      ∙ test-no_bits j

  past_lt-fuel : (n i j : ℕ) → i < n → test (past_at c i) j ≡ true → j < i
  past_lt-fuel zero i j h t = absurd (omega arith)
  past_lt-fuel (suc n) i j h t = elim (Bool-cases (leb (length c.id_of) i)) [
    | inl beyond ↦ ground (arith, past-beyond i j)
    | inr within ↦
        let id : ℕ = get_or c.id_of i 0 in
        let e = x.index_of i (ground arith) in
        let (p, m, b) = any_of-eq-true (brings c j) (parents_at c id) (sym (y.past id i j e) ∙ t) in
        ground (arith, y.parent id i p e m, past_lt-fuel n (index_at c p) j)
  ]

  pub past_lt : (i j : ℕ) → test (past_at c i) j ≡ true → j < i
  past_lt i j t = past_lt-fuel (suc i) i j (omega arith) t

module _ (c : Blockchain) (x : IsIndexed c) where
  pub blue-beyond : (i j : ℕ) → length c.id_of ≤ i → test (blue_at c i) j ≡ false
  blue-beyond i j h =
      ap (λ s. test s j) (get_or_beyond c.blue i no_bits (omega (arith, x.blue_length)))
      ∙ test-no_bits j

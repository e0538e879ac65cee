-- ===== src/Chain/Ancestors.antt =====
-- What the bit sets of a well-formed chain say of its graph.
use ghostdagsim.Common.{
  ℕ, zero, suc, ◌<◌, ◌≡◌, ◌↔◌, sym, ◌∙◌, true, some, get_or, arith, ◌==◌, contains, any_of-eq-true,
  any_of-contains, Bool-cases, Option-cases, eq_of_==, inl, inr,
}
use ghostdagsim.Common.Maps.{find, has}
use ghostdagsim.BitSet.{test}
use ghostdagsim.Chain.State.{Blockchain, index_at, past_at, in_past}
use ghostdagsim.Chain.Invariant.{parents_at, IsChain, IsIndexed, IsPast}
use ghostdagsim.Chain.Add.Pasts.{brings}

-- `a` is a parent of `id`, or of one of its ancestors.
pub data Ancestor (c : Blockchain) (a : ℕ) : ℕ → Type 0 where
  parent : (id : ℕ) → contains a (parents_at c id) ≡ true → Ancestor c a id
  further : (id p : ℕ) → Ancestor c a p → contains p (parents_at c id) ≡ true → Ancestor c a id

module _ (c : Blockchain) (x : IsIndexed c) (y : IsPast c) where
  -- An index is that of one block.
  index-inj :
      (a p i : ℕ) → find a c.idx_of ≡ some i → has p c.idx_of ≡ true → index_at c p ≡ i → a ≡ p
  index-inj a p i e h k = elim (Option-cases (find p c.idx_of)) [
    | inl none_p ↦ ground arith
    | inr (j, e') ↦ ground (arith, x.id_at a i e, x.id_at p j e', same j i)
  ]
    where
      same : (j i : ℕ) → j ≡ i → get_or c.id_of j 0 ≡ get_or c.id_of i 0
      same j i q = rw q

  Ancestor-of_test :
      (n id i a j : ℕ)
      → i < n
      → find id c.idx_of ≡ some i
      → find a c.idx_of ≡ some j
      → test (past_at c i) j ≡ true
      → Ancestor c a id
  Ancestor-of_test zero id i a j h e f t = absurd (omega arith)
  Ancestor-of_test (suc n) id i a j h e f t =
      let (p, m, b) = any_of-eq-true (brings c j) (parents_at c id) (sym (y.past id i j e) ∙ t) in
      let known = y.parent id i p e m in
      elim (Bool-cases (index_at c p == j)) [
        | inl direct ↦
            let same : a ≡ p = index-inj a p j f known.0 (eq_of_== _ _ direct) in
            parent id (rw same m)
        | inr indirect ↦
            further id p
              (Ancestor-of_test n p (index_at c p) a j (omega (arith, known.1))
                (ground (arith, known.0)) f (ground arith))
              m
      ]

  test_of_Ancestor :
      {a id : ℕ} (i j : ℕ)
      → find id c.idx_of ≡ some i
      → find a c.idx_of ≡ some j
      → Ancestor c a id
      → test (past_at c i) j ≡ true
  test_of_Ancestor {a} {id} i j e f (parent _ m) =
      y.past id i j e ∙ any_of-contains (brings c j) a (parents_at c id) m (ground arith)
  test_of_Ancestor {a} {id} i j e f (further _ p above m) =
      let known = y.parent id i p e m in
      let t = test_of_Ancestor (index_at c p) j (ground (arith, known.0)) f above in
      y.past id i j e ∙ any_of-contains (brings c j) p (parents_at c id) m (ground (arith, t))

  pub child_known : (p id : ℕ) → contains p (parents_at c id) ≡ true → has id c.idx_of ≡ true
  child_known p id m = ground (arith, x.known id)

  pub Ancestor-known :
      {a id : ℕ} → Ancestor c a id → (has a c.idx_of ≡ true) × (has id c.idx_of ≡ true)
  Ancestor-known {a} {id} (parent _ m) =
      let k = child_known a id m in
      elim (Option-cases (find id c.idx_of)) [
        | inl e ↦ ground arith
        | inr (i, e) ↦ ((y.parent id i a e m).0, k)
      ]
  Ancestor-known {a} {id} (further _ p above m) = ((Ancestor-known above).0, child_known p id m)

  pub in_past_of_Ancestor : (a id : ℕ) → Ancestor c a id → in_past c id a ≡ true
  unfolding in_past
  in_past_of_Ancestor a id d =
      let known = Ancestor-known d in
      elim (Option-cases (find id c.idx_of)) [
        | inl e ↦ ground (arith, known.1)
        | inr (i, e) ↦ elim (Option-cases (find a c.idx_of)) [
          | inl f ↦ ground (arith, known.0)
          | inr (j, f) ↦ ground (arith, test_of_Ancestor i j e f d)
        ]
      ]

  pub Ancestor-of_in_past : (a id : ℕ) → in_past c id a ≡ true → Ancestor c a id
  unfolding in_past
  Ancestor-of_in_past a id t = elim (Option-cases (find id c.idx_of)) [
    | inl e ↦ ground arith
    | inr (i, e) ↦ elim (Option-cases (find a c.idx_of)) [
      | inl f ↦ ground arith
      | inr (j, f) ↦ Ancestor-of_test (suc i) id i a j (omega arith) e f (ground arith)
    ]
  ]

-- In a well-formed chain `InPast(id, a)` answers true exactly when a chain of parent links leads
-- from `id` to `a`.
pub in_past-iff_Ancestor :
    (c : Blockchain) (a id : ℕ) → IsChain c → (in_past c id a ≡ true) ↔ Ancestor c a id
in_past-iff_Ancestor c a id h =
    (Ancestor-of_in_past c h.indexed h.pasts a id, in_past_of_Ancestor c h.indexed h.pasts a id)

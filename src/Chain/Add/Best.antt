-- ===== src/Chain/Add/Best.antt =====
-- The loops for the selected parent and the selected tip find the best block.
use ghostdagsim.Common.{
  ℕ, ◌≡◌, refl, ap, sym, ◌∙◌, true, ◌&&◌, ◌||◌, List, [], ◌∷◌, some, arith, ltb, leb, ◌==◌, foldl,
  contains, Bool-cases, inl, inr,
}
use ghostdagsim.Chain.Add.{prefer, best_of}

-- A higher score, or the same score and an id that is not above.
abbrev pub AtLeast : (ℕ → ℕ) → ℕ → ℕ → Type 0
AtLeast score t u = (ltb (score u) (score t) || ((score u == score t) && leb t u)) ≡ true

pub record IsBest (score : ℕ → ℕ) (ids : List ℕ) (t : ℕ) : Type 0 where
  pub member : contains t ids ≡ true
  pub at_least : (u : ℕ) → contains u ids ≡ true → AtLeast score t u

AtLeast-trans :
    (score : ℕ → ℕ) (t u v : ℕ) → AtLeast score t u → AtLeast score u v → AtLeast score t v
AtLeast-trans score t u v h k = ground arith

prefer-AtLeast :
    (score : ℕ → ℕ) (b p : ℕ)
    → (t : ℕ) × (prefer score (some b, some (score b)) p ≡ (some t, some (score t)))
      × (((t == b) || (t == p)) ≡ true)
      × AtLeast score t b
      × AtLeast score t p
unfolding prefer
prefer-AtLeast score b p =
    elim (Bool-cases (ltb (score b) (score p) || ((score p == score b) && ltb p b))) [
      | inl e ↦ (p, ground arith, ground arith, ground arith, ground arith)
      | inr e ↦ (b, ground arith, ground arith, ground arith, ground arith)
    ]

fold_prefer :
    (score : ℕ → ℕ) (ids : List ℕ) (b : ℕ)
    → (t : ℕ) × (foldl (prefer score) (some b, some (score b)) ids ≡ (some t, some (score t)))
      × (((t == b) || contains t ids) ≡ true)
      × AtLeast score t b
      × ((u : ℕ) → contains u ids ≡ true → AtLeast score t u)
fold_prefer score [] b = (b, refl, ground arith, ground arith, λ u m. cc)
fold_prefer score (p ∷ ids) b =
    let (q, e, is, over_b, over_p) = prefer-AtLeast score b p in
    let (t, e', is', over_q, over) = fold_prefer score ids q in
    (
      t,
      ap (λ s. foldl (prefer score) s ids) e ∙ e',
      ground arith,
      AtLeast-trans score t q b over_q over_b,
      λ u m. elim (Bool-cases (contains u ids)) [
        | inl rest ↦ over u rest
        | inr first ↦
            let here : u ≡ p = ground arith in rw here (AtLeast-trans score t q p over_q over_p)
      ],
    )

-- Of no ids there is no best one; otherwise the result is the best one.
pub best_of_cons :
    (score : ℕ → ℕ) (p : ℕ) (ids : List ℕ)
    → (t : ℕ) × (best_of score (p ∷ ids) ≡ some t) × IsBest score (p ∷ ids) t
unfolding best_of prefer
best_of_cons score p ids =
    let (t, e, is, over_p, over) = fold_prefer score ids p in
    (
      t,
      ap (λ s. s.0) e,
      record {
        member = is;
        at_least = λ u m. elim (Bool-cases (contains u ids)) [
          | inl rest ↦ over u rest
          | inr first ↦ let here : u ≡ p = ground arith in rw here over_p
        ];
      },
    )

pub best_of-IsBest :
    (score : ℕ → ℕ) (ids : List ℕ) (t : ℕ) → best_of score ids ≡ some t → IsBest score ids t
best_of-IsBest score [] t e = unfold best_of in cc
best_of-IsBest score (p ∷ ids) t e =
    let (u, e', best) = best_of_cons score p ids in
    let same : u ≡ t = ground (arith, sym e' ∙ e) in rw (← same) best

-- ===== src/Chain/Colours/Changes.antt =====
-- Which blocks NewlyBlue lists.
use ghostdagsim.Common.{
  ℕ, zero, suc, ◌<◌, ◌≡◌, ◌≢◌, refl, sym, ◌∙◌, Bool, false, not, ◌&&◌, List, [], ◌∷◌, some, length,
  get_or, arith, contains,
}
use ghostdagsim.Common.Maps.{find}
use ghostdagsim.Chain.State.{Blockchain, block_at}
use ghostdagsim.Chain.Sort.Inside.{contains-sort}
use ghostdagsim.Chain.Invariant.{IsChain}
use ghostdagsim.Chain.Colours.{newly_from, newly_blue}

newly_from-absent :
    (c : Blockchain) (before : List Bool) (ids : List ℕ) (x : ℕ)
    → ((j : ℕ) → j < length ids → get_or ids j 0 ≢ x)
    → contains x (newly_from c before ids) ≡ false
unfolding newly_from
newly_from-absent c before [] x away = refl
newly_from-absent c [] (id ∷ ids) x away =
    let rest = newly_from-absent c [] ids x (λ j h. away (suc j) (omega arith)) in
    ground (arith, away 0 (omega arith), rest)
newly_from-absent c (prev ∷ before) (id ∷ ids) x away =
    let rest = newly_from-absent c before ids x (λ j h. away (suc j) (omega arith)) in
    ground (arith, away 0 (omega arith), rest)

-- An id that stands at one index only.
newly_from-at :
    (c : Blockchain) (before : List Bool) (ids : List ℕ) (x i : ℕ)
    → i < length ids
    → get_or ids i 0 ≡ x
    → ((j : ℕ) → j < length ids → get_or ids j 0 ≡ x → j ≡ i)
    → contains x (newly_from c before ids) ≡ ((block_at c x).is_blue && not (get_or before i false))
unfolding newly_from
newly_from-at c before [] x i h e once = absurd (omega arith)
newly_from-at c [] (id ∷ ids) x zero h e once =
    let rest =
      newly_from-absent c [] ids x
        (λ j hj p. let q = once (suc j) (omega arith) p in omega arith) in
    rw (sym e) (ground arith)
newly_from-at c (prev ∷ before) (id ∷ ids) x zero h e once =
    let rest =
      newly_from-absent c before ids x
        (λ j hj p. let q = once (suc j) (omega arith) p in omega arith) in
    rw (sym e) (ground arith)
newly_from-at c [] (id ∷ ids) x (suc i) h e once =
    let rest =
      newly_from-at c [] ids x i (omega arith) e
        (λ j hj p. let q = once (suc j) (omega arith) p in omega arith) in
    ground (arith, rest, once 0 (omega arith))
newly_from-at c (prev ∷ before) (id ∷ ids) x (suc i) h e once =
    let rest =
      newly_from-at c before ids x i (omega arith) e
        (λ j hj p. let q = once (suc j) (omega arith) p in omega arith) in
    ground (arith, rest, once 0 (omega arith))

-- In a well-formed chain NewlyBlue lists an accepted block exactly if it is blue and its flag was not
-- set, or is beyond the end of the flags.
pub contains-newly_blue :
    (c : Blockchain) (before : List Bool) (id i : ℕ)
    → IsChain c
    → find id c.idx_of ≡ some i
    → contains id (newly_blue c before) ≡ ((block_at c id).is_blue && not (get_or before i false))
unfolding newly_blue
contains-newly_blue c before id i h e =
    contains-sort id (newly_from c before c.id_of)
    ∙ newly_from-at c before c.id_of id i (h.indexed.index_lt id i e) (h.indexed.id_at id i e)
        (λ j hj p. ground (arith, h.indexed.index_of j hj, p, e))

-- ===== src/Chain/Tips.antt =====
-- The tips of a well-formed chain, and the one that SelectTip picks.
use ghostdagsim.Common.{
  ℕ, ◌-◌, ◌<◌, ◌≡◌, ap, sym, ◌∙◌, true, false, some, length, get_or, arith, contains,
  is_nil_of_contains, Option-cases, inl, inr, List-cases, false≢true,
}
use ghostdagsim.Common.Maps.{find}
use ghostdagsim.Chain.State.{Blockchain, children_of}
use ghostdagsim.Chain.Add.{select_tip, score_at}
use ghostdagsim.Chain.Add.Best.{IsBest, best_of_cons}
use ghostdagsim.Chain.Invariant.{IsChain}

module _ (c : Blockchain) (h : IsChain c) (some_block : 0 < length c.id_of) where
  abbrev last : ℕ
  last = length c.id_of - 1

  abbrev newest : ℕ
  newest = get_or c.id_of last 0

  newest_index : find newest c.idx_of ≡ some last
  newest_index = h.indexed.index_of last (omega arith)

  -- Nothing has the newest block as its parent.
  newest-childless : (ch : ℕ) → contains ch (children_of c newest) ≡ false
  newest-childless ch = elim (Option-cases (find ch c.idx_of)) [
    | inl e ↦ ground (arith, h.linked.child newest ch, h.indexed.known ch)
    | inr (i, e) ↦ ground (
      arith,
      h.linked.child newest ch,
      h.pasts.parent ch i newest e,
      h.indexed.index_lt ch i e,
      newest_index,
    )
  ]

  newest_tip : contains newest c.tips ≡ true
  newest_tip =
      h.linked.tip newest
      ∙ ground (
        arith,
        h.indexed.known newest,
        newest_index,
        is_nil_of_contains (children_of c newest) newest-childless,
      )

-- A well-formed chain that is not empty has a selected tip: a tip with the highest blue score, and
-- of those with that score the one with the lowest id.
pub select_tip-IsBest :
    (c : Blockchain)
    → IsChain c
    → 0 < length c.id_of
    → (t : ℕ) × (select_tip c ≡ some t) × IsBest (score_at c.blocks) c.tips t
unfolding select_tip
select_tip-IsBest c h pos = elim (List-cases c.tips) [
  | inl e ↦ absurd (false≢true (ap (contains (newest c h pos)) (sym e) ∙ newest_tip c h pos))
  | inr (t, ts, e) ↦ rw e (best_of_cons (score_at c.blocks) t ts)
]

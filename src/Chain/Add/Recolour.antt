-- ===== src/Chain/Add/Recolour.antt =====
-- The loop that sets `is_blue` changes no other field.
use mathlib.Core.Path.{fun_ext}
use ghostdagsim.Common.{
  ℕ, ◌≡◌, refl, ap, sym, ◌∙◌, [], ◌∷◌, none, some, arith, ◌==◌, Bool-cases, eq_of_==, Option-cases,
  inl, inr, contains,
}
use ghostdagsim.Common.Maps.{Map, find, has, at}
use ghostdagsim.BitSet.{BitSet, test}
use ghostdagsim.Block.{Block, default_block}
use ghostdagsim.Chain.State.{Blockchain, parents_of, index_at, blue_at}
use ghostdagsim.Chain.Add.{recolour_all, recolour, select_tip, best_of, score_at}
use ghostdagsim.Chain.Invariant.{IsIndexed, IsLinked, IsPast, IsBlue, IsColoured}

abbrev pub paint : Map ℕ → BitSet → ℕ → Block → Block
paint idx_of tip_blue id b = record b { is_blue = test tip_blue (at 0 id idx_of) }

-- Two maps with the same keys, parents and scores.
pub record SameBlocks (m n : Map Block) : Type 0 where
  pub same_keys : (id : ℕ) → has id m ≡ has id n
  pub same_parents :
      (id : ℕ) → parents_of (at default_block id m) ≡ parents_of (at default_block id n)
  pub same_scores : (id : ℕ) → score_at m id ≡ score_at n id

find-recolour :
    (idx_of : Map ℕ) (tip_blue : BitSet) (m : Map Block) (id : ℕ)
    → find id (recolour idx_of tip_blue m)
      ≡ elim (find id m) [ none ↦ none | some b ↦ some (paint idx_of tip_blue id b) ]
unfolding find recolour
find-recolour idx_of tip_blue [] id = refl
find-recolour idx_of tip_blue ((j, b) ∷ m) id = elim (Bool-cases (id == j)) [
  | inl e ↦ rw e (ap (λ k. some (paint idx_of tip_blue k b)) (sym (eq_of_== id j e)))
  | inr e ↦ rw e (find-recolour idx_of tip_blue m id)
]

recolour-SameBlocks :
    (idx_of : Map ℕ) (tip_blue : BitSet) (m : Map Block) → SameBlocks (recolour idx_of tip_blue m) m
recolour-SameBlocks idx_of tip_blue m = record {
  same_keys = λ id. ground (arith, find-recolour idx_of tip_blue m id);
  same_parents = λ id. ground (arith, find-recolour idx_of tip_blue m id);
  same_scores = λ id. ground (arith, find-recolour idx_of tip_blue m id);
}

SameBlocks-refl : (m : Map Block) → SameBlocks m m
SameBlocks-refl m = record {
  same_keys = λ id. refl;
  same_parents = λ id. refl;
  same_scores = λ id. refl;
}

-- The map after the loop.
pub painted : Blockchain → Map Block
unfolding recolour
painted c = elim (select_tip c) [
  | none ↦ c.blocks
  | some tip ↦ recolour c.idx_of (blue_at c (index_at c tip)) c.blocks
]

pub painted-SameBlocks : (c : Blockchain) → SameBlocks (painted c) c.blocks
unfolding painted
painted-SameBlocks c = elim (Option-cases (select_tip c)) [
  | inl e ↦ rw (e, painted) (SameBlocks-refl c.blocks)
  | inr (tip, e) ↦
      rw (e, painted) (recolour-SameBlocks c.idx_of (blue_at c (index_at c tip)) c.blocks)
]

-- Painting leaves the headers alone.
pub painted-header :
    (c : Blockchain) (id : ℕ)
    → (elim (find id (painted c)) [ none ↦ none | some b ↦ some b.header ])
      ≡ (elim (find id c.blocks) [ none ↦ none | some b ↦ some b.header ])
unfolding painted
painted-header c id = elim (Option-cases (select_tip c)) [
  | inl e ↦ rw (e, painted) refl
  | inr (tip, e) ↦
      ground (arith, e, find-recolour c.idx_of (blue_at c (index_at c tip)) c.blocks id)
]

pub recolour_all_lem : (c : Blockchain) → recolour_all c ≡ record c { blocks = painted c }
unfolding recolour_all painted
recolour_all_lem c = elim (Option-cases (select_tip c)) [
  | inl e ↦ rw (e, recolour_all, painted) refl
  | inr (tip, e) ↦ rw (e, recolour_all, painted) refl
]

select_tip-painted : (c : Blockchain) → select_tip (record c { blocks = painted c }) ≡ select_tip c
unfolding select_tip
select_tip-painted c =
    ap (λ score. best_of score c.tips) (fun_ext (painted-SameBlocks c).same_scores)

-- After the loop every block's colour is that of the selected tip's blue set.
pub recolour_all-IsColoured : (c : Blockchain) → IsColoured (record c { blocks = painted c })
unfolding painted
recolour_all-IsColoured c id tip h e =
    let e' : select_tip c ≡ some tip = sym (select_tip-painted c) ∙ e in
    ground (
      arith,
      e',
      (painted-SameBlocks c).same_keys id,
      find-recolour c.idx_of (blue_at c (index_at c tip)) c.blocks id,
    )

module _ (c : Blockchain) (m : Map Block) (same : SameBlocks m c.blocks) where
  pub IsIndexed-blocks : IsIndexed c → IsIndexed (record c { blocks = m })
  IsIndexed-blocks x = record {
    known = λ id. same.same_keys id ∙ x.known id;
    index_lt = x.index_lt;
    id_at = x.id_at;
    index_of = x.index_of;
    past_length = x.past_length;
    blue_length = x.blue_length;
  }

  pub IsLinked-blocks : IsLinked c → IsLinked (record c { blocks = m })
  IsLinked-blocks x = record {
    child = λ p ch. rw (same.same_keys ch, same.same_parents ch) (x.child p ch);
    tip = λ t. rw (same.same_keys t) (x.tip t);
    children_ascend = x.children_ascend;
    tips_ascend = x.tips_ascend;
  }

  pub IsPast-blocks : IsPast c → IsPast (record c { blocks = m })
  IsPast-blocks x = record {
    parent = λ id i p e h. x.parent id i p e (sym (ap (contains p) (same.same_parents id)) ∙ h);
    past = λ id i j e. rw (same.same_parents id) (x.past id i j e);
    words = x.words;
  }

  pub IsBlue-blocks : IsBlue c → IsBlue (record c { blocks = m })
  IsBlue-blocks x = record {
    self = x.self;
    inside = x.inside;
    score = λ id i e. same.same_scores id ∙ x.score id i e;
    words = x.words;
  }

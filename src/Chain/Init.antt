-- ===== src/Chain/Init.antt =====
-- The constructor's chain, with the genesis block alone, is well formed.
use ghostdagsim.Common.{
  ℕ, suc, ◌≡◌, refl, ap, sym, ◌∙◌, false, [], arith, ◌==◌, contains, false≢true, zero, ◌&&◌,
}
use ghostdagsim.Common.Maps.{find}
use ghostdagsim.BitSet.{BitSet, no_bits, test, count_and}
use ghostdagsim.BitSet.Count.{count_and-no_bits}
use ghostdagsim.BitSet.Update.{test-set_bit, test-no_bits, set_bit-IsBitSet}
use ghostdagsim.Chain.Add.{select_tip}
use ghostdagsim.Chain.State.{Blockchain, init, past_at, blue_at}
use ghostdagsim.Chain.Invariant.{
  parents_at, IsChain, IsIndexed, IsLinked, IsPast, IsBlue, IsColoured, HasOrphans,
}

module _ (k node_id : ℕ) where
  abbrev c : Blockchain
  c = init k node_id

  init-IsIndexed : IsIndexed c
  unfolding init find
  init-IsIndexed = record {
    known = λ id. ground arith;
    index_lt = λ id i e. ground arith;
    id_at = λ id i e. ground arith;
    index_of = λ i h. ground arith;
    past_length = refl;
    blue_length = refl;
  }

  init-IsLinked : IsLinked c
  unfolding init find
  init-IsLinked = record {
    child = λ p ch. ground arith;
    tip = λ t. ground arith;
    children_ascend = λ p. tt;
    tips_ascend = omega arith;
  }

  no_parents : (id : ℕ) → parents_at c id ≡ []
  unfolding init find
  no_parents id = ground arith

  past-none : (i j : ℕ) → test (past_at c i) j ≡ false
  unfolding init
  past-none zero j = test-no_bits j
  past-none (suc i) j = test-no_bits j

  blue-first : (i j : ℕ) → test (blue_at c i) j ≡ ((i == 0) && (0 == j))
  unfolding init
  blue-first zero j = ground (arith, test-set_bit no_bits 0 j, test-no_bits j)
  blue-first (suc i) j = ground (arith, test-no_bits j)

  init-IsPast : IsPast c
  init-IsPast = record {
    parent = λ id i p e h. absurd (false≢true (ap (contains p) (sym (no_parents id)) ∙ h));
    past = λ id i j e. rw (no_parents id) (past-none i j);
    words = unfold init in (tt, tt);
  }

  past-empty : (i : ℕ) (o : BitSet) → count_and (past_at c i) o ≡ 0
  unfolding init
  past-empty zero o = count_and-no_bits o
  past-empty (suc i) o = count_and-no_bits o

  init-IsBlue : IsBlue c
  unfolding init find
  init-IsBlue = record {
    self = λ i h. ground (arith, blue-first i i);
    inside = λ i j t. ground (arith, blue-first i j);
    score = λ id i e. ground (arith, past-empty i (blue_at c i));
    words = (set_bit-IsBitSet no_bits 0 tt, tt);
  }

  init-HasOrphans : HasOrphans c
  unfolding init find
  init-HasOrphans = record {
    ascending = tt;
    header_id = λ id b e. cc;
    pending = λ id e. cc;
    room = omega arith;
  }

  init-IsColoured : IsColoured c
  unfolding init find select_tip
  init-IsColoured id tip h e = ground (arith, blue-first 0 0)

  -- The constructor's chain is well formed.
  pub init-IsChain : IsChain c
  init-IsChain = record {
    indexed = init-IsIndexed;
    linked = init-IsLinked;
    pasts = init-IsPast;
    blues = init-IsBlue;
    coloured = init-IsColoured;
    waiting = init-HasOrphans;
  }

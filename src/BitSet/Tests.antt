-- ===== src/BitSet/Tests.antt =====
-- The theorems on bit sets, at sets of one and of two words.
use ghostdagsim.Common.{ℕ, ◌≡◌, false, [], ◌∷◌, List, foldl, fold_until, Bool}
use ghostdagsim.BitSet.{BitSet, no_bits, set_bit, and_not, for_each, for_each_and_not}
use ghostdagsim.BitSet.Update.{IsBitSet, set_bit-IsBitSet}
use ghostdagsim.BitSet.Members.{members}
use ghostdagsim.BitSet.Loops.{for_each_lem, for_each_and_not_lem}

-- 2 and 70, and 2 alone.
abbrev two : BitSet
two = set_bit (set_bit no_bits 2) 70

abbrev one : BitSet
one = set_bit no_bits 2

two-IsBitSet : IsBitSet two
two-IsBitSet = set_bit-IsBitSet (set_bit no_bits 2) 70 (set_bit-IsBitSet no_bits 2 tt)

one-IsBitSet : IsBitSet one
one-IsBitSet = set_bit-IsBitSet no_bits 2 tt

abbrev collect : List ℕ → ℕ → List ℕ
collect out i = i ∷ out

abbrev collect_one : List ℕ → ℕ → List ℕ × Bool
collect_one out i = (i ∷ out, false)

for_each_lem_example : for_each two collect [] ≡ foldl collect [] (members two)
for_each_lem_example = for_each_lem two collect [] two-IsBitSet

for_each_and_not_lem_example :
    for_each_and_not two one collect_one []
    ≡ (fold_until collect_one [] (members (and_not two one))).0
for_each_and_not_lem_example = for_each_and_not_lem two one collect_one [] two-IsBitSet

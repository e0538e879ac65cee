-- ===== src/Chain/Add/Tests.antt =====
-- The theorems on the chain, at small chains: an orphan that waits for one more parent.
use ghostdagsim.Chain.Cluster.{is_k_cluster}
use ghostdagsim.Chain.Cluster.Bound.{accepted, beside, is_k_cluster_lem}
use ghostdagsim.Chain.Colours.{newly_blue, snapshot_blue_flags}
use ghostdagsim.Chain.Colours.Changes.{contains-newly_blue}
use ghostdagsim.Chain.State.{block_at}
use ghostdagsim.Common.{
  all_of, count_if, contains, some, get_or, false, not, All-get_or, length, ◌<◌, ◌↔◌, ◌&&◌, ◌||◌,
  ◌==◌, leb, ℕ, ◌≡◌, refl, true, [], ◌∷◌, some, arith,
}
use ghostdagsim.Common.Maps.{find}
use ghostdagsim.Common.Sets
use ghostdagsim.BitSet.{BitSet, no_bits, set_bit, test}
use ghostdagsim.BitSet.Update.{IsBitSet, set_bit-IsBitSet}
use ghostdagsim.Block.{Block}
use ghostdagsim.Samples.{block}
use ghostdagsim.Chain.State.{Blockchain, init, in_past, index_at, past_at}
use ghostdagsim.Chain.Ancestors.{Ancestor, in_past-iff_Ancestor}
use ghostdagsim.Chain.Tips.{select_tip-IsBest}
use ghostdagsim.Chain.Add.Best.{IsBest}
use ghostdagsim.Chain.Add.Anticone.{blue_anticone, consider-iff_anticone}
use ghostdagsim.Chain.Add.{
  consider, add_block, add_block?, enough, parents_known, select_tip, score_at,
}
use ghostdagsim.Chain.Invariant.{IsChain, IsFresh}
use ghostdagsim.Chain.Init.{init-IsChain}
use ghostdagsim.Chain.Future.{get_future}
use ghostdagsim.Chain.Future.Descendants.{contains-get_future}
use ghostdagsim.Common.{contains, Ascends, List}
use ghostdagsim.Chain.Add.Keeps.{add_block-IsChain, add_block-Settled}
use ghostdagsim.Chain.Add.Rule.{Settled}

abbrev first : Block
first = block 1 (0 ∷ []) 10

abbrev second : Block
second = block 2 (0 ∷ []) 20

abbrev join : Block
join = block 3 (1 ∷ 2 ∷ []) 30

abbrev start : Blockchain
start = init 1 0

abbrev waiting : Blockchain
waiting = add_block start join

abbrev half : Blockchain
half = add_block waiting first

join-IsFresh : IsFresh start join
unfolding init find
join-IsFresh = record { unknown = refl; absent = refl; room = omega arith }

first-IsFresh : IsFresh waiting first
unfolding init find add_block
first-IsFresh = record { unknown = refl; absent = refl; room = omega arith }

second-IsFresh : IsFresh half second
unfolding init find add_block select_tip Sets.erase
second-IsFresh = record { unknown = refl; absent = refl; room = omega arith }

second-known : parents_known half second ≡ true
unfolding init find add_block select_tip Sets.erase
second-known = refl

half-IsChain : IsChain half
half-IsChain =
    (add_block-IsChain waiting first
      (add_block-IsChain start join (init-IsChain 1 0) join-IsFresh).1 first-IsFresh).1

add_block-IsChain_example :
    (add_block? (enough half) half second ≡ some (add_block half second))
    × IsChain (add_block half second)
add_block-IsChain_example = add_block-IsChain half second half-IsChain second-IsFresh

add_block-Settled_example : Settled (add_block half second)
add_block-Settled_example = add_block-Settled half second half-IsChain second-IsFresh second-known

in_past-iff_Ancestor_example :
    (in_past (add_block half second) 3 1 ≡ true) ↔ Ancestor (add_block half second) 1 3
in_past-iff_Ancestor_example =
    in_past-iff_Ancestor (add_block half second) 1 3
      (add_block-IsChain half second half-IsChain second-IsFresh).1

half-not_empty : 0 < length half.id_of
unfolding init find add_block select_tip Sets.erase
half-not_empty = omega arith

select_tip-IsBest_example :
    (t : ℕ) × (select_tip half ≡ some t) × IsBest (score_at half.blocks) half.tips t
select_tip-IsBest_example = select_tip-IsBest half half-IsChain half-not_empty

abbrev genesis_only : BitSet
genesis_only = set_bit no_bits 0

past-IsBitSet : IsBitSet (past_at half (index_at half 1))
past-IsBitSet = All-get_or IsBitSet half.past (index_at half 1) no_bits tt half-IsChain.pasts.words

consider-iff_anticone_example : test (consider half genesis_only 1) 1 ≡ (
    ((index_at half 1 == 1)
      && leb (length (blue_anticone half genesis_only (index_at half 1))) half.ghostdag_k)
    || test genesis_only 1)
consider-iff_anticone_example =
    consider-iff_anticone half genesis_only 1 1 (set_bit-IsBitSet no_bits 0 tt) past-IsBitSet

is_k_cluster_lem_example : is_k_cluster half (0 ∷ 1 ∷ []) ≡ (
    all_of (accepted half) (0 ∷ 1 ∷ [])
    && all_of (λ b. leb (count_if (beside half b) (0 ∷ 1 ∷ [])) half.ghostdag_k) (0 ∷ 1 ∷ []))
is_k_cluster_lem_example = is_k_cluster_lem half (0 ∷ 1 ∷ [])

first-index : find 1 half.idx_of ≡ some 1
unfolding init find add_block select_tip Sets.erase
first-index = refl

contains-newly_blue_example :
    contains 1 (newly_blue half (snapshot_blue_flags start))
    ≡ ((block_at half 1).is_blue && not (get_or (snapshot_blue_flags start) 1 false))
contains-newly_blue_example =
    contains-newly_blue half (snapshot_blue_flags start) 1 1 half-IsChain first-index

contains-get_future_example :
    (r : List ℕ) × (get_future half 0 ≡ some r)
    × Ascends 0 r
    × ((x : ℕ) → contains x r ≡ in_past half x 0)
contains-get_future_example = contains-get_future half 0 half-IsChain

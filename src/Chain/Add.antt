-- ===== src/Chain/Add.antt =====
-- AddBlock, ProcessOrphans, GreedyBlueSet and SelectTip of dag.cc. Counters of blocks do not wrap:
-- an index is a uint32_t.
pub mod Rule
pub mod Facts
pub mod Recolour
pub mod Index
pub mod Links
pub mod Pasts
pub mod Blues
pub mod Keeps
pub mod Present
pub mod Order
pub mod Best
pub mod Greedy
pub mod Anticone
pub mod Tests
use ghostdagsim.Common.{
  ℕ, suc, zero, ◌+◌, ◌*◌, ◌%◌, ◌^◌, Bool, true, false, ◌&&◌, ◌||◌, not, List, [], ◌∷◌, ◌++◌, Option,
  none, some, length, if◌then◌else◌, foldl, ltb, leb, ◌==◌, all_of, is_some,
}
use ghostdagsim.Common.Sets
use ghostdagsim.Common.Maps.{Map, find, assign, has, at}
use ghostdagsim.Common.Maps
use ghostdagsim.BitSet.{
  BitSet, no_bits, test, set_bit, reset, or_assign, and_not, count_and, for_each_and_not,
}
use ghostdagsim.Block.{Block, default_block}
use ghostdagsim.Chain.State.{Blockchain, index_at, parents_of, past_at, blue_at}
use ghostdagsim.Chain.Sort.{topological_sort}

-- Comparisons of a number with a std::optional: an empty one is less than every number.
abbrev gt_opt : ℕ → Option ℕ → Bool
gt_opt s none = true
gt_opt s (some m) = ltb m s

abbrev eq_opt : ℕ → Option ℕ → Bool
eq_opt s none = false
eq_opt s (some m) = s == m

abbrev lt_opt : ℕ → Option ℕ → Bool
lt_opt s none = false
lt_opt s (some m) = ltb s m

-- The body of the loops for the selected parent and the selected tip: the best id so far, and its
-- score.
pub prefer : (ℕ → ℕ) → Option ℕ × Option ℕ → ℕ → Option ℕ × Option ℕ
prefer score (best, best_score) p =
    if not (is_some best_score)
      || (gt_opt (score p) best_score || (eq_opt (score p) best_score && lt_opt p best))
    then (some p, some (score p))
    else (best, best_score)

pub best_of : (ℕ → ℕ) → List ℕ → Option ℕ
unfolding prefer
best_of score ids = (foldl (prefer score) (none, none) ids).0

abbrev pub score_at : Map Block → ℕ → ℕ
score_at blocks id = (at default_block id blocks).blue_score

unfoldable pub select_tip : Blockchain → Option ℕ
unfolding best_of
select_tip c = best_of (score_at c.blocks) c.tips

-- One blue block outside the candidate's past: counted unless the candidate is in its past. The
-- walk stops once the count is above k.
pub count_anticone : Blockchain → ℕ → ℕ → ℕ → ℕ × Bool
count_anticone c ci n b =
    if not (test (past_at c b) ci) then (n + 1, not (ltb c.ghostdag_k (n + 1))) else (n, true)

pub anticone_blues : Blockchain → BitSet → ℕ → ℕ
unfolding count_anticone
anticone_blues c blue ci = for_each_and_not blue (past_at c ci) (count_anticone c ci) 0

-- The body of the loop over the merge set.
pub consider : Blockchain → BitSet → ℕ → BitSet
unfolding anticone_blues
consider c blue candidate =
    let ci = index_at c candidate in
    if leb (anticone_blues c blue ci) c.ghostdag_k then set_bit blue ci else blue

pub merge_set : Blockchain → ℕ → BitSet → BitSet
merge_set c sp_idx past = reset (and_not past (past_at c sp_idx)) sp_idx

pub greedy_blue_set : Blockchain → ℕ → ℕ → BitSet → BitSet
unfolding consider merge_set
greedy_blue_set c idx sp_idx past =
    set_bit (foldl (consider c) (blue_at c sp_idx) (topological_sort c (merge_set c sp_idx past)))
      idx

-- The union of the parents' pasts and the parents.
pub gather_past : Blockchain → List ℕ → BitSet
gather_past c parents =
    foldl (λ past p. set_bit (or_assign past (past_at c (index_at c p))) (index_at c p)) no_bits
      parents

-- `children[p].insert(block_id); tips.erase(p);`
pub link : ℕ → Map (List ℕ) × List ℕ → ℕ → Map (List ℕ) × List ℕ
link block_id (children, tips) p =
    (assign p (Sets.insert block_id (at [] p children)) children, Sets.erase p tips)

-- `for (auto &[id, b] : blocks) b.is_blue = tip_blue.test(idx_of_.at(id));`
pub recolour : Map ℕ → BitSet → Map Block → Map Block
recolour idx_of tip_blue [] = []
recolour idx_of tip_blue ((id, b) ∷ m) =
    (id, record b { is_blue = test tip_blue (at 0 id idx_of) }) ∷ recolour idx_of tip_blue m

pub recolour_all : Blockchain → Blockchain
unfolding recolour
recolour_all c = elim (select_tip c) [
  | none ↦ c
  | some tip ↦ record c { blocks = recolour c.idx_of (blue_at c (index_at c tip)) c.blocks }
]

-- The new block's entries in every index, with the blocks' colours as they were: lines 249 to 268.
pub index_block : Blockchain → Block → BitSet → Blockchain
unfolding link
index_block c b past =
    let id : ℕ = b.header.block_id in
    let idx : ℕ = length c.id_of % 2 ^ 32 in
    let linked = foldl (link id) (c.children, c.tips) (parents_of b) in
    record c {
      blocks = assign id b c.blocks;
      idx_of = assign id idx c.idx_of;
      id_of = c.id_of ++ id ∷ [];
      past = c.past ++ past ∷ [];
      children = linked.0;
      tips = Sets.insert id linked.1;
    }

-- The blue set of the new block, and the block with its selected parent: lines 270 to 287. `c` holds
-- the block's entries but no blue set of it yet.
pub colour_block : Blockchain → Block → ℕ → BitSet → BitSet × Block
unfolding best_of greedy_blue_set
colour_block c b idx past = elim (best_of (score_at c.blocks) (parents_of b)) [
  | none ↦ (set_bit no_bits idx, b)
  | some sp ↦ (greedy_blue_set c idx (index_at c sp) past, record b { selected_parent = sp })
]

-- AddBlock from the insertion on, up to the call of ProcessOrphans. While the past is gathered the
-- block's own index is in the map already, as in the code.
pub insert_block : Blockchain → Block → Blockchain
unfolding gather_past index_block colour_block recolour_all
insert_block c b =
    let id : ℕ = b.header.block_id in
    let idx : ℕ = length c.id_of % 2 ^ 32 in
    let past = gather_past (record c { idx_of = assign id idx c.idx_of }) (parents_of b) in
    let indexed = index_block c b past in
    let (blue, coloured) = colour_block indexed b idx past in
    recolour_all (record indexed {
      blocks = assign id (record coloured { blue_score = count_and past blue + 1 }) indexed.blocks;
      blue = c.blue ++ blue ∷ [];
    })

-- Every parent is in the DAG.
abbrev pub parents_known : Blockchain → Block → Bool
parents_known c b = all_of (λ p. has p c.blocks) (parents_of b)

-- `ready`: the orphans that can be added, in ascending order of their ids.
pub ready_orphans : Blockchain → Map Block → List ℕ
ready_orphans c [] = []
ready_orphans c ((id, b) ∷ m) =
    let rest = ready_orphans c m in if parents_known c b then id ∷ rest else rest

-- The loop over `ready`; `add` is AddBlock.
pub add_ready : (Blockchain → Block → Option Blockchain) → List ℕ → Blockchain → Option Blockchain
add_ready add [] c = some c
add_ready add (id ∷ ids) c = elim (find id c.orphans) [
  | none ↦ add_ready add ids c
  | some b ↦ elim (add (record c { orphans = Maps.erase id c.orphans }) b) [
    | none ↦ none
    | some c' ↦ add_ready add ids c'
  ]
]

-- AddBlock and ProcessOrphans call each other; `none` means that the fuel ran out.
mutual
  unfolding insert_block ready_orphans add_ready

  pub add_block? : ℕ → Blockchain → Block → Option Blockchain
  add_block? zero c b = none
  add_block? (suc fuel) c b = elim (parents_known c b) [
    | false ↦ some (record c { orphans = assign b.header.block_id b c.orphans })
    | true ↦ process_orphans? fuel (insert_block c b)
  ]

  -- One more round while the last one found an orphan that was ready.
  pub process_orphans? : ℕ → Blockchain → Option Blockchain
  process_orphans? zero c = none
  process_orphans? (suc fuel) c = elim (ready_orphans c c.orphans) [
    | [] ↦ some c
    | id ∷ ids ↦ elim (add_ready (add_block? fuel) (id ∷ ids) c) [
      | none ↦ none
      | some c' ↦ process_orphans? fuel c'
    ]
  ]

-- Two rounds of fuel for each orphan, and two more.
abbrev pub enough : Blockchain → ℕ
enough c = 2 * length c.orphans + 2

pub add_block : Blockchain → Block → Blockchain
unfolding add_block?
add_block c b = elim (add_block? (enough c) c b) [ none ↦ c | some c' ↦ c' ]

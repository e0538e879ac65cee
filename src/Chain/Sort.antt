-- ===== src/Chain/Sort.antt =====
-- TopologicalSort and ComputeGHOSTDAGOrdering of dag.cc: Kahn's loop, once over a queue and once
-- over a priority queue. A number of rounds bounds each loop; every round takes one block out.
pub mod Inside
use ghostdagsim.Common.{
  ℕ, suc, zero, ◌+◌, ◌-◌, ◌%◌, ◌^◌, Bool, true, false, not, List, [], ◌∷◌, ◌++◌, Option, none, some,
  length, get_or, if◌then◌else◌, foldl, ltb, leb, ◌==◌, count_if,
}
use ghostdagsim.Common.Maps.{Map, find, assign, has, at, keys}
use ghostdagsim.BitSet.{BitSet, test, for_each}
use ghostdagsim.Chain.State.{Blockchain, block_at, parents_of, children_of}

-- `std::sort`
pub place : ℕ → List ℕ → List ℕ
place x [] = x ∷ []
place x (y ∷ ys) = if leb x y then x ∷ y ∷ ys else y ∷ place x ys

pub sort : List ℕ → List ℕ
unfolding place
sort [] = []
sort (x ∷ xs) = place x (sort xs)

-- The in-degrees that are left, and the blocks that are ready.
pub record Work : Type 0 where
  pub indeg : Map ℕ
  pub ready : List ℕ

-- `if (inside(ch) && --indeg[ch] == 0) q.push(ch);` the counter is a uint64_t.
pub lower : (ℕ → Bool) → Work → ℕ → Work
lower inside w ch =
    let d : ℕ = (at 0 ch w.indeg + (2 ^ 64 - 1)) % 2 ^ 64 in
    if inside ch
    then record {
      indeg = assign ch d w.indeg;
      ready = if d == 0 then w.ready ++ ch ∷ [] else w.ready;
    }
    else w

-- The `while` loop. `pop` takes the next block, `none` of an empty queue; `none` as a result means
-- that the rounds ran out.
pub kahn :
    (List ℕ → Option (ℕ × List ℕ)) → (ℕ → List ℕ) → (ℕ → Bool) → ℕ → Work → List ℕ → Option (List ℕ)
unfolding lower
kahn pop kids inside zero w result = elim (pop w.ready) [ none ↦ some result | some _ ↦ none ]
kahn pop kids inside (suc rounds) w result = elim (pop w.ready) [
  | none ↦ some result
  | some (cur, rest) ↦
      kahn pop kids inside rounds (foldl (lower inside) (record w { ready = rest }) (kids cur))
        (result ++ cur ∷ [])
]

-- The keys whose counter is 0, in the order of the map.
pub roots : Map ℕ → List ℕ
roots [] = []
roots ((b, d) ∷ m) = let rest = roots m in if d == 0 then b ∷ rest else rest

-- `indeg[b] = ...` for every block of a list.
pub degrees : (ℕ → ℕ) → List ℕ → Map ℕ
degrees degree [] = []
degrees degree (b ∷ bs) = assign b (degree b) (degrees degree bs)

abbrev pub or_nil : Option (List ℕ) → List ℕ
or_nil none = []
or_nil (some xs) = xs

-- `std::queue`
abbrev pub pop_front : List ℕ → Option (ℕ × List ℕ)
pop_front [] = none
pop_front (x ∷ xs) = some (x, xs)

-- The block has an index, and the index is in the subset.
abbrev pub in_subset : Blockchain → BitSet → ℕ → Bool
in_subset c subset id = elim (find id c.idx_of) [ none ↦ false | some i ↦ test subset i ]

abbrev pub subset_ids : Blockchain → BitSet → List ℕ
subset_ids c subset = sort (for_each subset (λ out i. out ++ get_or c.id_of i 0 ∷ []) [])

abbrev pub subset_degrees : Blockchain → BitSet → Map ℕ
subset_degrees c subset =
    degrees (λ b. count_if (in_subset c subset) (parents_of (block_at c b))) (subset_ids c subset)

pub topological_sort? : Blockchain → BitSet → Option (List ℕ)
unfolding kahn roots degrees sort
topological_sort? c subset =
    let indeg = subset_degrees c subset in
    kahn pop_front (children_of c) (in_subset c subset) (length (subset_ids c subset))
      (record { indeg = indeg; ready = roots indeg }) []

pub topological_sort : Blockchain → BitSet → List ℕ
unfolding topological_sort?
topological_sort c subset = or_nil (topological_sort? c subset)

-- `cmp(a, b)`: `a` comes later than `b`.
pub later : Blockchain → ℕ → ℕ → Bool
later c a b =
    let ba = block_at c a in
    let bb = block_at c b in
    if not (ba.blue_score == bb.blue_score)
    then ltb ba.blue_score bb.blue_score
    else (if not (ba.header.time_created == bb.header.time_created)
        then ltb bb.header.time_created ba.header.time_created
        else ltb b a)

-- `top()` of a priority queue: no other element comes before it.
pub top : (ℕ → ℕ → Bool) → ℕ → List ℕ → ℕ
top cmp x [] = x
top cmp x (y ∷ ys) = top cmp (if cmp x y then y else x) ys

pub remove_one : ℕ → List ℕ → List ℕ
remove_one x [] = []
remove_one x (y ∷ ys) = let rest = remove_one x ys in if x == y then ys else y ∷ rest

-- `std::priority_queue`
pub pop_top : (ℕ → ℕ → Bool) → List ℕ → Option (ℕ × List ℕ)
unfolding top remove_one
pop_top cmp [] = none
pop_top cmp (x ∷ xs) = some (top cmp x xs, remove_one (top cmp x xs) (x ∷ xs))

abbrev pub chain_degrees : Blockchain → Map ℕ
chain_degrees c =
    degrees (λ b. count_if (λ p. has p c.blocks) (parents_of (block_at c b))) (keys c.blocks)

pub ghostdag_ordering? : Blockchain → Option (List ℕ)
unfolding kahn roots degrees pop_top later
ghostdag_ordering? c =
    let indeg = chain_degrees c in
    kahn (pop_top (later c)) (children_of c) (λ _. true) (length c.blocks)
      (record { indeg = indeg; ready = roots indeg }) []

pub ghostdag_ordering : Blockchain → List ℕ
unfolding ghostdag_ordering?
ghostdag_ordering c = or_nil (ghostdag_ordering? c)

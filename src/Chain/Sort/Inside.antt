-- ===== src/Chain/Sort/Inside.antt =====
-- Kahn's loop puts out only blocks of the subset.
use ghostdagsim.Common.{
  ℕ, zero, suc, ◌≡◌, refl, ap, sym, ◌∙◌, Bool, true, ◌||◌, List, [], ◌∷◌, ◌++◌, Option, none, some,
  length, get_or, arith, ◌==◌, foldl, contains, contains-append, Bool-cases, Option-cases, inl, inr,
  ◌⊎◌, count_if,
}
use ghostdagsim.Common.Maps.{Map, find, has, keys, contains-keys, find-assign}
use ghostdagsim.BitSet.{BitSet, test, for_each}
use ghostdagsim.BitSet.Update.{IsBitSet}
use ghostdagsim.BitSet.Members.{members, contains-members}
use ghostdagsim.BitSet.Loops.{for_each_lem}
use ghostdagsim.Chain.State.{Blockchain, block_at, parents_of, children_of}
use ghostdagsim.Chain.Sort.{
  Work, lower, kahn, roots, degrees, or_nil, pop_front, in_subset, place, sort, subset_ids,
  subset_degrees, topological_sort?, topological_sort,
}

-- Every element passes the test.
abbrev pub AreIn : (ℕ → Bool) → List ℕ → Type 0
AreIn inside xs = (x : ℕ) → contains x xs ≡ true → inside x ≡ true

AreIn-append : (p : ℕ → Bool) (xs ys : List ℕ) → AreIn p xs → AreIn p ys → AreIn p (xs ++ ys)
AreIn-append p xs ys h k x m = elim (Bool-cases (contains x xs)) [
  | inl e ↦ h x e
  | inr e ↦ k x (ground (arith, contains-append x xs ys))
]

AreIn-one : (p : ℕ → Bool) (x : ℕ) → p x ≡ true → AreIn p (x ∷ [])
AreIn-one p x h y m = ap p (ground arith) ∙ h

lower-AreIn : (p : ℕ → Bool) (w : Work) (ch : ℕ) → AreIn p w.ready → AreIn p (lower p w ch).ready
unfolding lower
lower-AreIn p w ch h x m = elim (Bool-cases (p ch)) [
  | inl e ↦
      AreIn-append p w.ready (ch ∷ []) h (AreIn-one p ch e) x
        (ground (arith, contains-append x w.ready (ch ∷ [])))
  | inr e ↦ h x (ground arith)
]

lower_all-AreIn :
    (p : ℕ → Bool) (chs : List ℕ) (w : Work)
    → AreIn p w.ready
    → AreIn p (foldl (lower p) w chs).ready
lower_all-AreIn p [] w h = h
lower_all-AreIn p (ch ∷ chs) w h = lower_all-AreIn p chs (lower p w ch) (lower-AreIn p w ch h)

-- What a queue must do: hand out an element that it held, and keep no other.
abbrev pub Pops : (List ℕ → Option (ℕ × List ℕ)) → Type 0
Pops pop =
    (xs : List ℕ) (x : ℕ) (rest : List ℕ)
    → pop xs ≡ some (x, rest)
    → (contains x xs ≡ true) × ((y : ℕ) → contains y rest ≡ true → contains y xs ≡ true)

pub pop_front-Pops : Pops pop_front
pop_front-Pops [] x rest e = cc
pop_front-Pops (z ∷ xs) x rest e = (ground arith, λ y m. ground arith)

kahn-AreIn :
    (pop : List ℕ → Option (ℕ × List ℕ)) (kids : ℕ → List ℕ) (p : ℕ → Bool) (rounds : ℕ) (w : Work)
    (result out : List ℕ)
    → Pops pop
    → AreIn p w.ready
    → AreIn p result
    → kahn pop kids p rounds w result ≡ some out
    → AreIn p out
unfolding kahn
kahn-AreIn pop kids p zero w result out pops h k e = λ x m. k x (ground arith)
kahn-AreIn pop kids p (suc rounds) w result out pops h k e = elim (Option-cases (pop w.ready)) [
  | inl stop ↦ λ x m. k x (ground arith)
  | inr ((cur, rest), go) ↦
      let (first, others) = pops w.ready cur rest go in
      kahn-AreIn pop kids p rounds _ (result ++ cur ∷ []) out pops
        (lower_all-AreIn p (kids cur) (record w { ready = rest }) (λ y q. h y (others y q)))
        (AreIn-append p result (cur ∷ []) k (AreIn-one p cur (h cur first))) (rw (go, kahn) at e)
]

contains-place : (y x : ℕ) (xs : List ℕ) → contains y (place x xs) ≡ ((y == x) || contains y xs)
unfolding place
contains-place y x [] = refl
contains-place y x (z ∷ xs) = ground (arith, contains-place y x xs)

pub contains-sort : (y : ℕ) (xs : List ℕ) → contains y (sort xs) ≡ contains y xs
unfolding sort
contains-sort y [] = refl
contains-sort y (x ∷ xs) = ground (arith, contains-place y x (sort xs), contains-sort y xs)

pub has-degrees : (f : ℕ → ℕ) (bs : List ℕ) (y : ℕ) → has y (degrees f bs) ≡ contains y bs
unfolding degrees find
has-degrees f [] y = refl
has-degrees f (b ∷ bs) y = ground (arith, find-assign y b (f b) (degrees f bs), has-degrees f bs y)

contains-roots : (y : ℕ) (m : Map ℕ) → contains y (roots m) ≡ true → contains y (keys m) ≡ true
unfolding roots
contains-roots y [] h = h
contains-roots y ((b, d) ∷ m) h = ground (arith, contains-roots y m)

-- The loop that collects the ids of a set's members.
contains-collect :
    (c : Blockchain) (is out : List ℕ) (x : ℕ)
    → contains x (foldl (λ out i. out ++ get_or c.id_of i 0 ∷ []) out is) ≡ true
    → (contains x out ≡ true) ⊎ ((i : ℕ) × (contains i is ≡ true) × (get_or c.id_of i 0 ≡ x))
contains-collect c [] out x h = inl h
contains-collect c (i ∷ is) out x h =
    elim (contains-collect c is (out ++ get_or c.id_of i 0 ∷ []) x h) [
      | inl m ↦ elim (Bool-cases (contains x out)) [
        | inl e ↦ inl e
        | inr e ↦
            inr (i, ground arith, ground (arith, contains-append x out (get_or c.id_of i 0 ∷ [])))
      ]
      | inr (k, m, e) ↦ inr (k, ground arith, e)
    ]

-- Every member of the set has an id, and the id has that index.
abbrev pub IsKnown : Blockchain → BitSet → Type 0
IsKnown c s = (i : ℕ) → test s i ≡ true → find (get_or c.id_of i 0) c.idx_of ≡ some i

-- The ids of a set's members are exactly the ids whose index is in it.
pub contains-subset_ids :
    (c : Blockchain) (s : BitSet)
    → IsBitSet s
    → IsKnown c s
    → AreIn (in_subset c s) (subset_ids c s)
contains-subset_ids c s w k x m =
    let raw = sym (contains-sort x (for_each s (λ out i. out ++ get_or c.id_of i 0 ∷ []) [])) ∙ m in
    let listed =
      ap (contains x) (sym (for_each_lem s (λ out i. out ++ get_or c.id_of i 0 ∷ []) [] w)) ∙ raw in
    elim (contains-collect c (members s) [] x listed) [
      | inl absent ↦ cc
      | inr (i, is_in, e) ↦
          let t : test s i ≡ true = sym (contains-members s i) ∙ is_in in
          ap (in_subset c s) (sym e) ∙ ground (arith, k i t)
    ]

kahn-or_nil :
    (inside : ℕ → Bool) (r : Option (List ℕ))
    → ((out : List ℕ) → r ≡ some out → AreIn inside out)
    → AreIn inside (or_nil r)
kahn-or_nil inside none h = λ x m. cc
kahn-or_nil inside (some out) h = h out refl

-- So the sorted blocks are in the subset.
pub topological_sort-AreIn :
    (c : Blockchain) (s : BitSet)
    → IsBitSet s
    → IsKnown c s
    → AreIn (in_subset c s) (topological_sort c s)
unfolding topological_sort topological_sort?
topological_sort-AreIn c s w k = kahn-or_nil (in_subset c s) (topological_sort? c s) λ out e.
    kahn-AreIn pop_front (children_of c) (in_subset c s) (length (subset_ids c s)) _ [] out
      pop_front-Pops
      (λ x m. contains-subset_ids c s w k x (
        sym (
          has-degrees (λ b. count_if (in_subset c s) (parents_of (block_at c b))) (subset_ids c s)
            x)
        ∙ sym (contains-keys x (subset_degrees c s))
        ∙ contains-roots x (subset_degrees c s) m))
      (λ x m. cc) e

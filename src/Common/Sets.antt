-- ===== src/Common/Sets.antt =====
-- std::set<uint64_t> as the ascending list of its elements, which is the order of its iterators.
use Prim.Native.Nat.{ℕ, suc, ◌≤◌}
use mathlib.Core.Path.{◌≡◌, refl}
use mathlib.Core.Bool.{not, ◌&&◌, ◌||◌}
use mathlib.Core.List.{List, [], ◌∷◌, foldl}
use native.Mathlib.Omega.{arith}
use ghostdagsim.Common.Tests.{ltb, ◌==◌, if◌then◌else◌}
use ghostdagsim.Common.Lists.{contains, Ascends, Ascends-mono}

unfoldable pub insert : ℕ → List ℕ → List ℕ
insert x [] = x ∷ []
insert x (y ∷ ys) = if ltb x y then x ∷ y ∷ ys else (if x == y then y ∷ ys else y ∷ insert x ys)

unfoldable pub erase : ℕ → List ℕ → List ℕ
erase x [] = []
erase x (y ∷ ys) = let rest = erase x ys in if x == y then rest else y ∷ rest

-- A set built from a sequence.
abbrev pub from_list : List ℕ → List ℕ
from_list [] = []
from_list (x ∷ xs) = insert x (from_list xs)

pub contains-insert :
    (j x : ℕ) (xs : List ℕ) → contains j (insert x xs) ≡ ((j == x) || contains j xs)
unfolding insert
contains-insert j x [] = refl
contains-insert j x (y ∷ ys) = ground (arith, contains-insert j x ys)

pub contains-erase :
    (j x : ℕ) (xs : List ℕ) → contains j (erase x xs) ≡ (not (j == x) && contains j xs)
unfolding erase
contains-erase j x [] = ground arith
contains-erase j x (y ∷ ys) = ground (arith, contains-erase j x ys)

pub contains-from_list : (j : ℕ) (xs : List ℕ) → contains j (from_list xs) ≡ contains j xs
contains-from_list j [] = refl
contains-from_list j (x ∷ xs) =
    ground (arith, contains-insert j x (from_list xs), contains-from_list j xs)

pub insert-Ascends : (n x : ℕ) (xs : List ℕ) → n ≤ x → Ascends n xs → Ascends n (insert x xs)
unfolding insert
insert-Ascends n x [] h a = (h, tt)
insert-Ascends n x (y ∷ ys) h a = ground (arith, insert-Ascends (suc y) x ys)

pub erase-Ascends : (n x : ℕ) (xs : List ℕ) → Ascends n xs → Ascends n (erase x xs)
unfolding erase
erase-Ascends n x [] a = tt
erase-Ascends n x (y ∷ ys) a =
    ground (arith, erase-Ascends (suc y) x ys, Ascends-mono n (suc y) (erase x ys))

-- A sequence of insertions, and one of erasures.
abbrev pub insert_all : List ℕ → List ℕ → List ℕ
insert_all = foldl (λ s id. insert id s)

abbrev pub erase_all : List ℕ → List ℕ → List ℕ
erase_all = foldl (λ s id. erase id s)

pub contains-insert_all :
    (j : ℕ) (s ids : List ℕ) → contains j (insert_all s ids) ≡ (contains j s || contains j ids)
contains-insert_all j s [] = ground arith
contains-insert_all j s (x ∷ xs) =
    ground (arith, contains-insert_all j (insert x s) xs, contains-insert j x s)

pub contains-erase_all :
    (j : ℕ) (s ids : List ℕ) → contains j (erase_all s ids) ≡ (contains j s && not (contains j ids))
contains-erase_all j s [] = ground arith
contains-erase_all j s (x ∷ xs) =
    ground (arith, contains-erase_all j (erase x s) xs, contains-erase j x s)

pub insert_all-Ascends : (s ids : List ℕ) → Ascends 0 s → Ascends 0 (insert_all s ids)
insert_all-Ascends s [] h = h
insert_all-Ascends s (x ∷ xs) h =
    insert_all-Ascends (insert x s) xs (insert-Ascends 0 x s (omega arith) h)

pub erase_all-Ascends : (s ids : List ℕ) → Ascends 0 s → Ascends 0 (erase_all s ids)
erase_all-Ascends s [] h = h
erase_all-Ascends s (x ∷ xs) h = erase_all-Ascends (erase x s) xs (erase-Ascends 0 x s h)

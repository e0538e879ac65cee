-- ===== src/Common/Lists.antt =====
-- Lists measured and indexed by native numbers, and predicates on lists by recursion.
use Prim.Native.Nat.{ℕ, zero, suc, ◌+◌, ◌-◌, ◌≤◌, ◌<◌}
use mathlib.Core.Path.{◌≡◌, refl, ap, ap₂, sym, ◌∙◌}
use mathlib.Core.Logic.{◌≢◌, ◌⊎◌, inl, inr}
use mathlib.Core.Bool.{Bool, true, false, ◌&&◌, ◌||◌, false≢true}
use ghostdagsim.Common.Tests.{◌==◌, if◌then◌else◌, Bool-cases, eq_of_==}
use mathlib.Core.List.{List, [], ◌∷◌, ◌++◌}
use native.Mathlib.Omega.{arith}

module _ {ℓ} {A : Type ℓ} where
  abbrev pub length : List A → ℕ
  length [] = 0
  length (x ∷ xs) = suc (length xs)

  -- `d` stands for a read out of range.
  abbrev pub get_or : List A → ℕ → A → A
  get_or [] i d = d
  get_or (x ∷ xs) zero d = x
  get_or (x ∷ xs) (suc i) d = get_or xs i d

  -- A write out of range changes nothing.
  abbrev pub set : List A → ℕ → A → List A
  set [] i v = []
  set (x ∷ xs) zero v = v ∷ xs
  set (x ∷ xs) (suc i) v = x ∷ set xs i v

  abbrev pub replicate : ℕ → A → List A
  replicate zero a = []
  replicate (suc n) a = a ∷ replicate n a

  abbrev pub drop : ℕ → List A → List A
  drop zero xs = xs
  drop (suc n) [] = []
  drop (suc n) (x ∷ xs) = drop n xs

  abbrev pub take : ℕ → List A → List A
  take zero xs = []
  take (suc n) [] = []
  take (suc n) (x ∷ xs) = x ∷ take n xs

  -- Every entry satisfies `P`.
  abbrev pub All {κ} : (A → Type κ) → List A → Type κ
  All P [] = Unit
  All P (x ∷ xs) = P x × All P xs

  pub length-append : (xs ys : List A) → length (xs ++ ys) ≡ length xs + length ys
  length-append [] ys = omega arith
  length-append (x ∷ xs) ys = omega (arith, length-append xs ys)

  pub List-cases : (xs : List A) → (xs ≡ []) ⊎ ((x : A) × (rest : List A) × (xs ≡ x ∷ rest))
  List-cases [] = inl refl
  List-cases (x ∷ xs) = inr (x, xs, refl)

  pub nil_of_length : (xs : List A) → length xs ≤ 0 → xs ≡ []
  nil_of_length [] h = refl
  nil_of_length (x ∷ xs) h = absurd (omega arith)

  pub length-set : (xs : List A) (i : ℕ) (v : A) → length (set xs i v) ≡ length xs
  length-set [] i v = refl
  length-set (x ∷ xs) zero v = refl
  length-set (x ∷ xs) (suc i) v = ap suc (length-set xs i v)

  pub length-replicate : (n : ℕ) (a : A) → length (replicate n a) ≡ n
  length-replicate zero a = refl
  length-replicate (suc n) a = ap suc (length-replicate n a)

  pub get_or-set_self :
      (xs : List A) (i : ℕ) (v d : A) → i < length xs → get_or (set xs i v) i d ≡ v
  get_or-set_self [] i v d h = absurd (omega arith)
  get_or-set_self (x ∷ xs) zero v d h = refl
  get_or-set_self (x ∷ xs) (suc i) v d h = get_or-set_self xs i v d (omega arith)

  pub get_or-set_ne :
      (xs : List A) (i j : ℕ) (v d : A) → i ≢ j → get_or (set xs i v) j d ≡ get_or xs j d
  get_or-set_ne [] i j v d ne = refl
  get_or-set_ne (x ∷ xs) zero zero v d ne = absurd (ne refl)
  get_or-set_ne (x ∷ xs) zero (suc j) v d ne = refl
  get_or-set_ne (x ∷ xs) (suc i) zero v d ne = refl
  get_or-set_ne (x ∷ xs) (suc i) (suc j) v d ne = get_or-set_ne xs i j v d (λ e. ne (ap suc e))

  pub get_or_beyond : (xs : List A) (i : ℕ) (d : A) → length xs ≤ i → get_or xs i d ≡ d
  get_or_beyond [] i d h = refl
  get_or_beyond (x ∷ xs) zero d h = absurd (omega arith)
  get_or_beyond (x ∷ xs) (suc i) d h = get_or_beyond xs i d (omega arith)

  pub get_or-append_left :
      (xs ys : List A) (i : ℕ) (d : A) → i < length xs → get_or (xs ++ ys) i d ≡ get_or xs i d
  get_or-append_left [] ys i d h = absurd (omega arith)
  get_or-append_left (x ∷ xs) ys zero d h = refl
  get_or-append_left (x ∷ xs) ys (suc i) d h = get_or-append_left xs ys i d (omega arith)

  pub get_or-append_last : (xs : List A) (x d : A) → get_or (xs ++ x ∷ []) (length xs) d ≡ x
  get_or-append_last [] x d = refl
  get_or-append_last (y ∷ xs) x d = get_or-append_last xs x d

  pub get_or-replicate : (n i : ℕ) (a : A) → get_or (replicate n a) i a ≡ a
  get_or-replicate zero i a = refl
  get_or-replicate (suc n) zero a = refl
  get_or-replicate (suc n) (suc i) a = get_or-replicate n i a

  pub take-drop : (n : ℕ) (xs : List A) → take n xs ++ drop n xs ≡ xs
  take-drop zero xs = refl
  take-drop (suc n) [] = refl
  take-drop (suc n) (x ∷ xs) = ap (◌∷◌ x) (take-drop n xs)

  pub length-take : (n : ℕ) (xs : List A) → n ≤ length xs → length (take n xs) ≡ n
  length-take zero xs h = refl
  length-take (suc n) [] h = absurd (omega arith)
  length-take (suc n) (x ∷ xs) h = ap suc (length-take n xs (omega arith))

  pub length-drop : (n : ℕ) (xs : List A) → length (drop n xs) ≡ length xs - n
  length-drop zero xs = omega arith
  length-drop (suc n) [] = omega arith
  length-drop (suc n) (x ∷ xs) = omega (arith, length-drop n xs)

  pub take-append : (xs ys : List A) → take (length xs) (xs ++ ys) ≡ xs
  take-append [] ys = refl
  take-append (x ∷ xs) ys = ap (◌∷◌ x) (take-append xs ys)

  pub All-append {κ} : (P : A → Type κ) (xs ys : List A) → All P xs → All P ys → All P (xs ++ ys)
  All-append P [] ys p q = q
  All-append P (x ∷ xs) ys p q = (p.0, All-append P xs ys p.1 q)

  pub All-get_or {κ} :
      (P : A → Type κ) (xs : List A) (i : ℕ) (d : A) → P d → All P xs → P (get_or xs i d)
  All-get_or P [] i d pd p = pd
  All-get_or P (x ∷ xs) zero d pd p = p.0
  All-get_or P (x ∷ xs) (suc i) d pd p = All-get_or P xs i d pd p.1

  pub All-set {κ} :
      (P : A → Type κ) (xs : List A) (i : ℕ) (v : A) → P v → All P xs → All P (set xs i v)
  All-set P [] i v pv p = tt
  All-set P (x ∷ xs) zero v pv p = (pv, p.1)
  All-set P (x ∷ xs) (suc i) v pv p = (p.0, All-set P xs i v pv p.1)

  pub All-replicate {κ} : (P : A → Type κ) (n : ℕ) (a : A) → P a → All P (replicate n a)
  All-replicate P zero a pa = tt
  All-replicate P (suc n) a pa = (pa, All-replicate P n a pa)

module _ {ℓ κ} {A : Type ℓ} {S : Type κ} where
  -- A left fold that stops when the step returns false.
  abbrev pub fold_until : (S → A → S × Bool) → S → List A → S × Bool
  fold_until f s [] = (s, true)
  fold_until f s (x ∷ xs) =
      let (s', more) = f s x in let rest = fold_until f s' xs in if more then rest else (s', false)

-- How many numbers pass a test.
abbrev pub count_if : (ℕ → Bool) → List ℕ → ℕ
count_if p [] = 0
count_if p (x ∷ xs) = (if p x then 1 else 0) + count_if p xs

pub count_if-append :
    (p : ℕ → Bool) (xs ys : List ℕ) → count_if p (xs ++ ys) ≡ count_if p xs + count_if p ys
count_if-append p [] ys = omega arith
count_if-append p (x ∷ xs) ys = omega (arith, count_if-append p xs ys)

-- Membership of a number, as a test.
abbrev pub contains : ℕ → List ℕ → Bool
contains i [] = false
contains i (x ∷ xs) = (i == x) || contains i xs

pub contains-append :
    (i : ℕ) (xs ys : List ℕ) → contains i (xs ++ ys) ≡ (contains i xs || contains i ys)
contains-append i [] ys = refl
contains-append i (x ∷ xs) ys = ground (arith, contains-append i xs ys)

-- Strictly ascending, and not below `n`.
abbrev pub Ascends : ℕ → List ℕ → Type 0
Ascends n [] = Unit
Ascends n (x ∷ xs) = (n ≤ x) × Ascends (suc x) xs

pub Ascends-mono : (m n : ℕ) (xs : List ℕ) → m ≤ n → Ascends n xs → Ascends m xs
Ascends-mono m n [] h p = tt
Ascends-mono m n (x ∷ xs) h p = (omega arith, p.1)

pub Ascends-append :
    (n m : ℕ) (xs ys : List ℕ)
    → Ascends n xs
    → ((i : ℕ) → contains i xs ≡ true → i < m)
    → n ≤ m
    → Ascends m ys
    → Ascends n (xs ++ ys)
Ascends-append n m [] ys p below h q = Ascends-mono n m ys h q
Ascends-append n m (x ∷ xs) ys p below h q = (
  p.0,
  Ascends-append (suc x) m xs ys p.1 (λ i c. below i (ground arith)) (below x (ground arith)) q,
)

pub count_if_none :
    (p : ℕ → Bool) (n : ℕ) (xs : List ℕ)
    → Ascends n xs
    → ((i : ℕ) → n ≤ i → p i ≡ false)
    → count_if p xs ≡ 0
count_if_none p n [] a h = refl
count_if_none p n (x ∷ xs) a h =
    rw (h x a.0) (omega (arith, count_if_none p (suc x) xs a.1 (λ i hi. h i (omega arith))))

-- Some number passes a test.
abbrev pub any_of : (ℕ → Bool) → List ℕ → Bool
any_of p [] = false
any_of p (x ∷ xs) = p x || any_of p xs

-- Every number passes a test.
abbrev pub all_of : (ℕ → Bool) → List ℕ → Bool
all_of p [] = true
all_of p (x ∷ xs) = p x && all_of p xs

pub all_of-contains :
    (q : ℕ → Bool) (x : ℕ) (xs : List ℕ) → all_of q xs ≡ true → contains x xs ≡ true → q x ≡ true
all_of-contains q x [] h m = cc
all_of-contains q x (y ∷ xs) h m = elim (Bool-cases (x == y)) [
  | inl e ↦ ap q (eq_of_== x y e) ∙ ground arith
  | inr e ↦ all_of-contains q x xs (ground arith) (ground arith)
]

pub all_of_each :
    (q : ℕ → Bool) (xs : List ℕ)
    → ((x : ℕ) → contains x xs ≡ true → q x ≡ true)
    → all_of q xs ≡ true
all_of_each q [] h = refl
all_of_each q (x ∷ xs) h =
    let rest = all_of_each q xs (λ y m. h y (ground arith)) in ground (arith, h x)

abbrev pub is_nil : List ℕ → Bool
is_nil [] = true
is_nil (x ∷ xs) = false

pub is_nil_of_contains : (xs : List ℕ) → ((x : ℕ) → contains x xs ≡ false) → is_nil xs ≡ true
is_nil_of_contains [] h = refl
is_nil_of_contains (x ∷ xs) h = ground (arith, h x)

pub any_of_congr :
    (f g : ℕ → Bool) (xs : List ℕ)
    → ((x : ℕ) → contains x xs ≡ true → f x ≡ g x)
    → any_of f xs ≡ any_of g xs
any_of_congr f g [] h = refl
any_of_congr f g (x ∷ xs) h =
    let first = h x (ground arith) in
    let rest = any_of_congr f g xs (λ y m. h y (ground arith)) in rw (first, rest)

pub any_of-eq-true :
    (f : ℕ → Bool) (xs : List ℕ)
    → any_of f xs ≡ true
    → (x : ℕ) × (contains x xs ≡ true) × (f x ≡ true)
any_of-eq-true f [] h = cc
any_of-eq-true f (x ∷ xs) h = elim (Bool-cases (f x)) [
  | inl e ↦ (x, ground arith, e)
  | inr e ↦ let (y, m, p) = any_of-eq-true f xs (ground arith) in (y, ground arith, p)
]

pub any_of-contains :
    (f : ℕ → Bool) (x : ℕ) (xs : List ℕ) → contains x xs ≡ true → f x ≡ true → any_of f xs ≡ true
any_of-contains f x [] m p = cc
any_of-contains f x (y ∷ xs) m p = elim (Bool-cases (x == y)) [
  | inl e ↦ ground (arith, ap f (eq_of_== x y e))
  | inr e ↦ ground (arith, any_of-contains f x xs)
]

-- The numbers that pass a test, in order.
abbrev pub keep : (ℕ → Bool) → List ℕ → List ℕ
keep p [] = []
keep p (x ∷ xs) = if p x then x ∷ keep p xs else keep p xs

pub contains-keep :
    (p : ℕ → Bool) (i : ℕ) (xs : List ℕ) → contains i (keep p xs) ≡ (contains i xs && p i)
contains-keep p i [] = refl
contains-keep p i (x ∷ xs) = elim (Bool-cases (i == x)) [
  | inl e ↦ ground (arith, contains-keep p i xs, ap p (eq_of_== i x e))
  | inr e ↦ ground (arith, contains-keep p i xs)
]

pub keep-Ascends : (p : ℕ → Bool) (n : ℕ) (xs : List ℕ) → Ascends n xs → Ascends n (keep p xs)
keep-Ascends p n [] a = tt
keep-Ascends p n (x ∷ xs) a = elim (Bool-cases (p x)) [
  | inl e ↦ rw e (a.0, keep-Ascends p (suc x) xs a.1)
  | inr e ↦ rw e (Ascends-mono n (suc x) (keep p xs) (omega arith) (keep-Ascends p (suc x) xs a.1))
]

pub not_contains_below : (n i : ℕ) (xs : List ℕ) → Ascends n xs → i < n → contains i xs ≡ false
not_contains_below n i [] a h = refl
not_contains_below n i (x ∷ xs) a h = ground (arith, not_contains_below (suc x) i xs)

-- An ascending list is determined by what it contains.
pub Ascends-eq_of_contains :
    (m n : ℕ) (xs ys : List ℕ)
    → Ascends m xs
    → Ascends n ys
    → ((i : ℕ) → contains i xs ≡ contains i ys)
    → xs ≡ ys
Ascends-eq_of_contains m n [] [] a b h = refl
Ascends-eq_of_contains m n [] (y ∷ ys) a b h = absurd (false≢true (h y ∙ ground arith))
Ascends-eq_of_contains m n (x ∷ xs) [] a b h = absurd (false≢true (sym (h x) ∙ ground arith))
Ascends-eq_of_contains m n (x ∷ xs) (y ∷ ys) a b h =
    let heads : x ≡ y =
      ground (
        arith,
        h x,
        h y,
        not_contains_below (suc y) x ys b.1,
        not_contains_below (suc x) y xs a.1,
      ) in
    ap₂ ◌∷◌ heads (
      Ascends-eq_of_contains (suc x) (suc y) xs ys a.1 b.1 λ i.
        ground
          (arith, h i, not_contains_below (suc x) i xs a.1, not_contains_below (suc y) i ys b.1))

pub count_if-keep :
    (p q : ℕ → Bool) (xs : List ℕ) → count_if q (keep p xs) ≡ count_if (λ i. p i && q i) xs
count_if-keep p q [] = refl
count_if-keep p q (x ∷ xs) = ground (arith, count_if-keep p q xs)

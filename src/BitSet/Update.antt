-- ===== src/BitSet/Update.antt =====
-- `set`, `reset`, `|=` and `and_not`, seen through `test`.
use native.Mathlib.Nat.{pow-le-pow_right}
use ghostdagsim.Common.{
  ℕ, zero, suc, ◌+◌, ◌-◌, ◌/◌, ◌%◌, ◌^◌, ◌<◌, ◌≤◌, ◌≡◌, refl, ap, sym, ◌∙◌, bit_and, bit_or, false,
  not, ◌&&◌, ◌||◌, List, [], ◌∷◌, ◌++◌, length, get_or, set, replicate, arith, ltb, ◌==◌,
  if◌then◌else◌, length-append, length-replicate, get_or-set_self, get_or-set_ne, get_or_beyond,
  All-append, All-replicate, All-set, All-get_or, Bool-cases, inl, inr, get_or-replicate, eq_of_==,
  ==-refl, false≢true,
}
use ghostdagsim.Common.Bits.{
  bit, bit-lt, bit-shift, bit-bit_or, bit-bit_and, bit-complement, bit-zero, bit-pow_self,
  bit-pow_ne, bit_or-lt, bit_and-le,
}
use ghostdagsim.BitSet.{BitSet, no_bits, all_ones, resize, test, set_bit, reset, or_assign, and_not}
use ghostdagsim.BitSet.Words.{
  AreWords, digit, digit-or_words, or_words-AreWords, digit-and_not_words, and_not_words-AreWords,
}

abbrev pub IsBitSet : BitSet → Type 0
IsBitSet b = AreWords b.words

pub test-digit : (b : BitSet) (i : ℕ) → test b i ≡ (digit b.words (i / 64) (i % 64) == 1)
unfolding test
test-digit b i = ground (
  arith,
  bit-shift (get_or b.words (i / 64) 0) (i % 64),
  get_or_beyond b.words (i / 64) 0,
  bit-zero (i % 64),
)

pub test-no_bits : (i : ℕ) → test no_bits i ≡ false
test-no_bits i = ground (arith, test-digit no_bits i, bit-zero (i % 64))

get_or-append-replicate : (ws : List ℕ) (m w : ℕ) → get_or (ws ++ replicate m 0) w 0 ≡ get_or ws w 0
get_or-append-replicate [] m w = get_or-replicate m w 0
get_or-append-replicate (x ∷ ws) m zero = refl
get_or-append-replicate (x ∷ ws) m (suc w) = get_or-append-replicate ws m w

length-resize : (ws : List ℕ) (n : ℕ) → length ws ≤ n → length (resize ws n) ≡ n
length-resize ws n h = omega (
  arith,
  length-append ws (replicate (n - length ws) 0),
  length-replicate {A = ℕ} (n - length ws) 0,
)

resize-AreWords : (ws : List ℕ) (n : ℕ) → AreWords ws → AreWords (resize ws n)
resize-AreWords ws n p =
    All-append (λ w. w < 2 ^ 64) ws (replicate (n - length ws) 0) p
      (All-replicate (λ w. w < 2 ^ 64) (n - length ws) 0 (omega arith))

-- The digits after a write to word `w`.
digit-set :
    (ws : List ℕ) (w v j k : ℕ)
    → w < length ws
    → digit (set ws w v) j k ≡ (if w == j then bit v k else digit ws j k)
digit-set ws w v j k h = elim (Bool-cases (w == j)) [
  | inl e ↦ rw e (rw (← (eq_of_== w j e)) (ap (λ (t : ℕ). bit t k) (get_or-set_self ws w v 0 h)))
  | inr e ↦ rw e (
      ap (λ (t : ℕ). bit t k)
        (get_or-set_ne ws w j v 0 (λ p. false≢true (sym e ∙ ap (λ t. w == t) (sym p) ∙ ==-refl w))))
]

two-pow-lt : (k : ℕ) → k < 64 → 2 ^ k < 2 ^ 64
two-pow-lt k h =
    let p : 2 ^ k ≤ 2 ^ 63 = pow-le-pow_right (omega arith) {i = k} {j = 63} (omega arith) in
    omega arith

abbrev pub with_bit : List ℕ → ℕ → List ℕ
with_bit ws i = set ws (i / 64) (bit_or (get_or ws (i / 64) 0) (2 ^ (i % 64)))

abbrev without_bit : List ℕ → ℕ → List ℕ
without_bit ws i = set ws (i / 64) (bit_and (get_or ws (i / 64) 0) (all_ones - 2 ^ (i % 64)))

pub digit-with_bit :
    (ws : List ℕ) (i j : ℕ)
    → i / 64 < length ws
    → digit (with_bit ws i) (j / 64) (j % 64) ≡ (if i == j then 1 else digit ws (j / 64) (j % 64))
digit-with_bit ws i j h =
    digit-set ws (i / 64) (bit_or (get_or ws (i / 64) 0) (2 ^ (i % 64))) (j / 64) (j % 64) h
    ∙ ground (
      arith,
      bit-bit_or (get_or ws (i / 64) 0) (2 ^ (i % 64)) (j % 64),
      bit-pow_self (i % 64),
      bit-pow_ne (i % 64) (j % 64),
      bit-lt (get_or ws (i / 64) 0) (j % 64),
    )

digit-without_bit :
    (ws : List ℕ) (i j : ℕ)
    → i / 64 < length ws
    → digit (without_bit ws i) (j / 64) (j % 64)
      ≡ (if i == j then 0 else digit ws (j / 64) (j % 64))
digit-without_bit ws i j h =
    digit-set ws (i / 64) (bit_and (get_or ws (i / 64) 0) (all_ones - 2 ^ (i % 64))) (j / 64)
      (j % 64) h
    ∙ ground (
      arith,
      bit-bit_and (get_or ws (i / 64) 0) (all_ones - 2 ^ (i % 64)) (j % 64),
      bit-complement 64 (2 ^ (i % 64)) (j % 64) (two-pow-lt (i % 64) (omega arith)) (omega arith),
      bit-pow_self (i % 64),
      bit-pow_ne (i % 64) (j % 64),
      bit-lt (get_or ws (i / 64) 0) (j % 64),
    )

with_bit-AreWords : (ws : List ℕ) (i : ℕ) → AreWords ws → AreWords (with_bit ws i)
with_bit-AreWords ws i h =
    All-set (λ w. w < 2 ^ 64) ws (i / 64) _
      (bit_or-lt 64 (get_or ws (i / 64) 0) (2 ^ (i % 64))
        (All-get_or (λ w. w < 2 ^ 64) ws (i / 64) 0 (omega arith) h)
        (two-pow-lt (i % 64) (omega arith)))
      h

-- `set` adds the index, and no other.
pub test-set_bit : (b : BitSet) (i j : ℕ) → test (set_bit b i) j ≡ ((i == j) || test b j)
unfolding set_bit
test-set_bit b i j = ground (
  arith,
  test-digit (set_bit b i) j,
  test-digit b j,
  digit-with_bit b.words i j,
  digit-with_bit (resize b.words (i / 64 + 1)) i j,
  length-resize b.words (i / 64 + 1),
  get_or-append-replicate b.words (i / 64 + 1 - length b.words) (j / 64),
)

-- `reset` removes the index, and no other.
pub test-reset : (b : BitSet) (i j : ℕ) → test (reset b i) j ≡ (not (i == j) && test b j)
unfolding reset
test-reset b i j = ground (
  arith,
  test-digit (reset b i) j,
  test-digit b j,
  digit-without_bit b.words i j,
  get_or_beyond b.words (i / 64) 0,
  bit-zero (i % 64),
)

-- `|=` is the union.
pub test-or_assign : (b o : BitSet) (j : ℕ) → test (or_assign b o) j ≡ (test b j || test o j)
unfolding or_assign
test-or_assign b o j = ground (
  arith,
  test-digit (or_assign b o) j,
  test-digit b j,
  test-digit o j,
  digit-or_words b.words o.words (j / 64) (j % 64),
  digit-or_words (resize b.words (length o.words)) o.words (j / 64) (j % 64),
  length-resize b.words (length o.words),
  get_or-append-replicate b.words (length o.words - length b.words) (j / 64),
  bit-lt (get_or b.words (j / 64) 0) (j % 64),
  bit-lt (get_or o.words (j / 64) 0) (j % 64),
)

-- `and_not` is the difference, when the words of the other set fit 64 bits.
pub test-and_not :
    (b o : BitSet) (j : ℕ) → IsBitSet o → test (and_not b o) j ≡ (test b j && not (test o j))
unfolding and_not
test-and_not b o j h = ground (
  arith,
  test-digit (and_not b o) j,
  test-digit b j,
  test-digit o j,
  digit-and_not_words b.words o.words (j / 64) (j % 64),
  bit-lt (get_or b.words (j / 64) 0) (j % 64),
  bit-lt (get_or o.words (j / 64) 0) (j % 64),
)

pub set_bit-IsBitSet : (b : BitSet) (i : ℕ) → IsBitSet b → IsBitSet (set_bit b i)
unfolding set_bit
set_bit-IsBitSet b i h = elim (Bool-cases (ltb (i / 64) (length b.words))) [
  | inl e ↦ rw e (with_bit-AreWords b.words i h)
  | inr e ↦ rw e (with_bit-AreWords _ i (resize-AreWords b.words (i / 64 + 1) h))
]

pub reset-IsBitSet : (b : BitSet) (i : ℕ) → IsBitSet b → IsBitSet (reset b i)
unfolding reset
reset-IsBitSet b i h = elim (Bool-cases (ltb (i / 64) (length b.words))) [
  | inl e ↦ rw e (
      All-set (λ w. w < 2 ^ 64) b.words (i / 64) _
        (let old = All-get_or (λ w. w < 2 ^ 64) b.words (i / 64) 0 (omega arith) h in
          let new = bit_and-le (get_or b.words (i / 64) 0) (all_ones - 2 ^ (i % 64)) in omega arith)
        h)
  | inr e ↦ rw e h
]

pub or_assign-IsBitSet : (b o : BitSet) → IsBitSet b → IsBitSet o → IsBitSet (or_assign b o)
unfolding or_assign
or_assign-IsBitSet b o p q = elim (Bool-cases (ltb (length b.words) (length o.words))) [
  | inl e ↦ rw e (or_words-AreWords _ o.words (resize-AreWords b.words (length o.words) p) q)
  | inr e ↦ rw e (or_words-AreWords b.words o.words p q)
]

pub and_not-IsBitSet : (b o : BitSet) → IsBitSet b → IsBitSet (and_not b o)
unfolding and_not
and_not-IsBitSet b o p = and_not_words-AreWords b.words o.words p

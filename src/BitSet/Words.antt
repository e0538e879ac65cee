-- ===== src/BitSet/Words.antt =====
-- What a list of words holds, digit by digit.
use ghostdagsim.Common.{
  ℕ, zero, suc, ◌-◌, ◌^◌, ◌<◌, ◌≤◌, ◌≡◌, refl, ap, ◌∙◌, bit_and, List, [], ◌∷◌, length, get_or, All,
  arith, max, min,
}
use ghostdagsim.Common.Bits.{
  bit, bit-bit_or, bit-bit_and, bit-complement, bit-zero, bit_or-lt, bit_and-le,
}
use ghostdagsim.BitSet.{or_words, and_not_words, all_ones}

-- Every word fits 64 bits.
abbrev pub AreWords : List ℕ → Type 0
AreWords = All (λ w. w < 2 ^ 64)

-- Digit `k` of word `w`, 0 behind the last word.
abbrev pub digit : List ℕ → ℕ → ℕ → ℕ
digit ws w k = bit (get_or ws w 0) k

pub digit-or_words :
    (ws os : List ℕ) (w k : ℕ)
    → length os ≤ length ws
    → digit (or_words ws os) w k ≡ max (digit ws w k) (digit os w k)
unfolding or_words
digit-or_words ws [] w k h = omega (arith, bit-zero k)
digit-or_words [] (o ∷ os) w k h = absurd (omega arith)
digit-or_words (x ∷ ws) (o ∷ os) zero k h = bit-bit_or x o k
digit-or_words (x ∷ ws) (o ∷ os) (suc w) k h = digit-or_words ws os w k (omega arith)

pub length-or_words : (ws os : List ℕ) → length os ≤ length ws → length (or_words ws os) ≡ length ws
unfolding or_words
length-or_words ws [] h = refl
length-or_words [] (o ∷ os) h = refl
length-or_words (w ∷ ws) (o ∷ os) h = ap suc (length-or_words ws os (omega arith))

pub or_words-AreWords : (ws os : List ℕ) → AreWords ws → AreWords os → AreWords (or_words ws os)
unfolding or_words
or_words-AreWords ws [] p q = p
or_words-AreWords [] (o ∷ os) p q = tt
or_words-AreWords (w ∷ ws) (o ∷ os) p q =
    (bit_or-lt 64 w o p.0 q.0, or_words-AreWords ws os p.1 q.1)

-- `x & ~o`, and `x & ~0`
digit-and_complement :
    (x o k : ℕ)
    → o < 2 ^ 64
    → k < 64
    → bit (bit_and x (all_ones - o)) k ≡ min (bit x k) (1 - bit o k)
digit-and_complement x o k h hk =
    bit-bit_and x (all_ones - o) k ∙ ap (min (bit x k)) (bit-complement 64 o k h hk)

pub digit-and_not_words :
    (ws os : List ℕ) (w k : ℕ)
    → AreWords os
    → k < 64
    → digit (and_not_words ws os) w k ≡ min (digit ws w k) (1 - digit os w k)
unfolding and_not_words
digit-and_not_words [] os w k q hk = omega (arith, bit-zero k)
digit-and_not_words (x ∷ ws) [] zero k q hk =
    omega (arith, digit-and_complement x 0 k (omega arith) hk)
digit-and_not_words (x ∷ ws) [] (suc w) k q hk = digit-and_not_words ws [] w k tt hk
digit-and_not_words (x ∷ ws) (o ∷ os) zero k q hk = digit-and_complement x o k q.0 hk
digit-and_not_words (x ∷ ws) (o ∷ os) (suc w) k q hk = digit-and_not_words ws os w k q.1 hk

pub and_not_words-AreWords : (ws os : List ℕ) → AreWords ws → AreWords (and_not_words ws os)
unfolding and_not_words
and_not_words-AreWords [] os p = tt
and_not_words-AreWords (x ∷ ws) [] p =
    (omega (arith, bit_and-le x all_ones), and_not_words-AreWords ws [] p.1)
and_not_words-AreWords (x ∷ ws) (o ∷ os) p =
    (omega (arith, bit_and-le x (all_ones - o)), and_not_words-AreWords ws os p.1)

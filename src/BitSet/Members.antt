-- ===== src/BitSet/Members.antt =====
-- The indices that a set holds, as an ascending list: what the loops over the words compute.
use ghostdagsim.Common.{
  ℕ, zero, suc, ◌+◌, ◌-◌, ◌/◌, ◌%◌, ◌<◌, ◌≤◌, ◌≡◌, ◌∙◌, true, ◌&&◌, List, [], ◌∷◌, ◌++◌, arith, ltb,
  leb, ◌==◌, if◌then◌else◌, contains, contains-append, Bool-cases, inl, inr, Ascends, Ascends-mono,
  Ascends-append,
}
use ghostdagsim.Common.Bits.{bit, bit-zero}
use ghostdagsim.BitSet.{BitSet, test}
use ghostdagsim.BitSet.Words.{digit}
use ghostdagsim.BitSet.Update.{test-digit}

-- The ones among the lowest `n` digits of `w`, each moved up by `base`.
unfoldable pub members_from : ℕ → ℕ → ℕ → List ℕ
members_from base zero w = []
members_from base (suc n) w =
    let rest = members_from (suc base) n (w / 2) in if w % 2 == 1 then base ∷ rest else rest

unfoldable pub members_words : ℕ → List ℕ → List ℕ
members_words base [] = []
members_words base (w ∷ ws) = members_from base 64 w ++ members_words (base + 64) ws

unfoldable pub members : BitSet → List ℕ
members b = members_words 0 b.words

bit-sub_self : (base w i : ℕ) → i ≡ base → bit w (i - base) ≡ w % 2
bit-sub_self base w i e = let p : i - base ≡ 0 = omega arith in rw p

bit-sub_above : (base w i : ℕ) → base < i → bit w (i - base) ≡ bit (w / 2) (i - suc base)
bit-sub_above base w i h = let p : i - base ≡ suc (i - suc base) = omega arith in rw p

contains-members_from :
    (base n w i : ℕ)
    → contains i (members_from base n w)
      ≡ (leb base i && ltb i (base + n) && (bit w (i - base) == 1))
unfolding members_from
contains-members_from base zero w i = ground arith
contains-members_from base (suc n) w i = ground (
  arith,
  contains-members_from (suc base) n (w / 2) i,
  bit-sub_self base w i,
  bit-sub_above base w i,
)

Ascends-members_from : (base n w : ℕ) → Ascends base (members_from base n w)
unfolding members_from
Ascends-members_from base zero w = tt
Ascends-members_from base (suc n) w = elim (Bool-cases (w % 2 == 1)) [
  | inl e ↦ rw e (omega arith, Ascends-members_from (suc base) n (w / 2))
  | inr e ↦
      rw e
        (Ascends-mono base (suc base) _ (omega arith) (Ascends-members_from (suc base) n (w / 2)))
]

-- Word `(i - base) / 64`, digit `(i - base) % 64`.
contains-members_words :
    (base : ℕ) (ws : List ℕ) (i : ℕ)
    → contains i (members_words base ws)
      ≡ (leb base i && (digit ws ((i - base) / 64) ((i - base) % 64) == 1))
unfolding members_words
contains-members_words base [] i = ground (arith, bit-zero ((i - base) % 64))
contains-members_words base (w ∷ ws) i =
    contains-append i (members_from base 64 w) (members_words (base + 64) ws)
    ∙ ground (
      arith,
      contains-members_from base 64 w i,
      contains-members_words (base + 64) ws i,
      digit-first w ws (i - base),
      digit-later w ws (i - base),
      sub_later base i,
    )
  where
    digit-first :
        (w : ℕ) (ws : List ℕ) (k : ℕ) → k < 64 → digit (w ∷ ws) (k / 64) (k % 64) ≡ bit w k
    digit-first w ws k h =
        let e : k / 64 ≡ 0 = omega arith in let e' : k % 64 ≡ k = omega arith in rw (e, e')

    digit-later :
        (w : ℕ) (ws : List ℕ) (k : ℕ)
        → 64 ≤ k
        → digit (w ∷ ws) (k / 64) (k % 64) ≡ digit ws ((k - 64) / 64) ((k - 64) % 64)
    digit-later w ws k h =
        let e : k / 64 ≡ suc ((k - 64) / 64) = omega arith in
        let e' : k % 64 ≡ (k - 64) % 64 = omega arith in rw (e, e')

    sub_later : (base i : ℕ) → i - (base + 64) ≡ i - base - 64
    sub_later base i = omega arith

-- The list holds an index exactly when `test` finds it.
pub contains-members : (b : BitSet) (i : ℕ) → contains i (members b) ≡ test b i
unfolding members
contains-members b i = contains-members_words 0 b.words i ∙ ground (arith, test-digit b i)

pub contains-members_from-lt :
    (base n w i : ℕ) → contains i (members_from base n w) ≡ true → i < base + n
contains-members_from-lt base n w i h = ground (arith, contains-members_from base n w i)

pub Ascends-members_words : (base : ℕ) (ws : List ℕ) → Ascends base (members_words base ws)
unfolding members_words
Ascends-members_words base [] = tt
Ascends-members_words base (w ∷ ws) =
    Ascends-append base (base + 64) (members_from base 64 w) (members_words (base + 64) ws)
      (Ascends-members_from base 64 w) (contains-members_from-lt base 64 w) (omega arith)
      (Ascends-members_words (base + 64) ws)

pub Ascends-members : (b : BitSet) → Ascends 0 (members b)
unfolding members
Ascends-members b = Ascends-members_words 0 b.words

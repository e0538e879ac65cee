-- ===== src/BitSet/Loops.antt =====
-- The loops `while (w) { ... ctz(w) ...; w &= w - 1; }` visit the members in ascending order.
use mathlib.Core.List.{foldl-append}
use native.Mathlib.Nat.{pow-suc}
use ghostdagsim.Common.{
  ℕ, zero, suc, ◌+◌, ◌-◌, ◌*◌, ◌/◌, ◌%◌, ◌^◌, ◌<◌, ◌≤◌, ◌≡◌, ◌≢◌, refl, ap, ap₂, sym, ◌∙◌, bit_and,
  Bool, false, List, [], ◌∷◌, ◌++◌, length, foldl, fold_until, arith, ◌==◌, if◌then◌else◌,
  nil_of_length, Bool-cases, eq_of_==, inl, inr,
}
use ghostdagsim.Common.Bits.{bit_and-pred_odd, bit_and-pred_even, bit_and-le}
use ghostdagsim.BitSet.{
  BitSet, ctz_digits, ctz, each_bit, each_word, for_each, each_bit_until, each_word_until,
  for_each_and_not, and_not, and_not_words, popcount_digits,
}
use ghostdagsim.BitSet.Words.{AreWords, and_not_words-AreWords}
use ghostdagsim.BitSet.Update.{IsBitSet}
use ghostdagsim.BitSet.Members.{members_from, members_words, members}

-- One round takes the first member off the word: by the parity of the word.
members_from-odd :
    (base n w : ℕ)
    → w % 2 ≡ 1
    → members_from base (suc n) w ≡ base ∷ members_from base (suc n) (bit_and w (w - 1))
unfolding members_from
members_from-odd base n w h =
    let low : bit_and w (w - 1) ≡ w / 2 * 2 = bit_and-pred_odd w h in
    let even : bit_and w (w - 1) % 2 ≡ 0 = omega arith in
    let half : bit_and w (w - 1) / 2 ≡ w / 2 = omega arith in rw (h, even, half)

members_from-even :
    (base n w : ℕ) → w % 2 ≡ 0 → members_from base (suc n) w ≡ members_from (suc base) n (w / 2)
unfolding members_from
members_from-even base n w h = rw h

pub members_from-step :
    (base n w : ℕ)
    → w ≢ 0
    → w < 2 ^ n
    → members_from base n w ≡ (base + ctz_digits n w) ∷ members_from base n (bit_and w (w - 1))
unfolding ctz_digits
members_from-step base zero w nz h = absurd (omega arith)
members_from-step base (suc n) w nz h = elim (Bool-cases (w % 2 == 1)) [
  | inl e ↦
      members_from-odd base n w (eq_of_== _ _ e)
      ∙ ap (λ t. t ∷ members_from base (suc n) (bit_and w (w - 1))) (rw e (omega arith))
  | inr e ↦
      let even : w % 2 ≡ 0 = ground arith in
      let low : bit_and w (w - 1) ≡ bit_and (w / 2) (w / 2 - 1) * 2 = bit_and-pred_even w even in
      let half : bit_and w (w - 1) / 2 ≡ bit_and (w / 2) (w / 2 - 1) = omega arith in
      members_from-even base n w even
      ∙ members_from-step (suc base) n (w / 2) (omega arith) (omega (arith, pow-suc 2 n))
      ∙ ap₂ ◌∷◌ (rw e (omega arith)) (
          ap (members_from (suc base) n) (sym half)
          ∙ sym (members_from-even base n (bit_and w (w - 1)) (omega arith)))
]

pub members_from-zero : (base n : ℕ) → members_from base n 0 ≡ []
unfolding members_from
members_from-zero base zero = refl
members_from-zero base (suc n) = members_from-zero (suc base) n

pub length-members_from : (base n w : ℕ) → length (members_from base n w) ≡ popcount_digits n w
unfolding members_from popcount_digits
length-members_from base zero w = refl
length-members_from base (suc n) w = ground (arith, length-members_from (suc base) n (w / 2))

length-members_from-le : (base n w : ℕ) → length (members_from base n w) ≤ n
unfolding members_from
length-members_from-le base zero w = omega arith
length-members_from-le base (suc n) w = ground (arith, length-members_from-le (suc base) n (w / 2))

no_members {ℓ} :
    {T : Type ℓ} (base w : ℕ) → w ≡ 0 → (g : List ℕ → T) → g (members_from base 64 w) ≡ g []
no_members base w e g = ap g (ap (members_from base 64) e ∙ members_from-zero base 64)

module _ {ℓ} {S : Type ℓ} where
  -- Enough rounds for the members that are left.
  each_bit-foldl :
      (rounds : ℕ) (f : S → ℕ → S) (base w : ℕ) (s : S)
      → w < 2 ^ 64
      → length (members_from base 64 w) ≤ rounds
      → each_bit rounds f base w s ≡ foldl f s (members_from base 64 w)
  unfolding each_bit
  each_bit-foldl zero f base w s hw h =
      sym (ap (foldl f s) (nil_of_length (members_from base 64 w) h))
  each_bit-foldl (suc rounds) f base w s hw h = elim (Bool-cases (w == 0)) [
    | inl e ↦ rw e (sym (no_members base w (eq_of_== w 0 e) (foldl f s)))
    | inr e ↦
        let step = members_from-step base 64 w (ground arith) hw in
        rw e (
          each_bit-foldl rounds f base (bit_and w (w - 1)) (f s (base + ctz w))
            (omega (arith, bit_and-le w (w - 1))) (omega (arith, ap length step))
          ∙ ap (foldl f s) (sym step))
  ]

  each_word-foldl :
      (f : S → ℕ → S) (base : ℕ) (ws : List ℕ) (s : S)
      → AreWords ws
      → each_word f base ws s ≡ foldl f s (members_words base ws)
  unfolding each_word members_words
  each_word-foldl f base [] s h = refl
  each_word-foldl f base (w ∷ ws) s h =
      each_word-foldl f (base + 64) ws (each_bit 64 f base w s) h.1
      ∙ ap (λ t. foldl f t (members_words (base + 64) ws))
          (each_bit-foldl 64 f base w s h.0 (length-members_from-le base 64 w))
      ∙ sym (foldl-append f s (members_from base 64 w) (members_words (base + 64) ws))

  -- On a set whose words fit 64 bits, `for_each` calls its callback on each member once, in
  -- ascending order, and then ends.
  pub for_each_lem :
      (b : BitSet) (f : S → ℕ → S) (s : S) → IsBitSet b → for_each b f s ≡ foldl f s (members b)
  unfolding for_each members
  for_each_lem b f s h = each_word-foldl f 0 b.words s h

  each_bit_until-fold :
      (rounds : ℕ) (f : S → ℕ → S × Bool) (base w : ℕ) (s : S)
      → w < 2 ^ 64
      → length (members_from base 64 w) ≤ rounds
      → each_bit_until rounds f base w s ≡ fold_until f s (members_from base 64 w)
  unfolding each_bit_until
  each_bit_until-fold zero f base w s hw h =
      sym (ap (fold_until f s) (nil_of_length (members_from base 64 w) h))
  each_bit_until-fold (suc rounds) f base w s hw h = elim (Bool-cases (w == 0)) [
    | inl e ↦ rw e (sym (no_members base w (eq_of_== w 0 e) (fold_until f s)))
    | inr e ↦
        let step = members_from-step base 64 w (ground arith) hw in
        rw e (
          ap (λ t. if (f s (base + ctz w)).1 then t else ((f s (base + ctz w)).0, false))
            (each_bit_until-fold rounds f base (bit_and w (w - 1)) (f s (base + ctz w)).0
              (omega (arith, bit_and-le w (w - 1))) (omega (arith, ap length step)))
          ∙ ap (fold_until f s) (sym step))
  ]

  fold_until-append :
      (f : S → ℕ → S × Bool) (s : S) (xs ys : List ℕ)
      → (fold_until f s (xs ++ ys)).0 ≡ (
          if (fold_until f s xs).1
          then (fold_until f (fold_until f s xs).0 ys).0
          else (fold_until f s xs).0)
  fold_until-append f s [] ys = refl
  fold_until-append f s (x ∷ xs) ys = elim (Bool-cases (f s x).1) [
    | inl e ↦ rw e (fold_until-append f (f s x).0 xs ys)
    | inr e ↦ rw e
  ]

  each_word_until-fold :
      (f : S → ℕ → S × Bool) (base : ℕ) (ws : List ℕ) (s : S)
      → AreWords ws
      → each_word_until f base ws s ≡ (fold_until f s (members_words base ws)).0
  unfolding each_word_until members_words
  each_word_until-fold f base [] s h = refl
  each_word_until-fold f base (w ∷ ws) s h =
      let one = each_bit_until-fold 64 f base w s h.0 (length-members_from-le base 64 w) in
      rw one (
        ap
          (λ t.
            if (fold_until f s (members_from base 64 w)).1
            then t
            else (fold_until f s (members_from base 64 w)).0)
          (each_word_until-fold f (base + 64) ws (fold_until f s (members_from base 64 w)).0 h.1)
        ∙ sym (fold_until-append f s (members_from base 64 w) (members_words (base + 64) ws)))

  -- On a set whose words fit 64 bits, `for_each_and_not` calls its callback on the members of the
  -- difference in ascending order, up to the first call that returns false.
  pub for_each_and_not_lem :
      (b o : BitSet) (f : S → ℕ → S × Bool) (s : S)
      → IsBitSet b
      → for_each_and_not b o f s ≡ (fold_until f s (members (and_not b o))).0
  unfolding for_each_and_not members and_not
  for_each_and_not_lem b o f s h =
      each_word_until-fold f 0 (and_not_words b.words o.words) s
        (and_not_words-AreWords b.words o.words h)

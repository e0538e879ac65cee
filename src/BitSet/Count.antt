-- ===== src/BitSet/Count.antt =====
-- `count`, `count_and` and `empty`, in terms of the members.
use ghostdagsim.Common.{
  ℕ, zero, suc, ◌+◌, ◌-◌, ◌/◌, ◌%◌, ◌<◌, ◌≡◌, ◌↔◌, refl, ap, ap₂, sym, ◌∙◌, bit_and, Bool, true,
  List, [], ◌∷◌, length, length-append, count_if, count_if-append, count_if_none, arith, ◌==◌,
  Bool-cases, eq_of_==, inl, inr,
}
use ghostdagsim.Common.Bits.{bit, bit-zero, bit_and_step}
use ghostdagsim.BitSet.{
  no_bits, BitSet, test, count, count_words, count_and, count_and_words, popcount_digits, all_zero,
  empty,
}
use ghostdagsim.BitSet.Words.{AreWords, digit}
use ghostdagsim.BitSet.Update.{IsBitSet, test-digit}
use ghostdagsim.BitSet.Members.{members_from, members_words, members, Ascends-members_words}
use ghostdagsim.BitSet.Loops.{length-members_from, members_from-step, members_from-zero}

length-members_words : (base : ℕ) (ws : List ℕ) → count_words ws ≡ length (members_words base ws)
unfolding count_words members_words
length-members_words base [] = refl
length-members_words base (w ∷ ws) = omega (
  arith,
  length-append (members_from base 64 w) (members_words (base + 64) ws),
  length-members_from base 64 w,
  length-members_words (base + 64) ws,
)

-- `count` is the number of members.
pub count_lem : (b : BitSet) → count b ≡ length (members b)
unfolding count members
count_lem b = length-members_words 0 b.words

popcount-bit_and :
    (base n w o : ℕ) (p : ℕ → Bool)
    → ((k : ℕ) → k < n → p (base + k) ≡ (bit o k == 1))
    → popcount_digits n (bit_and w o) ≡ count_if p (members_from base n w)
unfolding popcount_digits members_from
popcount-bit_and base zero w o p h = refl
popcount-bit_and base (suc n) w o p h =
    let rest =
      popcount-bit_and (suc base) n (w / 2) (o / 2) p
        (λ k hk. ap p (omega arith) ∙ h (suc k) (omega arith)) in
    let half : bit_and w o / 2 ≡ bit_and (w / 2) (o / 2) = omega (arith, bit_and_step w o) in
    let first : p base ≡ (o % 2 == 1) = ap p (omega arith) ∙ h 0 (omega arith) in
    ground (arith, bit_and_step w o, ap (popcount_digits n) half ∙ rest, first)

count_and-members_words :
    (base : ℕ) (ws os : List ℕ) (p : ℕ → Bool)
    → ((k : ℕ) → p (base + k) ≡ (digit os (k / 64) (k % 64) == 1))
    → count_and_words ws os ≡ count_if p (members_words base ws)
unfolding count_and_words members_words
count_and-members_words base [] os p h = refl
count_and-members_words base (w ∷ ws) [] p h = sym (
    count_if_none p base (members_words base (w ∷ ws)) (Ascends-members_words base (w ∷ ws))
      (λ i hi. ap p (omega arith) ∙ h (i - base) ∙ ground (arith, bit-zero ((i - base) % 64))))
count_and-members_words base (w ∷ ws) (o ∷ os) p h =
    let first = popcount-bit_and base 64 w o p (λ k hk.
      h k
      ∙ ap (λ (t : ℕ). t == 1)
          (let e : k / 64 ≡ 0 = omega arith in let e' : k % 64 ≡ k = omega arith in rw (e, e'))) in
    let rest = count_and-members_words (base + 64) ws os p (λ k.
      ap p (omega arith)
      ∙ h (64 + k)
      ∙ ap (λ (t : ℕ). t == 1)
          (let e : (64 + k) / 64 ≡ suc (k / 64) = omega arith in
            let e' : (64 + k) % 64 ≡ k % 64 = omega arith in rw (e, e'))) in
    ap₂ ◌+◌ first rest
    ∙ sym (count_if-append p (members_from base 64 w) (members_words (base + 64) ws))

-- `count_and` is the number of members that the other set holds too.
pub count_and_lem : (b o : BitSet) → count_and b o ≡ count_if (test o) (members b)
unfolding count_and members
count_and_lem b o =
    count_and-members_words 0 b.words o.words (test o)
      (λ k. ap (test o) (omega arith) ∙ test-digit o k)

all_zero-members_words :
    (base : ℕ) (ws : List ℕ) → AreWords ws → (all_zero ws ≡ true) ↔ (members_words base ws ≡ [])
unfolding all_zero members_words
all_zero-members_words base [] h = (λ _. refl, λ _. refl)
all_zero-members_words base (w ∷ ws) h = elim (Bool-cases (w == 0)) [
  | inl e ↦
      let none : members_from base 64 w ≡ [] =
        ap (members_from base 64) (eq_of_== w 0 e) ∙ members_from-zero base 64 in
      rw (e, none) (all_zero-members_words (base + 64) ws h.1)
  | inr e ↦
      let some = members_from-step base 64 w (ground arith) h.0 in rw (e, some) (λ p. cc, λ p. cc)
]

-- On a set whose words fit 64 bits, `empty` answers true exactly when there is no member.
pub empty_lem : (b : BitSet) → IsBitSet b → (empty b ≡ true) ↔ (members b ≡ [])
unfolding empty members
empty_lem b h = all_zero-members_words 0 b.words h

pub count_and-no_bits : (o : BitSet) → count_and no_bits o ≡ 0
unfolding count_and count_and_words
count_and-no_bits o = refl

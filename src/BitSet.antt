-- ===== src/BitSet.antt =====
-- The dense bit set over block indices: class BitSet of dag.h. A word is a number below 2 ^ 64,
-- `i >> 6` is `i / 64`, `i & 63` is `i % 64`, `~w` is `2 ^ 64 - 1 - w`. The compiler's
-- `__builtin_popcountll` and `__builtin_ctzll` are loops over the 64 digits.
pub mod Words
pub mod Members
pub mod Update
pub mod Loops
pub mod Count
pub mod Tests
use ghostdagsim.Common.{
  ℕ, zero, suc, ◌+◌, ◌-◌, ◌*◌, ◌/◌, ◌%◌, ◌^◌, bit_and, bit_or, Bool, true, false, ◌&&◌, List, [],
  ◌∷◌, ◌++◌, length, get_or, set, replicate, min, ltb, ◌==◌, if◌then◌else◌,
}

pub record BitSet : Type 0 where
  pub words : List ℕ

-- `BitSet()`
abbrev pub no_bits : BitSet
no_bits = record { words = [] }

abbrev pub all_ones : ℕ
all_ones = 2 ^ 64 - 1

-- `v.resize(n, 0)`
abbrev pub resize : List ℕ → ℕ → List ℕ
resize ws n = ws ++ replicate (n - length ws) 0

pub test : BitSet → ℕ → Bool
test b i = ltb (i / 64) (length b.words) && (get_or b.words (i / 64) 0 / 2 ^ (i % 64) % 2 == 1)

pub set_bit : BitSet → ℕ → BitSet
set_bit b i =
    let w : ℕ = i / 64 in
    let grown = if ltb w (length b.words) then b.words else resize b.words (w + 1) in
    record { words = set grown w (bit_or (get_or grown w 0) (2 ^ (i % 64))) }

pub reset : BitSet → ℕ → BitSet
reset b i =
    let w : ℕ = i / 64 in
    if ltb w (length b.words)
    then record { words = set b.words w (bit_and (get_or b.words w 0) (all_ones - 2 ^ (i % 64))) }
    else b

-- The loop of `operator|=`, over the words of `o`, and then the words that only this set has.
pub or_words : List ℕ → List ℕ → List ℕ
or_words ws [] = ws
or_words [] (o ∷ os) = []
or_words (w ∷ ws) (o ∷ os) = bit_or w o ∷ or_words ws os

pub or_assign : BitSet → BitSet → BitSet
or_assign b o =
    let grown =
      if ltb (length b.words) (length o.words) then resize b.words (length o.words) else b.words in
    record { words = or_words grown o.words }

pub popcount_digits : ℕ → ℕ → ℕ
popcount_digits zero w = 0
popcount_digits (suc n) w = w % 2 + popcount_digits n (w / 2)

-- `__builtin_popcountll`
abbrev pub popcount : ℕ → ℕ
popcount w = popcount_digits 64 w

pub count_words : List ℕ → ℕ
count_words [] = 0
count_words (w ∷ ws) = popcount w + count_words ws

pub count : BitSet → ℕ
count b = count_words b.words

-- The loop runs over the words that both sets have.
pub count_and_words : List ℕ → List ℕ → ℕ
count_and_words [] os = 0
count_and_words (w ∷ ws) [] = 0
count_and_words (w ∷ ws) (o ∷ os) = popcount (bit_and w o) + count_and_words ws os

pub count_and : BitSet → BitSet → ℕ
count_and b o = count_and_words b.words o.words

-- `words_[i] & (i < o.words_.size() ? ~o.words_[i] : ~uint64_t{0})`
pub and_not_words : List ℕ → List ℕ → List ℕ
and_not_words [] os = []
and_not_words (w ∷ ws) [] = bit_and w all_ones ∷ and_not_words ws []
and_not_words (w ∷ ws) (o ∷ os) = bit_and w (all_ones - o) ∷ and_not_words ws os

pub and_not : BitSet → BitSet → BitSet
and_not b o = record { words = and_not_words b.words o.words }

pub ctz_digits : ℕ → ℕ → ℕ
ctz_digits zero w = 0
ctz_digits (suc n) w = if w % 2 == 1 then 0 else ctz_digits n (w / 2) + 1

-- `__builtin_ctzll`, of a word that is not 0
abbrev pub ctz : ℕ → ℕ
ctz w = ctz_digits 64 w

module _ {ℓ} {S : Type ℓ} where
  -- The loop `while (w)` of `for_each` over one word, whose first index is `base`; `f` is the
  -- callback over the state that it captures. A word has at most 64 ones, so 64 rounds are enough.
  pub each_bit : ℕ → (S → ℕ → S) → ℕ → ℕ → S → S
  each_bit zero f base w s = s
  each_bit (suc rounds) f base w s =
      let rest = each_bit rounds f base (bit_and w (w - 1)) (f s (base + ctz w)) in
      if w == 0 then s else rest

  pub each_word : (S → ℕ → S) → ℕ → List ℕ → S → S
  each_word f base [] s = s
  each_word f base (w ∷ ws) s = each_word f (base + 64) ws (each_bit 64 f base w s)

  pub for_each : BitSet → (S → ℕ → S) → S → S
  for_each b f s = each_word f 0 b.words s

  -- The same with a callback that may stop the walk by returning false.
  pub each_bit_until : ℕ → (S → ℕ → S × Bool) → ℕ → ℕ → S → S × Bool
  each_bit_until zero f base w s = (s, true)
  each_bit_until (suc rounds) f base w s =
      let (s', more) = f s (base + ctz w) in
      let rest = each_bit_until rounds f base (bit_and w (w - 1)) s' in
      if w == 0 then (s, true) else (if more then rest else (s', false))

  pub each_word_until : (S → ℕ → S × Bool) → ℕ → List ℕ → S → S
  each_word_until f base [] s = s
  each_word_until f base (w ∷ ws) s =
      let (s', more) = each_bit_until 64 f base w s in
      let rest = each_word_until f (base + 64) ws s' in if more then rest else s'

  pub for_each_and_not : BitSet → BitSet → (S → ℕ → S × Bool) → S → S
  for_each_and_not b o f s = each_word_until f 0 (and_not_words b.words o.words) s

pub all_zero : List ℕ → Bool
all_zero [] = true
all_zero (w ∷ ws) = if w == 0 then all_zero ws else false

pub empty : BitSet → Bool
empty b = all_zero b.words

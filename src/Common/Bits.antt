-- ===== src/Common/Bits.antt =====
-- Binary digits of a number, and what `&`, `|` and `~` do to them.
use Prim.Native.Nat.{
  ℕ, zero, suc, ◌+◌, ◌-◌, ◌*◌, ◌/◌, ◌%◌, ◌^◌, ◌≤◌, ◌<◌, min, max, bit_and, bit_or,
}
use Prim.Native.Nat.{digits, bitwise, bit_and-bitwise, bit_or-bitwise}
use mathlib.Core.Path.{◌≡◌, refl, ap, sym, ◌∙◌}
use mathlib.Core.Logic.{◌≢◌}
use mathlib.Core.WellFounded
use native.Mathlib.Omega.{arith}
use native.Mathlib.Nat.{pow-suc, one-le-pow, div-div-eq-div-mul, mul_comm, mul_assoc}
use ghostdagsim.Common.Order.{lt_wf}

module _ (z : ℕ → ℕ) (f : ℕ → ℕ → ℕ) where
  -- One more round of fuel changes nothing when there is enough, so no number of rounds does.
  spare_round : (rounds a b : ℕ) → a ≤ rounds → digits z f (suc rounds) a b ≡ digits z f rounds a b
  spare_round zero zero b enough = refl
  spare_round (suc rounds) zero b enough = refl
  spare_round zero (suc a) b enough = absurd (omega arith)
  spare_round (suc rounds) (suc a) b enough =
      ap (λ (t : ℕ). t * 2 + f (suc a % 2) (b % 2))
        (spare_round rounds (suc a / 2) (b / 2) (omega arith))

  spare_rounds : (spare n a b : ℕ) → n ≡ spare + a → digits z f n a b ≡ bitwise z f a b
  spare_rounds zero n a b e = ap (λ m. digits z f m a b) (omega arith)
  spare_rounds (suc spare) zero a b e = absurd (omega arith)
  spare_rounds (suc spare) (suc n) a b e =
      spare_round n a b (omega arith) ∙ spare_rounds spare n a b (omega arith)

  -- The lowest digit, and the others.
  lowest :
      (a b : ℕ)
      → bitwise z f (suc a) b ≡ bitwise z f (suc a / 2) (b / 2) * 2 + f (suc a % 2) (b % 2)
  lowest a b =
      ap (λ (t : ℕ). t * 2 + f (suc a % 2) (b % 2))
        (spare_rounds (a - suc a / 2) a (suc a / 2) (b / 2) (omega arith))

pub bit_and_step : (a b : ℕ) → bit_and a b ≡ bit_and (a / 2) (b / 2) * 2 + min (a % 2) (b % 2)
bit_and_step zero b = omega (arith, bit_and-bitwise 0 b, bit_and-bitwise (0 / 2) (b / 2))
bit_and_step (suc a) b =
    let low = lowest (λ _. 0) min a b in
    omega (arith, low, bit_and-bitwise (suc a) b, bit_and-bitwise (suc a / 2) (b / 2))

pub bit_or_step : (a b : ℕ) → bit_or a b ≡ bit_or (a / 2) (b / 2) * 2 + max (a % 2) (b % 2)
bit_or_step zero b = omega (arith, bit_or-bitwise 0 b, bit_or-bitwise (0 / 2) (b / 2))
bit_or_step (suc a) b =
    let low = lowest (λ y. y) max a b in
    omega (arith, low, bit_or-bitwise (suc a) b, bit_or-bitwise (suc a / 2) (b / 2))

-- Digit `k` of `w`, lowest first.
abbrev pub bit : ℕ → ℕ → ℕ
bit w zero = w % 2
bit w (suc k) = bit (w / 2) k

-- It is what a shift and a mask read.
pub bit-shift : (w k : ℕ) → w / 2 ^ k % 2 ≡ bit w k
bit-shift w zero = omega arith
bit-shift w (suc k) =
    ap (λ (t : ℕ). w / t % 2) (pow-suc 2 k ∙ mul_comm (2 ^ k) 2)
    ∙ ap (λ (t : ℕ). t % 2) (sym (div-div-eq-div-mul w 2 (2 ^ k)))
    ∙ bit-shift (w / 2) k

pub bit-lt : (w k : ℕ) → bit w k < 2
bit-lt w zero = omega arith
bit-lt w (suc k) = bit-lt (w / 2) k

pub bit-bit_or : (a b k : ℕ) → bit (bit_or a b) k ≡ max (bit a k) (bit b k)
bit-bit_or a b zero = omega (arith, bit_or_step a b)
bit-bit_or a b (suc k) =
    ap (λ (t : ℕ). bit t k) (let h = bit_or_step a b in omega arith) ∙ bit-bit_or (a / 2) (b / 2) k

pub bit-bit_and : (a b k : ℕ) → bit (bit_and a b) k ≡ min (bit a k) (bit b k)
bit-bit_and a b zero = omega (arith, bit_and_step a b)
bit-bit_and a b (suc k) =
    ap (λ (t : ℕ). bit t k) (let h = bit_and_step a b in omega arith)
    ∙ bit-bit_and (a / 2) (b / 2) k

pub bit-zero : (k : ℕ) → bit 0 k ≡ 0
bit-zero zero = refl
bit-zero (suc k) = bit-zero k

two-pow-suc : (k : ℕ) → 2 ^ suc k ≡ 2 * 2 ^ k
two-pow-suc k = omega (arith, pow-suc 2 k)

-- The digits of a power of two.
pub bit-pow_self : (k : ℕ) → bit (2 ^ k) k ≡ 1
bit-pow_self zero = refl
bit-pow_self (suc k) =
    ap (λ (t : ℕ). bit t k) (let h = two-pow-suc k in omega arith) ∙ bit-pow_self k

pub bit-pow_ne : (j k : ℕ) → j ≢ k → bit (2 ^ j) k ≡ 0
bit-pow_ne zero zero ne = absurd (ne refl)
bit-pow_ne zero (suc k) ne = bit-zero k
bit-pow_ne (suc j) zero ne = omega (arith, two-pow-suc j)
bit-pow_ne (suc j) (suc k) ne =
    ap (λ (t : ℕ). bit t k) (let h = two-pow-suc j in omega arith)
    ∙ bit-pow_ne j k (λ e. ne (ap suc e))

-- Complement within `n` digits.
pub bit-complement : (n a k : ℕ) → a < 2 ^ n → k < n → bit (2 ^ n - 1 - a) k ≡ 1 - bit a k
bit-complement zero a k ha hk = absurd (omega arith)
bit-complement (suc n) a zero ha hk = omega (arith, two-pow-suc n, one-le-pow n 2)
bit-complement (suc n) a (suc k) ha hk =
    ap (λ (t : ℕ). bit t k) (let h = two-pow-suc n in let p = one-le-pow n 2 in omega arith)
    ∙ bit-complement n (a / 2) k (omega (arith, two-pow-suc n)) (omega arith)

-- Bounds.
pub bit_or-lt : (n a b : ℕ) → a < 2 ^ n → b < 2 ^ n → bit_or a b < 2 ^ n
bit_or-lt zero a b ha hb =
    let e : a ≡ 0 = omega arith in let e' : b ≡ 0 = omega arith in rw (e, e') (omega arith)
bit_or-lt (suc n) a b ha hb = omega (
  arith,
  bit_or_step a b,
  two-pow-suc n,
  bit_or-lt n (a / 2) (b / 2) (omega (arith, two-pow-suc n)) (omega (arith, two-pow-suc n)),
)

pub bit_and-le : (a b : ℕ) → bit_and a b ≤ a
bit_and-le a = WellFounded.induction lt_wf {C = λ a. (b : ℕ) → bit_and a b ≤ a} a step
  where
    step : (n : ℕ) → ((m : ℕ) → m < n → (b : ℕ) → bit_and m b ≤ m) → (b : ℕ) → bit_and n b ≤ n
    step zero ih b = omega (arith, bit_and-bitwise 0 b)
    step (suc n) ih b = omega (arith, bit_and_step (suc n) b, ih (suc n / 2) (omega arith) (b / 2))

pub bit_and_self : (a : ℕ) → bit_and a a ≡ a
bit_and_self a = WellFounded.induction lt_wf {C = λ a. bit_and a a ≡ a} a step
  where
    step : (n : ℕ) → ((m : ℕ) → m < n → bit_and m m ≡ m) → bit_and n n ≡ n
    step zero ih = refl
    step (suc n) ih = omega (arith, bit_and_step (suc n) (suc n), ih (suc n / 2) (omega arith))

-- `w & (w - 1)` drops the lowest one: by the parity of `w`.
pub bit_and-pred_odd : (w : ℕ) → w % 2 ≡ 1 → bit_and w (w - 1) ≡ w / 2 * 2
bit_and-pred_odd w h =
    let e : (w - 1) / 2 ≡ w / 2 = omega arith in
    bit_and_step w (w - 1) ∙ rw (e, bit_and_self (w / 2)) (omega arith)

pub bit_and-pred_even : (w : ℕ) → w % 2 ≡ 0 → bit_and w (w - 1) ≡ bit_and (w / 2) (w / 2 - 1) * 2
bit_and-pred_even w h =
    let e : (w - 1) / 2 ≡ w / 2 - 1 = omega arith in bit_and_step w (w - 1) ∙ rw e (omega arith)

bit_or_zero : (a : ℕ) → bit_or a 0 ≡ a
bit_or_zero a = WellFounded.induction lt_wf {C = λ a. bit_or a 0 ≡ a} a step
  where
    step : (n : ℕ) → ((m : ℕ) → m < n → bit_or m 0 ≡ m) → bit_or n 0 ≡ n
    step zero ih = refl
    step (suc n) ih =
        let less : suc n / 2 < suc n = omega arith in
        omega (arith, bit_or_step (suc n) 0, ih (suc n / 2) less)

twice : (a t : ℕ) → a * (2 * t) ≡ 2 * (a * t)
twice a t = sym (mul_assoc a 2 t) ∙ ap (λ s. s * t) (mul_comm a 2) ∙ mul_assoc 2 a t

-- `|` on numbers whose digits lie apart is a sum.
pub bit_or-high_low : (n a b : ℕ) → b < 2 ^ n → bit_or (a * 2 ^ n) b ≡ a * 2 ^ n + b
bit_or-high_low zero a b h = let e : b ≡ 0 = omega arith in rw e (bit_or_zero (a * 1) ∙ omega arith)
bit_or-high_low (suc n) a b h =
    let x : ℕ = a * 2 ^ n in
    let double : a * 2 ^ suc n ≡ 2 * x = ap (λ t. a * t) (two-pow-suc n) ∙ twice a (2 ^ n) in
    let half : 2 * x / 2 ≡ x = omega arith in
    rw double (
      bit_or_step (2 * x) b
      ∙ rw (half, bit_or-high_low n a (b / 2) (omega (arith, two-pow-suc n))) (omega arith))

pub bit_or-low_high : (n a b : ℕ) → a < 2 ^ n → bit_or a (b * 2 ^ n) ≡ a + b * 2 ^ n
bit_or-low_high zero a b h =
    let e : a ≡ 0 = omega arith in rw e (bit_or-bitwise 0 (b * 1) ∙ omega arith)
bit_or-low_high (suc n) a b h =
    let x : ℕ = b * 2 ^ n in
    let double : b * 2 ^ suc n ≡ 2 * x = ap (λ t. b * t) (two-pow-suc n) ∙ twice b (2 ^ n) in
    let half : 2 * x / 2 ≡ x = omega arith in
    rw double (
      bit_or_step a (2 * x)
      ∙ rw (half, bit_or-low_high n (a / 2) b (omega (arith, two-pow-suc n))) (omega arith))

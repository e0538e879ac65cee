-- ===== src/Graphene/Numbers.antt =====
-- The arithmetic that graphene.cc takes from the machine and from <cmath>. A double or a float is
-- the number of its bit pattern, which the code only computes with, compares and sends.
use ghostdagsim.Common.{ℕ, Bool}

-- `decimal m k` is the literal m / 10 ^ k; `of_nat` converts a whole number, `to_float` rounds to a
-- float, and `truncate` is the cast to int of a number that is not negative.
pub record Numbers : Type 0 where
  pub decimal : ℕ → ℕ → ℕ
  pub of_nat : ℕ → ℕ
  pub to_float : ℕ → ℕ
  pub neg : ℕ → ℕ
  pub add : ℕ → ℕ → ℕ
  pub sub : ℕ → ℕ → ℕ
  pub mul : ℕ → ℕ → ℕ
  pub div : ℕ → ℕ → ℕ
  pub less : ℕ → ℕ → Bool
  pub at_most : ℕ → ℕ → Bool
  pub exp : ℕ → ℕ
  pub log : ℕ → ℕ
  pub sqrt : ℕ → ℕ
  pub pow : ℕ → ℕ → ℕ
  pub floor : ℕ → ℕ
  pub ceil : ℕ → ℕ
  pub truncate : ℕ → ℕ
  pub max_value : ℕ

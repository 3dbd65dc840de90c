-- ===== src/Base/Float.antt =====
-- float64 as an interface. The values are those other than NaN, which no expression of the program
-- yields from its arguments; the operations are unspecified but for the order.
use mathlib.Core.Path.{◌≡◌}
use mathlib.Core.Bool.{Bool, true, false, not, ◌&&◌}
use native.Mathlib.Omega.{arith}
use Prim.Native.Nat.{ℕ, ◌+◌, ◌*◌, ◌/◌}
use native.Mathlib.Nat.{ℕ_set}
use libre_ping.Base.Tests.{ltb, ◌==◌}
use libre_ping.Base.Int.{ℤ, pos_part}

pub record Floats : Type 1 where
  pub F : Type 0
  pub F_set : IsSet F
  pub of_int : ℤ → F
  pub half : F
  pub add : F → F → F
  pub mul : F → F → F
  pub div : F → F → F
  pub log : F → F
  pub lt : F → F → Bool
  pub eq : F → F → Bool
  pub lt_asym : (a b : F) → lt a b ≡ true → lt b a ≡ false
  pub le_trans : (a b c : F) → lt b a ≡ false → lt c b ≡ false → lt c a ≡ false
  pub eq_lem : (a b : F) → eq a b ≡ (not (lt a b) && not (lt b a))

pub whole_asym : (a b : ℕ) → ltb a b ≡ true → ltb b a ≡ false
whole_asym a b h = ground arith

pub whole_le_trans : (a b c : ℕ) → ltb b a ≡ false → ltb c b ≡ false → ltb c a ≡ false
whole_le_trans a b c h k = ground arith

pub whole_eq : (a b : ℕ) → (a == b) ≡ (not (ltb a b) && not (ltb b a))
whole_eq a b = ground arith

-- Whole numbers that stay at 0 below it: a model of the interface for examples.
abbrev pub whole : Floats
whole = record {
  F = ℕ;
  F_set = ℕ_set;
  of_int = pos_part;
  half = 0;
  add = λ a b. a + b;
  mul = λ a b. a * b;
  div = λ a b. a / b;
  log = λ a. a;
  lt = ltb;
  eq = λ a b. a == b;
  lt_asym = λ a b h. whole_asym a b h;
  le_trans = λ a b c h k. whole_le_trans a b c h k;
  eq_lem = λ a b. whole_eq a b;
}

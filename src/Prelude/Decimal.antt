-- ===== src/Prelude/Decimal.antt =====
-- Python's `Decimal`, or a float, as far as the code relies on it: the operations that it calls,
-- and that `<` is a strict order
-- whose negation is transitive. No law of the arithmetic is assumed, so that rounding is allowed.
use Prim.Native.Nat.{ℕ, ◌-◌, ◌*◌, ◌+◌}
use mathlib.Core.Path.{◌≡◌}
use mathlib.Core.Bool.{Bool, true, false}
use native.Mathlib.Omega.{arith}
use nexus_smarttrading.Prelude.Tests.{ltb}

pub record Decimals : Type 1 where
  pub Decimal : Type 0
  pub lt : Decimal → Decimal → Bool
  pub add : Decimal → Decimal → Decimal
  pub sub : Decimal → Decimal → Decimal
  pub mul : Decimal → Decimal → Decimal
  pub zero : Decimal
  pub one : Decimal
  pub lt_irrefl : (a : Decimal) → lt a a ≡ false
  pub lt_asym : (a b : Decimal) → lt a b ≡ true → lt b a ≡ false
  pub le_trans : (a b c : Decimal) → lt b a ≡ false → lt c b ≡ false → lt c a ≡ false

pub ltb_irrefl : (a : ℕ) → ltb a a ≡ false
ltb_irrefl a = ground arith

pub ltb_asym : (a b : ℕ) → ltb a b ≡ true → ltb b a ≡ false
ltb_asym a b h = ground arith

pub leb_trans : (a b c : ℕ) → ltb b a ≡ false → ltb c b ≡ false → ltb c a ≡ false
leb_trans a b c h k = ground arith

-- Whole numbers from 0 on, with a difference that stops at 0, have what is asked for.
abbrev pub whole_numbers : Decimals
whole_numbers = record {
  Decimal = ℕ;
  lt = ltb;
  add = λ a b. a + b;
  sub = λ a b. a - b;
  mul = λ a b. a * b;
  zero = 0;
  one = 1;
  lt_irrefl = ltb_irrefl;
  lt_asym = ltb_asym;
  le_trans = leb_trans;
}

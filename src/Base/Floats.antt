-- ===== src/Base/Floats.antt =====
-- float64, which the source uses for every numeric field. The type and its operations are a
-- parameter of the model; comparisons are Boolean, so that NaN may fail them all.
use Prim.Native.Nat.{ℕ, ◌/◌, ◌%◌, ◌-◌, ◌+◌}
use mathlib.Core.Bool.{Bool}
use ovl.Base.Tests.{ltb, leb, ◌==◌, if◌then◌else◌}

pub record Floats (F : Type 0) : Type 0 where
  pub of_ℕ : ℕ → F
  pub neg : F → F
  pub abs : F → F
  pub trunc : F → F
  pub add : F → F → F
  pub sub : F → F → F
  pub div : F → F → F
  pub lt : F → F → Bool
  pub le : F → F → Bool
  pub eq : F → F → Bool

-- time.Duration.Hours of a duration of `ns` nanoseconds, not negative.
module _ {F : Type 0} ⦃fl : Floats F⦄ where
  abbrev pub duration_hours : ℕ → F
  duration_hours ns =
      fl.add (fl.of_ℕ (ns / 3600000000000))
        (fl.div (fl.of_ℕ (ns % 3600000000000)) (fl.of_ℕ 3600000000000))

  -- a.Sub(b).Hours()
  abbrev pub hours_between : ℕ → ℕ → F
  hours_between a b = if leb b a then duration_hours (a - b) else fl.neg (duration_hours (b - a))

-- A concrete instance for the tests: whole numbers, with subtraction that stops at 0.
abbrev pub whole_floats : Floats ℕ
whole_floats = record {
  of_ℕ = λ n. n;
  neg = λ n. 0;
  abs = λ n. n;
  trunc = λ n. n;
  add = λ a b. a + b;
  sub = λ a b. a - b;
  div = λ a b. a / b;
  lt = λ a b. ltb a b;
  le = λ a b. leb a b;
  eq = λ a b. a == b;
}

-- ===== src/Base/Faults.antt =====
-- Statements on a database that may fail: code that returns at its first failing statement is run with
-- a budget, the number of statements that still succeed.
use Prim.Native.Nat.{ℕ, zero, suc}
use mathlib.Core.Option.{Option, none, some}

-- `none`: no statement fails.
abbrev pub Budget : Type 0
Budget = Option ℕ

-- One statement: `none` where it fails.
abbrev pub spend : Budget → Option Budget
spend none = some none
spend (some zero) = none
spend (some (suc n)) = some (some n)

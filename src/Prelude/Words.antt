-- ===== src/Prelude/Words.antt =====
-- 64-bit machine integers as bit patterns, numbers below 2 ^ 64 with the wrap-around of Go written
-- out, and instants and durations.
use Prim.Native.Nat.{ℕ, ◌+◌, ◌-◌, ◌%◌, ◌^◌}
use mathlib.Core.Path.{◌≡◌}
use mathlib.Core.Bool.{Bool, ◌&&◌}
use native.Mathlib.Omega.{arith}
use itt_engine.Prelude.Tests.{ltb}

-- Two's complement addition and subtraction, of `int`, `int64` and `uint64` alike.
abbrev pub add64 : ℕ → ℕ → ℕ
add64 a b = (a + b) % 2 ^ 64

abbrev pub sub64 : ℕ → ℕ → ℕ
sub64 a b = (a + (2 ^ 64 - b % 2 ^ 64)) % 2 ^ 64

-- `x > 0` of a signed pattern.
abbrev pub is_positive : ℕ → Bool
is_positive x = ltb 0 x && ltb x (2 ^ 63)

-- `a < b` of signed patterns.
abbrev pub less64 : ℕ → ℕ → Bool
less64 a b = ltb ((a + 2 ^ 63) % 2 ^ 64) ((b + 2 ^ 63) % 2 ^ 64)

-- What an edge's `Count += e.Count - 1` makes of the count that `AddEdge` has raised by one.
pub add64-add64-sub64 : (a b : ℕ) → add64 (add64 a 1) (sub64 b 1) ≡ add64 a b
add64-add64-sub64 a b = omega arith

-- An instant of `time.Time`, in nanoseconds after the zero time, which `IsZero` tests for.
abbrev pub Time : Type 0
Time = ℕ

abbrev pub before : Time → Time → Bool
before = ltb

abbrev pub after : Time → Time → Bool
after a b = ltb b a

-- ===== src/Prelude/Bits.antt =====
-- The flag words of the C code: `x & f` for a flag `f = 2 ^ k`, as a Boolean test.
use fapolicyd.Prelude.Tests.{◌==◌}
use Prim.Native.Nat.{ℕ, ◌/◌, ◌%◌, ◌^◌}
use mathlib.Core.Bool.{Bool}

-- `x & (1 << k)`, as a condition.
abbrev pub bit_at : ℕ → ℕ → Bool
bit_at x k = x / 2 ^ k % 2 == 1

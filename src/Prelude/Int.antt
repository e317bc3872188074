-- ===== src/Prelude/Int.antt =====
-- Signed integers over the native numbers, under the library's names, and the widths of the program.
use Prim.Native.Nat.{ℕ, ◌-◌, ◌^◌, ◌≤◌}
use mathlib.Core.Bool.{Bool, true, false}
use httpserver_demo.Prelude.Tests.{ltb}

-- `negsuc n` is -(n + 1).
pub data ℤ : Type 0 where
  pos : ℕ → ℤ
  negsuc : ℕ → ℤ

abbrev pub ltb_ℤ : ℤ → ℤ → Bool
ltb_ℤ (pos a) (pos b) = ltb a b
ltb_ℤ (pos a) (negsuc b) = false
ltb_ℤ (negsuc a) (pos b) = true
ltb_ℤ (negsuc a) (negsuc b) = ltb b a

abbrev pub max_int64 : ℕ
max_int64 = 2 ^ 63 - 1

-- The values of `int64_t`.
abbrev pub IsInt64 : ℤ → Type 0
IsInt64 (pos n) = n ≤ max_int64
IsInt64 (negsuc n) = n ≤ max_int64

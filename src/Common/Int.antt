-- ===== src/Common/Int.antt =====
-- Signed integers over the native numbers: the differences of two times.
use Prim.Native.Nat.{ℕ, ◌-◌, ◌^◌, min}
use flyteadmin.Common.Tests.{leb, if◌then◌else◌}

-- `negsuc n` is -(n + 1).
pub data ℤ : Type 0 where
  pos : ℕ → ℤ
  negsuc : ℕ → ℤ

-- a - b, as an integer.
abbrev pub sub_ℕ : ℕ → ℕ → ℤ
sub_ℕ a b = if leb b a then pos (a - b) else negsuc (b - a - 1)

abbrev pub max_int64 : ℕ
max_int64 = 2 ^ 63 - 1

-- The Go `t.Sub(u)` of two times in nanoseconds: the difference, kept within an `int64`.
unfoldable pub sub_time : ℕ → ℕ → ℤ
sub_time t u = elim (sub_ℕ t u) [
  | pos n ↦ pos (min n max_int64)
  | negsuc n ↦ negsuc (min n max_int64)
]

-- ===== src/Base/Arith.antt =====
-- `floorg`, `ceilg` and `divide_ceil` of util.h. A `size_t` is a number; the sums that the callers
-- make stay far below 2 ^ 64.
use Prim.Native.Nat.{ℕ, ◌+◌, ◌-◌, ◌/◌, ◌%◌}

unfoldable pub floorg : ℕ → ℕ → ℕ
floorg n grain = n - n % grain

unfoldable pub ceilg : ℕ → ℕ → ℕ
unfolding floorg
ceilg n grain = floorg (n + grain - 1) grain

unfoldable pub divide_ceil : ℕ → ℕ → ℕ
divide_ceil n1 n2 = (n1 + n2 - 1) / n2

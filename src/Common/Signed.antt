-- ===== src/Common/Signed.antt =====
-- `i64`.
use proxy.Common.Tests.{◌==◌}
use mathlib.Core.Path.{◌≡◌}
use mathlib.Core.Logic.{◌↔◌}
use mathlib.Core.Bool.{Bool, true, false}
use Prim.Native.Nat.{ℕ}
use native.Mathlib.Omega.{arith}

pub data I64 : Type 0 where
  pos : ℕ → I64
  negsuc : ℕ → I64

unfoldable pub i64_eq : I64 → I64 → Bool
i64_eq (pos a) (pos b) = a == b
i64_eq (negsuc a) (negsuc b) = a == b
i64_eq (pos a) (negsuc b) = false
i64_eq (negsuc a) (pos b) = false

pub i64_eq_iff : (a b : I64) → (i64_eq a b ≡ true) ↔ (a ≡ b)
unfolding i64_eq
i64_eq_iff (pos a) (pos b) = ground arith
i64_eq_iff (negsuc a) (negsuc b) = ground arith
i64_eq_iff (pos a) (negsuc b) = ground arith
i64_eq_iff (negsuc a) (pos b) = ground arith

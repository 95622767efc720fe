-- ===== src/Common/Int.antt =====
-- Go's `int` where it may be negative: `negsuc n` is -(n + 1).
use task_api.Common.{ℕ, Bool, true, false}

pub data ℤ : Type 0 where
  pos : ℕ → ℤ
  negsuc : ℕ → ℤ

abbrev pub is_negative : ℤ → Bool
is_negative (pos n) = false
is_negative (negsuc n) = true

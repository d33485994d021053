-- ===== src/Int.antt =====
-- Signed integers over the native numbers, and the counters of 32 bits that the status keeps.
use agentroll.Prelude.{ℕ, zero, suc, ◌+◌, ◌-◌, ◌^◌, ltb, if◌then◌else◌}

-- `negsuc n` is -(n + 1).
pub data ℤ : Type 0 where
  pos : ℕ → ℤ
  negsuc : ℕ → ℤ

-- `++` on an int32: after 2 ^ 31 - 1 comes - 2 ^ 31.
abbrev pub inc32 : ℤ → ℤ
inc32 (pos n) = if ltb n (2 ^ 31 - 1) then pos (n + 1) else negsuc (2 ^ 31 - 1)
inc32 (negsuc zero) = pos 0
inc32 (negsuc (suc n)) = negsuc n

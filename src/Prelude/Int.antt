-- ===== src/Prelude/Int.antt =====
-- Signed numbers over the native ones: `negsuc n` is -(n + 1).
use Prim.Native.Nat.{ℕ, ◌-◌}
use mathlib.Core.Bool.{Bool, false}
use streammate_studio_host.Prelude.Tests.{◌==◌, if◌then◌else◌}

pub data ℤ : Type 0 where
  pos : ℕ → ℤ
  negsuc : ℕ → ℤ

-- -n
abbrev pub neg_ℕ : ℕ → ℤ
neg_ℕ n = if n == 0 then pos 0 else negsuc (n - 1)

abbrev pub equals : ℤ → ℕ → Bool
equals (pos n) m = n == m
equals (negsuc n) m = false

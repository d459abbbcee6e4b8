-- ===== src/Prelude/Integers.antt =====
-- Signed numbers over the native natural numbers, as far as the program adds an offset.
use Prim.Native.Nat.{ℕ, suc, ◌+◌, ◌-◌}
use snapdog_os_installer.Prelude.Tests.{leb, if◌then◌else◌}

-- `negsuc n` is `- (n + 1)`.
pub data ℤ : Type 0 where
  pos negsuc : ℕ → ℤ

infixl 50 ◌+ℤ◌
abbrev pub ◌+ℤ◌ : ℤ → ℤ → ℤ
pos a +ℤ pos b = pos (a + b)
pos a +ℤ negsuc b = if leb (suc b) a then pos (a - suc b) else negsuc (b - a)
negsuc a +ℤ pos b = if leb (suc a) b then pos (b - suc a) else negsuc (a - b)
negsuc a +ℤ negsuc b = negsuc (suc (a + b))

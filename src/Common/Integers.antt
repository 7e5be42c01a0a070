-- ===== src/Common/Integers.antt =====
-- Python's integers where they can be negative, with the order and the difference.
use Prim.Native.Nat.{ℕ, ◌+◌, ◌-◌}
use mathlib.Core.Bool.{Bool, true, false}
use zigbeelens.Common.Tests.{ltb, leb, if◌then◌else◌}

-- `negsuc n` is -(n + 1).
pub data ℤ : Type 0 where
  pos negsuc : ℕ → ℤ

abbrev pub leb_ℤ : ℤ → ℤ → Bool
leb_ℤ (ℤ.pos a) (ℤ.pos b) = leb a b
leb_ℤ (ℤ.pos a) (ℤ.negsuc b) = false
leb_ℤ (ℤ.negsuc a) (ℤ.pos b) = true
leb_ℤ (ℤ.negsuc a) (ℤ.negsuc b) = leb b a

abbrev pub difference : ℕ → ℕ → ℤ
difference a b = if ltb a b then ℤ.negsuc (b - a - 1) else ℤ.pos (a - b)

infixl 65 ◌-ℤ◌
abbrev pub ◌-ℤ◌ : ℤ → ℤ → ℤ
ℤ.pos a -ℤ ℤ.pos b = difference a b
ℤ.pos a -ℤ ℤ.negsuc b = ℤ.pos (a + b + 1)
ℤ.negsuc a -ℤ ℤ.pos b = ℤ.negsuc (a + b)
ℤ.negsuc a -ℤ ℤ.negsuc b = difference b a

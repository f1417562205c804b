-- ===== src/Prelude/Int.antt =====
-- Go's int: `negsuc n` is -(n + 1). `to_int` is the conversion int(v) of a uint64.
use Prim.Native.Nat.{ℕ, ◌-◌, ◌<◌}
use mathlib.Core.Path.{◌≡◌}
use mathlib.Core.Bool.{Bool, true, false}
use native.Mathlib.Omega.{arith}
use ots.Prelude.Tests.{ltb, if◌then◌else◌}

pub data ℤ : Type 0 where
  pos : ℕ → ℤ
  negsuc : ℕ → ℤ

unfoldable pub to_int : ℕ → ℤ
to_int v = if ltb v 0x8000_0000_0000_0000 then pos v else negsuc (0xffff_ffff_ffff_ffff - v)

-- a < b
unfoldable pub int_less : ℤ → ℤ → Bool
int_less (pos a) (pos b) = ltb a b
int_less (pos a) (negsuc b) = false
int_less (negsuc a) (pos b) = true
int_less (negsuc a) (negsuc b) = ltb b a

pub to_int_small : (v : ℕ) → v < 0x8000_0000_0000_0000 → to_int v ≡ pos v
unfolding to_int
to_int_small v h = ground arith

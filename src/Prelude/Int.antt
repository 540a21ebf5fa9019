-- ===== src/Prelude/Int.antt =====
-- The few signed numbers that the source computes: bit positions, which are -1 for zero.
use sel4cp.Prelude.Tests.{leb, if◌then◌else◌}
use Prim.Native.Nat.{ℕ}

-- `negsuc n` is -(n + 1).
pub data ℤ : Type 0 where
  pos : ℕ → ℤ
  negsuc : ℕ → ℤ

abbrev pub min_ℤ : ℤ → ℤ → ℤ
min_ℤ (pos a) (pos b) = if leb a b then pos a else pos b
min_ℤ (pos a) (negsuc b) = negsuc b
min_ℤ (negsuc a) (pos b) = negsuc a
min_ℤ (negsuc a) (negsuc b) = if leb a b then negsuc b else negsuc a

-- ===== src/Invocation/Registers.antt =====
-- The registers of a thread (`Sel4Aarch64Regs` of tool/sel4coreplat/sel4.py).
use sel4cp.Prelude.{ℕ, Option, none, some, List, [], ◌∷◌, map, length}

pub record Aarch64Regs : Type 0 where
  pub pc : Option ℕ
  pub sp : Option ℕ
  pub spsr : Option ℕ
  pub x0 : Option ℕ
  pub x1 : Option ℕ
  pub x2 : Option ℕ
  pub x3 : Option ℕ
  pub x4 : Option ℕ
  pub x5 : Option ℕ
  pub x6 : Option ℕ
  pub x7 : Option ℕ
  pub x8 : Option ℕ
  pub x16 : Option ℕ
  pub x17 : Option ℕ
  pub x18 : Option ℕ
  pub x29 : Option ℕ
  pub x30 : Option ℕ
  pub x9 : Option ℕ
  pub x10 : Option ℕ
  pub x11 : Option ℕ
  pub x12 : Option ℕ
  pub x13 : Option ℕ
  pub x14 : Option ℕ
  pub x15 : Option ℕ
  pub x19 : Option ℕ
  pub x20 : Option ℕ
  pub x21 : Option ℕ
  pub x22 : Option ℕ
  pub x23 : Option ℕ
  pub x24 : Option ℕ
  pub x25 : Option ℕ
  pub x26 : Option ℕ
  pub x27 : Option ℕ
  pub x28 : Option ℕ
  pub tpidr_el0 : Option ℕ
  pub tpidrro_el0 : Option ℕ

-- `Sel4Aarch64Regs()`: no register is given.
abbrev pub no_regs : Aarch64Regs
no_regs = record {
  pc = none;
  sp = none;
  spsr = none;
  x0 = none;
  x1 = none;
  x2 = none;
  x3 = none;
  x4 = none;
  x5 = none;
  x6 = none;
  x7 = none;
  x8 = none;
  x16 = none;
  x17 = none;
  x18 = none;
  x29 = none;
  x30 = none;
  x9 = none;
  x10 = none;
  x11 = none;
  x12 = none;
  x13 = none;
  x14 = none;
  x15 = none;
  x19 = none;
  x20 = none;
  x21 = none;
  x22 = none;
  x23 = none;
  x24 = none;
  x25 = none;
  x26 = none;
  x27 = none;
  x28 = none;
  tpidr_el0 = none;
  tpidrro_el0 = none;
}

abbrev pub or_zero : Option ℕ → ℕ
or_zero none = 0
or_zero (some x) = x

unfoldable pub as_tuple : Aarch64Regs → List ℕ
as_tuple r = map or_zero (
    r.pc ∷ r.sp ∷ r.spsr ∷ r.x0 ∷ r.x1 ∷ r.x2 ∷ r.x3 ∷ r.x4 ∷ r.x5 ∷ r.x6 ∷ r.x7 ∷ r.x8 ∷ r.x16
    ∷ r.x17 ∷ r.x18 ∷ r.x29 ∷ r.x30 ∷ r.x9 ∷ r.x10 ∷ r.x11 ∷ r.x12 ∷ r.x13 ∷ r.x14 ∷ r.x15 ∷ r.x19
    ∷ r.x20 ∷ r.x21 ∷ r.x22 ∷ r.x23 ∷ r.x24 ∷ r.x25 ∷ r.x26 ∷ r.x27 ∷ r.x28 ∷ r.tpidr_el0
    ∷ r.tpidrro_el0 ∷ [])

unfoldable pub count : Aarch64Regs → ℕ
unfolding as_tuple
count r = length (as_tuple r)

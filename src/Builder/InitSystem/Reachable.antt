-- ===== src/Builder/InitSystem/Reachable.antt =====
-- The states of `InitSystem` that its operations reach, and what holds in all of them.
use Prim.Native.String.{String}
use sel4cp.Prelude.{ℕ, ◌<◌, ◌≡◌, ap, Option, List, arith, ok}
use sel4cp.Kernel.Types.{UntypedObject}
use sel4cp.Builder.InitSystem.{KernelObject, InitSystem, reserve}
use sel4cp.Builder.InitSystem.Fixed.{allocate_fixed_objects}
use sel4cp.Builder.InitSystem.Objects.{allocate_objects}
use sel4cp.Builder.InitSystem.Advanced.{
  Advanced, Advanced-refl, Advanced-trans, reserve-Advanced, allocate_fixed_objects-Advanced,
  allocate_objects-Advanced,
}

-- One call of an operation that returns.
pub data Step : InitSystem → InitSystem → Type 0 where
  reserve_step :
      {s t : InitSystem} (allocations : List (UntypedObject × ℕ))
      → reserve allocations s ≡ ok t
      → Step s t
  fixed_step :
      {s t : InitSystem} (phys_address object_type count : ℕ) (names : List String)
      (made : List KernelObject)
      → allocate_fixed_objects phys_address object_type count names s ≡ ok (made, t)
      → Step s t
  objects_step :
      {s t : InitSystem} (object_type : ℕ) (names : List String) (size : Option ℕ)
      (made : List KernelObject)
      → allocate_objects object_type names size s ≡ ok (made, t)
      → Step s t

pub data Reaches : InitSystem → InitSystem → Type 0 where
  here : {s : InitSystem} → Reaches s s
  further : {s t u : InitSystem} → Step s t → Reaches t u → Reaches s u

Step-Advanced : (s t : InitSystem) → 0 < s.kernel_config.fan_out_limit → Step s t → Advanced s t
Step-Advanced s t live (reserve_step allocations h) = reserve-Advanced allocations s t h
Step-Advanced s t live (fixed_step p kind n names made h) =
    allocate_fixed_objects-Advanced p kind n names s t made h
Step-Advanced s t live (objects_step kind names size made h) =
    allocate_objects-Advanced kind names size s t made live h

-- After any calls of the operations of `InitSystem` that return, in any order, with a fan-out limit
-- above 0: the retypes that were issued since fill every slot from the next free one then up to the
-- next free one now, in order and once, and the objects recorded since have rising slots of these.
pub Reaches-Advanced :
    (s t : InitSystem) → 0 < s.kernel_config.fan_out_limit → Reaches s t → Advanced s t
Reaches-Advanced s t live here = Advanced-refl s
Reaches-Advanced s t live (further {t = m} step rest) =
    let first = Step-Advanced s m live step in
    let limit : m.kernel_config.fan_out_limit ≡ s.kernel_config.fan_out_limit =
      ap (λ c. c.fan_out_limit) first.same_config in
    Advanced-trans s m t first (Reaches-Advanced m t (omega arith) rest)

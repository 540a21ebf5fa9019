-- ===== src/Kernel/Boot/Partial.antt =====
-- Which addresses are device memory and which are normal memory after the partial boot.
use mathlib.Core.Path.{subst}
use sel4cp.Prelude.{
  ℕ, ◌+◌, ◌≤◌, ◌≡◌, refl, sym, ap, ◌∙◌, Bool, true, false, not, ◌&&◌, ◌||◌, List, [], ◌∷◌, arith,
  Result, ok, err, value_error, ◌>>=◌, >>=-eq-ok, ok_injective, inl, inr, All,
}
use sel4cp.Memory.{DisjointMemoryRegion, insert_region, remove_region}
use sel4cp.Memory.Cover.{inside, covers, IsOrdered}
use sel4cp.Memory.Insert.{insert_region_lem}
use sel4cp.Memory.Remove.{is_held, Removed, remove_region_lem}
use sel4cp.Kernel.Types.{KernelConfig}
use sel4cp.Kernel.Boot.{
  KernelMemory, KernelPartialBootInfo, remove_devices, move_memory, kernel_partial_boot,
}

-- A removal that returns is of a range that was held.
pub remove_region-Removed :
    (base end : ℕ) (rs rest : DisjointMemoryRegion)
    → base ≤ end
    → IsOrdered 0 rs
    → remove_region base end rs ≡ ok rest
    → Removed base end 0 rs rest
remove_region-Removed base end rs rest range o h = elim (remove_region_lem base end rs range o) [
  | inl missing ↦ absurd (differ (sym missing.1 ∙ h))
  | inr held ↦
      let (rest', made, past) = held.1 in
      subst (Removed base end 0 rs) (ok_injective (sym made ∙ h)) past
]
  where
    differ : err value_error ≡ ok rest → ⊥
    differ e = cc

-- A range that was held was covered.
pub is_held-covers :
    (base end : ℕ) (rs : DisjointMemoryRegion) (a : ℕ)
    → is_held base end rs ≡ true
    → inside base end a ≡ true
    → covers rs a ≡ true
is_held-covers base end [] a h i = cc
is_held-covers base end (r ∷ rs) a h i = ground (arith, is_held-covers base end rs a)

pub remove_region-covers :
    (base end : ℕ) (rs rest : DisjointMemoryRegion)
    → base ≤ end
    → IsOrdered 0 rs
    → remove_region base end rs ≡ ok rest
    → (a : ℕ) → inside base end a ≡ true
    → covers rs a ≡ true
remove_region-covers base end rs rest range o h a i = elim (remove_region_lem base end rs range o) [
  | inl missing ↦ absurd (differ (sym missing.1 ∙ h))
  | inr held ↦ is_held-covers base end rs a held.0 i
]
  where
    differ : err value_error ≡ ok rest → ⊥
    differ e = cc

pub insert_region-covers :
    (base end : ℕ) (rs after : DisjointMemoryRegion)
    → base ≤ end
    → IsOrdered 0 rs
    → insert_region base end rs ≡ ok after
    → IsOrdered 0 after × ((a : ℕ) → covers after a ≡ (inside base end a || covers rs a))
insert_region-covers base end rs after range o h = elim (insert_region_lem base end rs range o) [
  | inl full ↦ absurd (differ (sym full.1 ∙ h))
  | inr room ↦
      let (after', made, ordered, covered) = room.1 in
      subst (λ t. IsOrdered 0 t × ((a : ℕ) → covers t a ≡ (inside base end a || covers rs a)))
        (ok_injective (sym made ∙ h)) (ordered, covered)
]
  where
    differ : {e : _} → err e ≡ ok after → ⊥
    differ e = cc

-- The address lies in a frame of one of the kernel's devices.
abbrev pub in_frames : ℕ → List ℕ → ℕ → Bool
in_frames frame_size [] a = false
in_frames frame_size (p ∷ ps) a = inside p (p + frame_size) a || in_frames frame_size ps a

-- The address lies in the physical memory.
abbrev pub in_ranges : List (ℕ × ℕ) → ℕ → Bool
in_ranges [] a = false
in_ranges ((start, end) ∷ rs) a = inside start end a || in_ranges rs a

remove_devices-covers :
    (frame_size : ℕ) (paddrs : List ℕ) (rs after : DisjointMemoryRegion)
    → IsOrdered 0 rs
    → remove_devices frame_size paddrs rs ≡ ok after
    → IsOrdered 0 after
      × ((a : ℕ) → covers after a ≡ (covers rs a && not (in_frames frame_size paddrs a)))
unfolding remove_devices
remove_devices-covers frame_size [] rs after o h =
    let same = ok_injective h in
    (subst (IsOrdered 0) same o, λ a. ap (λ t. covers t a) (sym same) ∙ kept (covers rs a))
  where
    kept : (b : Bool) → b ≡ (b && true)
    kept b = ground arith
remove_devices-covers frame_size (p ∷ ps) rs after o h =
    let (middle, first, more) = >>=-eq-ok (remove_region p (p + frame_size) rs) _ h in
    let past = remove_region-Removed p (p + frame_size) rs middle (omega arith) o first in
    let (ordered, covered) = remove_devices-covers frame_size ps middle after past.ordered more in
    (ordered, λ a. ground (arith, covered a, past.left a))

-- No range of the physical memory ends before it starts.
abbrev pub AllRanges : List (ℕ × ℕ) → Type 0
AllRanges = All (λ r. r.0 ≤ r.1)

move_memory-covers :
    (ranges : List (ℕ × ℕ)) (device normal device' normal' : DisjointMemoryRegion)
    → AllRanges ranges
    → IsOrdered 0 device
    → IsOrdered 0 normal
    → move_memory ranges device normal ≡ ok (device', normal')
    → (IsOrdered 0 device' × IsOrdered 0 normal')
      × ((a : ℕ)
          → (covers device' a ≡ (covers device a && not (in_ranges ranges a)))
            × (covers normal' a ≡ (in_ranges ranges a || covers normal a)))
unfolding move_memory
move_memory-covers [] device normal device' normal' r o p h =
    let one : device ≡ device' = ap (λ t. t.0) (ok_injective h) in
    let two : normal ≡ normal' = ap (λ t. t.1) (ok_injective h) in
    (
      (subst (IsOrdered 0) one o, subst (IsOrdered 0) two p),
      λ a.
          (ap (λ t. covers t a) (sym one) ∙ kept (covers device a), ap (λ t. covers t a) (sym two)),
    )
  where
    kept : (b : Bool) → b ≡ (b && true)
    kept b = ground arith
move_memory-covers ((start, end) ∷ ranges) device normal device' normal' r o p h =
    let (d, removed, h1) = >>=-eq-ok (remove_region start end device) _ h in
    let (n, inserted, more) = >>=-eq-ok (insert_region start end normal) _ h1 in
    let past = remove_region-Removed start end device d r.0 o removed in
    let (n_ordered, n_covers) = insert_region-covers start end normal n r.0 p inserted in
    let (ordered, rest) =
      move_memory-covers ranges d n device' normal' r.1 past.ordered n_ordered more in
    (
      ordered,
      λ a. (ground (arith, (rest a).0, past.left a), ground (arith, (rest a).1, n_covers a)),
    )

-- What the partial boot owes.
pub record Booted (config : KernelConfig) (mem : KernelMemory) (info : KernelPartialBootInfo)
    : Type 0 where
  pub device_ordered : IsOrdered 0 info.device_memory
  pub normal_ordered : IsOrdered 0 info.normal_memory
  pub device_covers :
      (a : ℕ)
      → covers info.device_memory a ≡ (
          (inside 0 config.paddr_user_device_top a
            && not (in_frames config.kernel_frame_size mem.device_addrs a))
          && not (in_ranges mem.phys_mem a))
  pub normal_covers :
      (a : ℕ)
      → covers info.normal_memory a
        ≡ (in_ranges mem.phys_mem a && not (inside mem.self_mem.0 mem.self_mem.1 a))
  pub self_held :
      (a : ℕ) → inside mem.self_mem.0 mem.self_mem.1 a ≡ true → in_ranges mem.phys_mem a ≡ true
  pub same_boot : info.boot_region ≡ mem.boot_mem
  pub apart : (a : ℕ) → (covers info.device_memory a && covers info.normal_memory a) ≡ false

-- The steps of the partial boot that follow its first, second and third one.
abbrev finished :
    KernelMemory → DisjointMemoryRegion → DisjointMemoryRegion → Result KernelPartialBootInfo
finished mem device normal =
    ok (record { device_memory = device; normal_memory = normal; boot_region = mem.boot_mem })

abbrev then_clear :
    KernelMemory → DisjointMemoryRegion × DisjointMemoryRegion → Result KernelPartialBootInfo
then_clear mem (device, normal) = do
  normal' ← remove_region mem.self_mem.0 mem.self_mem.1 normal
  finished mem device normal'

abbrev then_move : KernelMemory → DisjointMemoryRegion → Result KernelPartialBootInfo
then_move mem device = move_memory mem.phys_mem device [] >>= then_clear mem

abbrev then_free : KernelConfig → KernelMemory → DisjointMemoryRegion → Result KernelPartialBootInfo
then_free config mem all =
    remove_devices config.kernel_frame_size mem.device_addrs all >>= then_move mem

-- After a partial boot that returns, where no range of the kernel's file ends before it starts: the
-- normal memory is exactly the physical memory without the kernel's image, the device memory is
-- exactly what lies below the top outside the kernel's devices and the physical memory, both lists
-- are in order, and no address is in both.
pub kernel_partial_boot-Booted :
    (config : KernelConfig) (mem : KernelMemory) (info : KernelPartialBootInfo)
    → AllRanges mem.phys_mem
    → mem.self_mem.0 ≤ mem.self_mem.1
    → kernel_partial_boot config mem ≡ ok info
    → Booted config mem info
unfolding kernel_partial_boot
kernel_partial_boot-Booted config mem info ranges self h =
    let top = config.paddr_user_device_top in
    let (all, inserted, h1) = >>=-eq-ok (insert_region 0 top []) (then_free config mem) h in
    let (device, freed, h2) =
      >>=-eq-ok (remove_devices config.kernel_frame_size mem.device_addrs all) (then_move mem) h1 in
    let ((device', normal), moved, h3) =
      >>=-eq-ok (move_memory mem.phys_mem device []) (then_clear mem) h2 in
    let (normal', cleared, same) =
      >>=-eq-ok (remove_region mem.self_mem.0 mem.self_mem.1 normal) (finished mem device') h3 in
    let (all_ordered, all_covers) = insert_region-covers 0 top [] all (omega arith) tt inserted in
    let (freed_ordered, freed_covers) =
      remove_devices-covers config.kernel_frame_size mem.device_addrs all device all_ordered
        freed in
    let (ordered, covered) =
      move_memory-covers mem.phys_mem device [] device' normal ranges freed_ordered tt moved in
    let past =
      remove_region-Removed mem.self_mem.0 mem.self_mem.1 normal normal' self ordered.1 cleared in
    subst (Booted config mem) (ok_injective same) (record {
      device_ordered = ordered.0;
      normal_ordered = past.ordered;
      device_covers = λ a. ground (arith, (covered a).0, freed_covers a, all_covers a);
      normal_covers = λ a. ground (arith, (covered a).1, past.left a);
      self_held = λ a i. ground (
        arith,
        (covered a).1,
        remove_region-covers mem.self_mem.0 mem.self_mem.1 normal normal' self ordered.1 cleared a
            i,
      );
      same_boot = refl;
      apart = λ a. ground (arith, (covered a).0, (covered a).1, past.left a);
    })

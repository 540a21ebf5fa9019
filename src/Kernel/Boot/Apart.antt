-- ===== src/Kernel/Boot/Apart.antt =====
-- The untyped objects of an emulated boot share no memory.
pub mod Groups
use mathlib.Core.Path.{subst}
use mathlib.Core.List.{append-nil}
use sel4cp.Prelude.{
  ℕ, suc, ◌^◌, ◌+◌, ◌-◌, ◌≤◌, ◌<◌, ◌≡◌, ◌⊎◌, inl, inr, refl, sym, ap, ◌∙◌, Bool, true, false, not,
  ◌&&◌, ◌||◌, none, some, Option, List, [], ◌∷◌, ◌++◌, map, arith, ok, >>=-eq-ok, guard-eq-ok,
  ok_injective, ◌==◌, length, All, All-append,
}
use sel4cp.Bits.{pow_pos}
use sel4cp.Words.{word_mod}
use sel4cp.Memory.{
  MemoryRegion, DisjointMemoryRegion, size, remove_region, aligned_power_of_two_regions, split_all,
}
use sel4cp.Memory.Cover.{inside, covers, IsOrdered, IsOrdered-weaken}
use sel4cp.Memory.Remove.{Removed}
use sel4cp.Memory.Split.{IsBlock}
use sel4cp.Memory.SplitAll.{AllWords, region-blocks, Tiles-covers, split_all-covers}
use sel4cp.Kernel.Types.{UntypedObject, KernelBootInfo, KernelConfig}
use sel4cp.Kernel.Allocator.Fresh.{Apart, AllApart}
use sel4cp.Kernel.Boot.{
  KernelMemory, KernelPartialBootInfo, calculate_kernel_virtual_base, calculate_rootserver_size,
  rootserver_max_size_bits, last_fit, take_fit, kernel_partial_boot, number_caps, number_all,
  fixed_cap_count, get_arch_n_paging, page_cap_count, untyped_regions, emulate_kernel_boot,
}
use sel4cp.Kernel.Boot.Partial.{
  in_ranges, AllRanges, Booted, kernel_partial_boot-Booted, remove_region-Removed,
  remove_region-covers,
}
use sel4cp.Kernel.Boot.Apart.Groups.{
  ApartRegions, Separate, AllFilled, regions_apart, NoCommon, one_apart, Separate-append,
  IsOrdered-Separate, covers-append, Group, Group-append, blocks_filled, split_all-Group,
  region-Group, AllWords-covers,
}

-- What the boot asks of what it is given: ranges that do not end before they start, in an address
-- space of 64 bits, and the part of the kernel for booting inside the kernel.
pub record IsSane (config : KernelConfig) (mem : KernelMemory) (phys reserved : MemoryRegion)
    : Type 0 where
  pub top : config.paddr_user_device_top < word_mod
  pub ranges : AllRanges mem.phys_mem
  pub bounded : All (λ r. r.1 < word_mod) mem.phys_mem
  pub self : mem.self_mem.0 ≤ mem.self_mem.1
  pub boot : mem.boot_mem.base ≤ mem.boot_mem.end
  pub boot_low : mem.self_mem.0 ≤ mem.boot_mem.base
  pub boot_high : mem.boot_mem.end ≤ mem.self_mem.1
  pub task : phys.base ≤ phys.end
  pub range : reserved.base ≤ reserved.end

in_ranges_small :
    (rs : List (ℕ × ℕ)) (a : ℕ)
    → All (λ r. r.1 < word_mod) rs
    → in_ranges rs a ≡ true
    → suc a < word_mod
in_ranges_small [] a h i = cc
in_ranges_small (r ∷ rs) a h i = elim (either (inside r.0 r.1 a) (in_ranges rs a) i) [
  | inl here ↦ ground (arith, h.0)
  | inr later ↦ in_ranges_small rs a h.1 later
]
  where
    either : (x y : Bool) → (x || y) ≡ true → (x ≡ true) ⊎ (y ≡ true)
    either x y i = ground arith

-- A region whose addresses are small, where it has bytes.
region_small :
    (r : MemoryRegion)
    → ((a : ℕ) → inside r.base r.end a ≡ true → suc a < word_mod)
    → r.base < r.end
    → r.end < word_mod
region_small r h more =
    let last : inside r.base r.end (r.end - 1) ≡ true = ground arith in
    omega (arith, h (r.end - 1) last)

take_fit-covers :
    (objects_size : ℕ) (found : Option ℕ) (rs rest : DisjointMemoryRegion)
    → IsOrdered 0 rs
    → take_fit objects_size found rs ≡ ok rest
    → IsOrdered 0 rest × ((a : ℕ) → covers rest a ≡ true → covers rs a ≡ true)
take_fit-covers objects_size none rs rest o h = cc
take_fit-covers objects_size (some start) rs rest o h =
    let past = remove_region-Removed start (start + objects_size) rs rest (omega arith) o h in
    (past.ordered, λ a covered. ground (arith, past.left a))

-- At one address: which of the reserved region, the device memory, the boot region and the normal
-- memory hold it, from what is known of the memory after the partial boot.
at_most_one :
    (reserved device boot normal before self physical below : Bool)
    → (reserved ≡ true → before ≡ true)
    → (normal ≡ true → before ≡ true)
    → (normal ≡ true → reserved ≡ false)
    → (boot ≡ true → self ≡ true)
    → before ≡ (physical && not self)
    → (self ≡ true → physical ≡ true)
    → device ≡ (below && not physical)
    → ((reserved && device) ≡ false)
      × ((boot && normal) ≡ false)
      × (((reserved || device) && (boot || normal)) ≡ false)
at_most_one reserved device boot normal before self physical below h1 h2 h3 h4 e1 h5 e2 =
    ground arith

-- The four lists of blocks, from the memory that each is cut from.
groups-Separate :
    (config : KernelConfig) (mem : KernelMemory) (info : KernelPartialBootInfo)
    (phys reserved : MemoryRegion)
    → IsSane config mem phys reserved
    → Booted config mem info
    → (n1 n2 n3 : DisjointMemoryRegion) → Removed phys.base phys.end 0 info.normal_memory n1
    → Removed reserved.base reserved.end 0 n1 n2
    → ((a : ℕ) → inside reserved.base reserved.end a ≡ true → covers n1 a ≡ true)
    → IsOrdered 0 n3
    → ((a : ℕ) → covers n3 a ≡ true → covers n2 a ≡ true)
    → (rb db bb nb : List MemoryRegion)
    → aligned_power_of_two_regions calculate_kernel_virtual_base 47 reserved ≡ ok rb
    → split_all calculate_kernel_virtual_base 47 info.device_memory ≡ ok db
    → aligned_power_of_two_regions calculate_kernel_virtual_base 47 mem.boot_mem ≡ ok bb
    → split_all calculate_kernel_virtual_base 47 n3 ≡ ok nb
    → Separate ((rb ++ db) ++ (bb ++ nb))
groups-Separate config mem info phys reserved sane facts n1 n2 n3 past1 past2 held ordered inner rb
      db bb nb r_made d_made b_made n_made =
    let kvb = calculate_kernel_virtual_base in
    let boot = mem.boot_mem in
    let p = λ (a : ℕ). inside reserved.base reserved.end a in
    let d = λ (a : ℕ). covers info.device_memory a in
    let b = λ (a : ℕ). inside boot.base boot.end a in
    let n = λ (a : ℕ). covers n3 a in
    let reserved_in : (a : ℕ) → p a ≡ true → covers info.normal_memory a ≡ true =
      λ a i. left_in _ _ _ (past1.left a) (held a i) in
    let normal_in : (a : ℕ) → n a ≡ true → covers info.normal_memory a ≡ true =
      λ a c. left_in _ _ _ (past1.left a) (left_in _ _ _ (past2.left a) (inner a c)) in
    let normal_not : (a : ℕ) → n a ≡ true → p a ≡ false =
      λ a c. left_not _ _ _ (past2.left a) (inner a c) in
    let boot_in : (a : ℕ) → b a ≡ true → inside mem.self_mem.0 mem.self_mem.1 a ≡ true = λ a i.
      inside_wider boot.base boot.end mem.self_mem.0 mem.self_mem.1 a sane.boot_low sane.boot_high
        i in
    let small : (a : ℕ) → covers info.normal_memory a ≡ true → suc a < word_mod = λ a c.
      in_ranges_small mem.phys_mem a sane.bounded (left_in _ _ _ (facts.normal_covers a) c) in
    let one = λ (a : ℕ).
      at_most_one (p a) (d a) (b a) (n a) (covers info.normal_memory a)
        (inside mem.self_mem.0 mem.self_mem.1 a) (in_ranges mem.phys_mem a) _ (reserved_in a)
        (normal_in a) (normal_not a) (boot_in a) (facts.normal_covers a) (facts.self_held a)
        (facts.device_covers a) in
    let gr =
      region-Group kvb 47 reserved rb sane.range
        (region_small reserved (λ a i. small a (reserved_in a i))) r_made in
    let gd =
      split_all-Group kvb 47 info.device_memory db facts.device_ordered
        (AllWords-covers info.device_memory (λ a c.
          below_top _ _ _ config.paddr_user_device_top a sane.top (facts.device_covers a) c))
        d_made in
    let gb =
      region-Group kvb 47 boot bb sane.boot
        (region_small boot
          (λ a i. in_ranges_small mem.phys_mem a sane.bounded (facts.self_held a (boot_in a i))))
        b_made in
    let gn =
      split_all-Group kvb 47 n3 nb ordered (AllWords-covers n3 (λ a c. small a (normal_in a c)))
        n_made in
    let first = Group-append rb db p d gr gd (λ a. (one a).0) in
    let second = Group-append bb nb b n gb gn (λ a. (one a).1) in
    (Group-append (rb ++ db) (bb ++ nb) (λ a. p a || d a) (λ a. b a || n a) first second
      (λ a. (one a).2)).1
  where
    left_in : (after before gone : Bool) → after ≡ (before && gone) → after ≡ true → before ≡ true
    left_in after before gone e h = ground arith

    left_not :
        (after before gone : Bool) → after ≡ (before && not gone) → after ≡ true → gone ≡ false
    left_not after before gone e h = ground arith

    inside_wider : (c d e f a : ℕ) → e ≤ c → d ≤ f → inside c d a ≡ true → inside e f a ≡ true
    inside_wider c d e f a low high i = ground arith

    below_top :
        (x y z : Bool) (top a : ℕ)
        → top < word_mod
        → x ≡ ((inside 0 top a && y) && z)
        → x ≡ true
        → suc a < word_mod
    below_top x y z top a h e c = ground arith

untyped_regions-Separate :
    (config : KernelConfig) (mem : KernelMemory) (phys virt reserved : MemoryRegion)
    (device normal : List MemoryRegion)
    → IsSane config mem phys reserved
    → untyped_regions config mem phys virt reserved ≡ ok (device, normal)
    → Separate (device ++ normal)
unfolding untyped_regions
untyped_regions-Separate config mem phys virt reserved device normal sane h =
    let kvb = calculate_kernel_virtual_base in
    let sz = calculate_rootserver_size virt in
    let (info, booted, h1) = >>=-eq-ok (kernel_partial_boot config mem) _ h in
    let (n1, freed, h2) = >>=-eq-ok (remove_region phys.base phys.end info.normal_memory) _ h1 in
    let (n2, kept, h3) = >>=-eq-ok (remove_region reserved.base reserved.end n1) _ h2 in
    let (n3, fitted, h4) =
      >>=-eq-ok (take_fit sz (last_fit sz (2 ^ rootserver_max_size_bits) n2) n2) _ h3 in
    let (rb, r_made, h5) = >>=-eq-ok (aligned_power_of_two_regions kvb 47 reserved) _ h4 in
    let (db, d_made, h6) = >>=-eq-ok (split_all kvb 47 info.device_memory) _ h5 in
    let (bb, b_made, h7) = >>=-eq-ok (aligned_power_of_two_regions kvb 47 info.boot_region) _ h6 in
    let (nb, n_made, same) = >>=-eq-ok (split_all kvb 47 n3) _ h7 in
    let facts = kernel_partial_boot-Booted config mem info sane.ranges sane.self booted in
    let past1 =
      remove_region-Removed phys.base phys.end info.normal_memory n1 sane.task facts.normal_ordered
        freed in
    let past2 =
      remove_region-Removed reserved.base reserved.end n1 n2 sane.range past1.ordered kept in
    let (n3_ordered, n3_covers) =
      take_fit-covers sz (last_fit sz (2 ^ rootserver_max_size_bits) n2) n2 n3 past2.ordered
        fitted in
    let apart : Separate ((rb ++ db) ++ (bb ++ nb)) =
      groups-Separate config mem info phys reserved sane facts n1 n2 n3 past1 past2
        (remove_region-covers reserved.base reserved.end n1 n2 sane.range past1.ordered kept)
        n3_ordered n3_covers rb db bb nb r_made d_made
        (ap (aligned_power_of_two_regions kvb 47) (sym facts.same_boot) ∙ b_made) n_made in
    let one : rb ++ db ≡ device = ap (λ t. t.0) (ok_injective same) in
    let two : bb ++ nb ≡ normal = ap (λ t. t.1) (ok_injective same) in
    subst (λ t. Separate (t ++ normal)) one (subst (λ t. Separate ((rb ++ db) ++ t)) two apart)

abbrev regions_of : List UntypedObject → List MemoryRegion
regions_of = map (λ u. u.region)

number_caps-regions :
    (cap : ℕ) (is_device : Bool) (rs : List MemoryRegion)
    → regions_of (number_caps cap is_device rs) ≡ rs
unfolding number_caps
number_caps-regions cap is_device [] = refl
number_caps-regions cap is_device (r ∷ rs) =
    ap (λ t. r ∷ t) (number_caps-regions (cap + 1) is_device rs)

regions_of-append :
    (us vs : List UntypedObject) → regions_of (us ++ vs) ≡ regions_of us ++ regions_of vs
regions_of-append [] vs = refl
regions_of-append (u ∷ us) vs = ap (λ t. u.region ∷ t) (regions_of-append us vs)

number_all-regions :
    (first : ℕ) (device normal : List MemoryRegion) (us : List UntypedObject)
    → number_all first device normal ≡ ok us
    → regions_of us ≡ device ++ normal
number_all-regions first [] normal us h = cc
number_all-regions first (d ∷ ds) normal us h =
    let caps = number_caps first true (d ∷ ds) in
    let more = number_caps (first + length (d ∷ ds)) false normal in
    ap regions_of (sym (ok_injective h))
    ∙ regions_of-append caps more
    ∙ ap (λ t. t ++ regions_of more) (number_caps-regions first true (d ∷ ds))
    ∙ ap (λ t. (d ∷ ds) ++ t) (number_caps-regions (first + length (d ∷ ds)) false normal)

Separate-AllApart : (us : List UntypedObject) → Separate (regions_of us) → AllApart us
Separate-AllApart [] h = tt
Separate-AllApart (u ∷ us) h = (each u us h.0, Separate-AllApart us h.1)
  where
    each :
        (u : UntypedObject) (us : List UntypedObject)
        → All (ApartRegions u.region) (regions_of us)
        → All (Apart u) us
    each u [] h = tt
    each u (v ∷ vs) h = (h.0, each u vs h.1)

-- Where no range that the boot is given ends before it starts, all lie in the 64-bit address space,
-- and the kernel's part for booting lies inside the kernel, the untyped objects of an emulated boot
-- that returns are apart: of every two, one ends before the other begins.
pub emulate_kernel_boot-AllApart :
    (config : KernelConfig) (mem : KernelMemory) (phys virt reserved : MemoryRegion)
    (info : KernelBootInfo)
    → IsSane config mem phys reserved
    → emulate_kernel_boot config mem phys virt reserved ≡ ok info
    → AllApart info.untyped_objects
unfolding emulate_kernel_boot
emulate_kernel_boot-AllApart config mem phys virt reserved info sane h =
    let (_, h1) = guard-eq-ok (size phys == size virt) _ _ h in
    let ((device, normal), split, h2) =
      >>=-eq-ok (untyped_regions config mem phys virt reserved) _ h1 in
    let first = fixed_cap_count + get_arch_n_paging virt + 1 + page_cap_count config virt in
    let (us, numbered, same) = >>=-eq-ok (number_all first device normal) _ h2 in
    let apart = untyped_regions-Separate config mem phys virt reserved device normal sane split in
    let mine : AllApart us =
      Separate-AllApart us
        (subst Separate (sym (number_all-regions first device normal us numbered)) apart) in
    subst (λ (t : KernelBootInfo). AllApart t.untyped_objects) (ok_injective same) mine

-- ===== src/Kernel/Boot.antt =====
-- The emulation of the kernel's boot (tool/sel4coreplat/sel4.py): which memory becomes untyped
-- objects, and under which capabilities. What the kernel's ELF file says of memory is an argument.
pub mod Partial
pub mod Image
pub mod Apart
use sel4cp.Prelude.{
  ℕ, ◌+◌, ◌-◌, ◌*◌, ◌/◌, ◌^◌, max, Bool, true, false, ◌&&◌, Option, none, some, List, [], ◌∷◌, ◌++◌,
  Result, ok, err, assertion, exception, unbound_local, guard, ◌>>=◌, ◌>>◌, leb, ◌==◌,
  if◌then◌else◌, length,
}
use sel4cp.Words.{round_up, round_down}
use sel4cp.Memory.{
  MemoryRegion, DisjointMemoryRegion, size, insert_region, remove_region,
  aligned_power_of_two_regions, split_all,
}
use sel4cp.Kernel.Types.{UntypedObject, KernelBootInfo, KernelConfig}

-- What `_kernel_device_addrs`, `_kernel_phys_mem`, `_kernel_self_mem` and `_kernel_boot_mem` read.
pub record KernelMemory : Type 0 where
  pub device_addrs : List ℕ
  pub phys_mem : List (ℕ × ℕ)
  pub self_mem : ℕ × ℕ
  pub boot_mem : MemoryRegion

pub record KernelPartialBootInfo : Type 0 where
  pub device_memory : DisjointMemoryRegion
  pub normal_memory : DisjointMemoryRegion
  pub boot_region : MemoryRegion

unfoldable pub get_n_paging : MemoryRegion → ℕ → ℕ
unfolding round_up round_down
get_n_paging region bits =
    (round_up region.end (2 ^ bits) - round_down region.base (2 ^ bits)) / 2 ^ bits

unfoldable pub get_arch_n_paging : MemoryRegion → ℕ
unfolding get_n_paging
get_arch_n_paging region =
    get_n_paging region (12 + 9 + 9 + 9)
    + get_n_paging region (12 + 9 + 9)
    + get_n_paging region (12 + 9)

unfoldable pub calculate_rootserver_size : MemoryRegion → ℕ
unfolding get_arch_n_paging
calculate_rootserver_size initial_task_region =
    2 ^ (12 + 5)
    + 2 ^ 11
    + 2 * 2 ^ 12
    + 2 ^ 12
    + 2 ^ 12
    + get_arch_n_paging initial_task_region * 2 ^ 12
    + 2 ^ 7

abbrev pub rootserver_max_size_bits : ℕ
rootserver_max_size_bits = max (12 + 5) 12

abbrev pub calculate_kernel_virtual_base : ℕ
calculate_kernel_virtual_base = 2 ^ 64 - 2 ^ 39

-- The loop that takes the kernel's own devices out.
unfoldable pub remove_devices : ℕ → List ℕ → DisjointMemoryRegion → Result DisjointMemoryRegion
unfolding remove_region
remove_devices frame_size [] device = ok device
remove_devices frame_size (paddr ∷ paddrs) device = do
  device' ← remove_region paddr (paddr + frame_size) device
  remove_devices frame_size paddrs device'

-- The loop that moves the physical memory from the device regions to the normal ones.
unfoldable pub move_memory :
    List (ℕ × ℕ)
    → DisjointMemoryRegion
    → DisjointMemoryRegion
    → Result (DisjointMemoryRegion × DisjointMemoryRegion)
unfolding remove_region insert_region
move_memory [] device normal = ok (device, normal)
move_memory ((start, end) ∷ regions) device normal = do
  device' ← remove_region start end device
  normal' ← insert_region start end normal
  move_memory regions device' normal'

unfoldable pub kernel_partial_boot : KernelConfig → KernelMemory → Result KernelPartialBootInfo
unfolding insert_region remove_devices move_memory remove_region
kernel_partial_boot config mem = do
  all ← insert_region 0 config.paddr_user_device_top []
  device ← remove_devices config.kernel_frame_size mem.device_addrs all
  (device', normal) ← move_memory mem.phys_mem device []
  normal' ← remove_region mem.self_mem.0 mem.self_mem.1 normal
  ok (record { device_memory = device'; normal_memory = normal'; boot_region = mem.boot_mem })

unfoldable pub emulate_kernel_boot_partial :
    KernelConfig → KernelMemory → Result (DisjointMemoryRegion × MemoryRegion)
unfolding kernel_partial_boot
emulate_kernel_boot_partial config mem = do
  info ← kernel_partial_boot config mem
  ok (info.normal_memory, info.boot_region)

-- The loop over the reversed regions: the start of the initial task's objects in the last region
-- that has room for them. A start below zero is below the base of every region.
unfoldable pub last_fit : ℕ → ℕ → List MemoryRegion → Option ℕ
unfolding round_down
last_fit size align [] = none
last_fit size align (r ∷ rs) =
    let start = round_down (r.end - size) align in
    elim (last_fit size align rs) [
      | some start' ↦ some start'
      | none ↦ if leb size r.end && leb r.base start then some start else none
    ]

-- `enumerate` from the first capability.
unfoldable pub number_caps : ℕ → Bool → List MemoryRegion → List UntypedObject
number_caps cap is_device [] = []
number_caps cap is_device (r ∷ rs) =
    record { cap = cap; region = r; is_device = is_device } ∷ number_caps (cap + 1) is_device rs

-- The second loop counts on from the variable of the first, which is unbound after no round.
abbrev pub number_all : ℕ → List MemoryRegion → List MemoryRegion → Result (List UntypedObject)
number_all first [] normal = err unbound_local
number_all first (d ∷ ds) normal =
    ok (number_caps first true (d ∷ ds) ++ number_caps (first + length (d ∷ ds)) false normal)

-- `seL4_NumInitialCaps`.
abbrev pub fixed_cap_count : ℕ
fixed_cap_count = 15

-- `initial_task_virt_region.size // kernel_config.minimum_page_size`; the caller's page size is
-- above 0.
abbrev pub page_cap_count : KernelConfig → MemoryRegion → ℕ
page_cap_count config region = size region / config.minimum_page_size

abbrev pub take_fit : ℕ → Option ℕ → DisjointMemoryRegion → Result DisjointMemoryRegion
take_fit objects_size none normal = err exception
take_fit objects_size (some start) normal = remove_region start (start + objects_size) normal

-- The untyped objects' regions, of device memory and of normal memory.
unfoldable pub untyped_regions :
    KernelConfig
    → KernelMemory
    → MemoryRegion
    → MemoryRegion
    → MemoryRegion
    → Result (List MemoryRegion × List MemoryRegion)
unfolding kernel_partial_boot remove_region calculate_rootserver_size last_fit split_all
untyped_regions config mem phys virt reserved = do
  info ← kernel_partial_boot config mem
  normal1 ← remove_region phys.base phys.end info.normal_memory
  normal2 ← remove_region reserved.base reserved.end normal1
  let objects_size = calculate_rootserver_size virt
  normal ←
      take_fit objects_size (last_fit objects_size (2 ^ rootserver_max_size_bits) normal2) normal2
  reserved_blocks ← aligned_power_of_two_regions calculate_kernel_virtual_base 47 reserved
  device_blocks ← split_all calculate_kernel_virtual_base 47 info.device_memory
  boot_blocks ← aligned_power_of_two_regions calculate_kernel_virtual_base 47 info.boot_region
  normal_blocks ← split_all calculate_kernel_virtual_base 47 normal
  ok (reserved_blocks ++ device_blocks, boot_blocks ++ normal_blocks)

unfoldable pub emulate_kernel_boot :
    KernelConfig → KernelMemory → MemoryRegion → MemoryRegion → MemoryRegion → Result KernelBootInfo
unfolding untyped_regions get_arch_n_paging
emulate_kernel_boot config mem phys virt reserved = do
  guard (size phys == size virt) assertion
  (device_regions, normal_regions) ← untyped_regions config mem phys virt reserved
  let paging_cap_count = get_arch_n_paging virt
  let first = fixed_cap_count + paging_cap_count + 1 + page_cap_count config virt
  untyped_objects ← number_all first device_regions normal_regions
  ok (record {
    fixed_cap_count = fixed_cap_count;
    schedcontrol_cap = fixed_cap_count + paging_cap_count;
    paging_cap_count = paging_cap_count;
    page_cap_count = page_cap_count config virt;
    untyped_objects = untyped_objects;
    first_available_cap = first + length device_regions + length normal_regions;
  })

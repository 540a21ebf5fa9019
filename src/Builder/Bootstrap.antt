-- ===== src/Builder/Bootstrap.antt =====
-- The first phase of the invocations (tool/sel4coreplat/__main__.py): the initial task makes its own
-- capability nodes, and maps the table of the system's invocations into its address space.
pub mod Pages
pub mod Table
use sel4cp.Prelude.{
  ℕ, ◌+◌, ◌-◌, ◌*◌, ◌/◌, ◌^◌, min, bit_or, Bool, true, false, List, [], ◌∷◌, ◌++◌, Result, ok, err,
  assertion, guard, ◌>>=◌, ◌>>◌, leb, ◌==◌, if◌then◌else◌,
}
use sel4cp.Words.{round_up}
use sel4cp.Memory.{size}
use sel4cp.Invocation.{
  Command, once, repeat, untyped_retype, cnode_mint, tcb_set_space, page_table_map, page_map,
}
use sel4cp.Kernel.Types.{
  KernelConfig, UntypedObject, cnode_object, small_page_object, page_table_object,
  page_table_object_size, large_page_size, slot_size,
}
use sel4cp.Kernel.Allocator.{KernelObjectAllocator, KernelAllocation, alloc}
use sel4cp.Builder.InitSystem.{log2}
use sel4cp.Builder.CSpace.{rights_all, rights_read, init_tcb_cap}

abbrev init_cnode_cap : ℕ
init_cnode_cap = 2

abbrev pub init_vspace_cap : ℕ
init_vspace_cap = 3

abbrev pub root_cnode_bits : ℕ
root_cnode_bits = 1

-- `1 << (cap_address_bits - 1)`.
abbrev pub cap_address_mask : KernelConfig → ℕ
cap_address_mask config = 2 ^ (config.cap_address_bits - 1)

-- The root node of two slots, with the initial node in slot 0, becomes the task's space; then the
-- system node is made and put into slot 1.
unfoldable pub set_up_cnodes :
    KernelConfig → ℕ → ℕ → KernelAllocation → KernelAllocation → List Command
set_up_cnodes config first_available_cap system_cnode_bits root_allocation system_allocation =
    let root_cnode_cap = first_available_cap in
    let system_cnode_cap = first_available_cap + 1 in
    once (
      untyped_retype root_allocation.untyped_cap_address cnode_object root_cnode_bits init_cnode_cap
        0 0 root_cnode_cap 1)
    ∷ once (
        cnode_mint root_cnode_cap 0 root_cnode_bits init_cnode_cap init_cnode_cap
          config.cap_address_bits rights_all
          (config.cap_address_bits - root_cnode_bits - config.init_cnode_bits))
    ∷ once (tcb_set_space init_tcb_cap 0 root_cnode_cap 0 init_vspace_cap 0)
    ∷ once (
        untyped_retype system_allocation.untyped_cap_address cnode_object system_cnode_bits
          init_cnode_cap 0 0 system_cnode_cap 1)
    ∷ once (
        cnode_mint root_cnode_cap 1 root_cnode_bits init_cnode_cap system_cnode_cap
          config.cap_address_bits rights_all
          (config.cap_address_bits - root_cnode_bits - system_cnode_bits))
    ∷ []

-- The pages of the table: the retypes, where each untyped object was left off, and the next slot.
pub record TablePages : Type 0 where
  pub retypes : List Command
  pub allocations : List (UntypedObject × ℕ)
  pub cap_slot : ℕ

-- The loop over the untyped objects for devices, which ends early once no pages are left.
unfoldable pub retype_table : KernelConfig → ℕ → ℕ → ℕ → ℕ → List UntypedObject → Result TablePages
retype_table config root_cnode_cap slot remaining phys_addr [] =
    ok (record { retypes = []; allocations = []; cap_slot = slot })
retype_table config root_cnode_cap slot remaining phys_addr (ut ∷ uts) =
    let page = config.minimum_page_size in
    let count = min (size ut.region / page) remaining in
    let next = phys_addr + count * page in
    let one = once (untyped_retype ut.cap small_page_object 0 root_cnode_cap 1 1 slot count) in
    let skipped = retype_table config root_cnode_cap slot remaining phys_addr uts in
    let more = retype_table config root_cnode_cap (slot + count) (remaining - count) next uts in
    let last : TablePages = record { retypes = []; allocations = []; cap_slot = slot + count } in
    if ut.is_device
    then (do
      guard (leb count config.fan_out_limit) assertion
      rest ← (if remaining - count == 0 then ok last else more)
      ok (record {
        retypes = one ∷ rest.retypes;
        allocations = (ut, next) ∷ rest.allocations;
        cap_slot = rest.cap_slot;
      }))
    else skipped

abbrev pub table_vaddr : ℕ
table_vaddr = 0x80000000

-- The page tables behind the pages, and the two commands that map the tables and the pages.
unfoldable pub map_table :
    KernelConfig → ℕ → ℕ → ℕ → ℕ → ℕ → KernelAllocation → Result (List Command)
unfolding repeat
map_table config root_cnode_cap pages_required tables base_page_cap base_table_cap allocation = do
  let mask = cap_address_mask config
  guard (leb tables config.fan_out_limit) assertion
  map_tables ←
      repeat tables (("page_table", 1) ∷ ("vaddr", large_page_size) ∷ [])
        (once (page_table_map (bit_or mask base_table_cap) init_vspace_cap table_vaddr 3))
  map_pages ←
      repeat pages_required (("page", 1) ∷ ("vaddr", config.minimum_page_size) ∷ []) (
        once (page_map (bit_or mask base_page_cap) init_vspace_cap table_vaddr rights_read (3 + 4)))
  ok (
      once (
        untyped_retype allocation.untyped_cap_address page_table_object 0 root_cnode_cap 1 1
          base_table_cap tables)
      ∷ map_tables
      ∷ map_pages
      ∷ [])

pub record Bootstrapped : Type 0 where
  pub cnodes : List Command
  pub table_pages : TablePages
  pub table_maps : List Command
  pub koa : KernelObjectAllocator
  pub cap_slot : ℕ

abbrev pub tables_required : ℕ → ℕ
tables_required invocation_table_size =
    round_up invocation_table_size large_page_size / large_page_size

-- All of the phase; `bootstrap_invocations` is the commands of the nodes, the pages and the maps.
unfoldable pub bootstrap :
    KernelConfig → List UntypedObject → ℕ → ℕ → ℕ → ℕ → KernelObjectAllocator → Result Bootstrapped
bootstrap config untyped_objects first_cap system_cnode_size table_base table_size koa = do
  (root_allocation, koa1) ← alloc (2 ^ root_cnode_bits * slot_size) 1 koa
  (system_allocation, koa2) ← alloc (system_cnode_size * slot_size) 1 koa1
  let pages = table_size / config.minimum_page_size
  let tables = tables_required table_size
  table ← retype_table config first_cap 0 pages table_base untyped_objects
  (table_allocation, koa3) ← alloc page_table_object_size tables koa2
  maps ← map_table config first_cap pages tables 0 table.cap_slot table_allocation
  ok (record {
    cnodes =
        set_up_cnodes config first_cap (log2 system_cnode_size) root_allocation system_allocation;
    table_pages = table;
    table_maps = maps;
    koa = koa3;
    cap_slot = table.cap_slot + tables;
  })

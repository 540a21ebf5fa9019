-- ===== src/Builder/Bootstrap/Table.antt =====
-- The table of invocations is mapped in whole, and the slots that it takes are the first ones.
use mathlib.Core.List.{append-nil}
use mathlib.Core.Path.{ap₂}
use sel4cp.Prelude.{
  ℕ, ◌+◌, ◌*◌, ◌^◌, ◌/◌, ◌<◌, ◌≤◌, ◌≡◌, refl, sym, ap, subst, ◌∙◌, bit_or, List, [], ◌∷◌, ◌++◌, map,
  ok, ok_injective, assertion, leb, >>=-eq-ok, guard-eq-ok, arith,
}
use sel4cp.Words.Align.{round_lem}
use sel4cp.Invocation.{Command, once, repeat, page_map, page_table_map, untyped_retype}
use sel4cp.Kernel.Types.{
  KernelConfig, UntypedObject, page_table_object_size, large_page_size, slot_size,
  page_table_object,
}
use sel4cp.Kernel.Allocator.{KernelObjectAllocator, KernelAllocation, alloc}
use sel4cp.Builder.InitSystem.Batches.{range, range-append, slots_of}
use sel4cp.Builder.InitSystem.Advanced.{slots_of-append}
use sel4cp.Builder.CSpace.{rights_read}
use sel4cp.Builder.CSpace.Rounds.{rounds, spaced, repeat-rounds}
use sel4cp.Builder.Setup.Mapped.{mapped_pages, mapped_places}
use sel4cp.Builder.Bootstrap.{
  cap_address_mask, retype_table, map_table, table_vaddr, init_vspace_cap, Bootstrapped,
  tables_required, bootstrap, root_cnode_bits,
}
use sel4cp.Builder.Bootstrap.Pages.{device_pages, devices, FromDevices, retype_table-FillsPages}

some_tables : (n : ℕ) → 0 < n → 0 < tables_required n
some_tables n h =
    let (u1, u2, u3, _, _, _) = round_lem n large_page_size (omega arith) in
    omega (arith, u1, u2, h)

-- The three commands: a retype, one that maps no page, and one that maps pages.
three_lem :
    (b c : Command) (ut root slot tables table_cap attr page vaddr rights page_attr pages incr : ℕ)
    → b.invocation ≡ page_table_map table_cap init_vspace_cap vaddr attr
    → c.invocation ≡ page_map page init_vspace_cap vaddr rights page_attr
    → rounds "page" page c ≡ spaced page 1 pages
    → rounds "vaddr" vaddr c ≡ spaced vaddr incr pages
    → let cmds = once (untyped_retype ut page_table_object 0 root 1 1 slot tables) ∷ b ∷ c ∷ [] in
      (slots_of cmds ≡ range slot tables)
      × (mapped_pages cmds ≡ spaced page 1 pages)
      × (mapped_places cmds ≡ map (λ v. (init_vspace_cap, v)) (spaced vaddr incr pages))
three_lem b c ut root slot tables table_cap attr page vaddr rights page_attr pages incr eb ec ep
      ev =
    (
      rw (eb, ec) (append-nil (range slot tables)),
      rw (eb, ec, ep) (append-nil (spaced page 1 pages)),
      rw (eb, ec, ev) (append-nil (map (λ v. (init_vspace_cap, v)) (spaced vaddr incr pages))),
    )

abbrev retype_tables : ℕ → ℕ → ℕ → KernelAllocation → Command
retype_tables root slot tables allocation =
    once (untyped_retype allocation.untyped_cap_address page_table_object 0 root 1 1 slot tables)

-- The commands that map the table, where there are pages and tables.
map_table-lem :
    (config : KernelConfig) (root pages tables slot : ℕ) (allocation : KernelAllocation)
    (cmds : List Command)
    → 0 < pages
    → 0 < tables
    → map_table config root pages tables 0 slot allocation ≡ ok cmds
    → (slots_of cmds ≡ range slot tables)
      × (mapped_pages cmds ≡ spaced (bit_or (cap_address_mask config) 0) 1 pages)
      × (mapped_places cmds
          ≡ map (λ v. (init_vspace_cap, v)) (spaced table_vaddr config.minimum_page_size pages))
      × ((rest : List Command) × (cmds ≡ retype_tables root slot tables allocation ∷ rest))
unfolding map_table
map_table-lem config root pages tables slot allocation cmds some_pages some_tables h =
    let mask = cap_address_mask config in
    let tables_inv = page_table_map (bit_or mask slot) init_vspace_cap table_vaddr 3 in
    let pages_inv = page_map (bit_or mask 0) init_vspace_cap table_vaddr rights_read (3 + 4) in
    let (_, h1) = guard-eq-ok (leb tables config.fan_out_limit) assertion _ h in
    let (map_tables, tables_made, h2) =
      >>=-eq-ok
        (repeat tables (("page_table", 1) ∷ ("vaddr", large_page_size) ∷ []) (once tables_inv)) _
        h1 in
    let (map_pages, pages_made, same) =
      >>=-eq-ok
        (repeat pages (("page", 1) ∷ ("vaddr", config.minimum_page_size) ∷ []) (once pages_inv)) _
        h2 in
    let (kept_tables, _) =
      repeat-rounds tables (("page_table", 1) ∷ ("vaddr", large_page_size) ∷ []) tables_inv
        map_tables some_tables tables_made in
    let (kept_pages, fields) =
      repeat-rounds pages (("page", 1) ∷ ("vaddr", config.minimum_page_size) ∷ []) pages_inv
        map_pages some_pages pages_made in
    subst
      (λ t.
        (slots_of t ≡ range slot tables)
        × (mapped_pages t ≡ spaced (bit_or mask 0) 1 pages)
        × (mapped_places t
            ≡ map (λ v. (init_vspace_cap, v)) (spaced table_vaddr config.minimum_page_size pages))
        × ((rest : List Command) × (t ≡ retype_tables root slot tables allocation ∷ rest)))
      (ok_injective same)
      (let (x, y, z) =
          three_lem map_tables map_pages allocation.untyped_cap_address root slot tables
            (bit_or mask slot) 3 (bit_or mask 0) table_vaddr rights_read (3 + 4) pages
            config.minimum_page_size kept_tables kept_pages (fields "page" (bit_or mask 0))
            (fields "vaddr" table_vaddr) in
        (x, y, z, (map_tables ∷ map_pages ∷ [], refl)))

-- What the phase owes: the slots that its retypes fill, the pages of the table, its page tables, and
-- what is mapped where.
pub record TableMapped (config : KernelConfig) (untyped_objects : List UntypedObject)
    (first_cap table_base pages tables : ℕ) (out : Bootstrapped) : Type 0 where
  pub slots : slots_of (out.table_pages.retypes ++ out.table_maps) ≡ range 0 out.cap_slot
  pub made :
      FromDevices config.minimum_page_size first_cap 0 pages table_base out.table_pages.retypes
        out.table_pages.allocations
        (devices untyped_objects)
  pub page_tables :
      (cap : ℕ) × (maps : List Command) × (out.table_maps
        ≡ once (untyped_retype cap page_table_object 0 first_cap 1 1 pages tables) ∷ maps)
  pub caps : mapped_pages out.table_maps ≡ spaced (bit_or (cap_address_mask config) 0) 1 pages
  pub places :
      mapped_places out.table_maps
      ≡ map (λ v. (init_vspace_cap, v)) (spaced table_vaddr config.minimum_page_size pages)

-- Where the phase returns and the untyped objects for devices have room for the table, the retypes of
-- the table's pages and page tables fill the slots of the system capability node from 0 to the next
-- free one, in order and once. The pages are small pages out of the first untyped objects for
-- devices, as many of each as it has or as are left, and the recorded addresses are the ends of
-- these from the table's own address on. Behind them are the page tables, and exactly the table's
-- pages are mapped, one behind the other from 2 GiB on in the initial task's address space.
pub bootstrap-range :
    (config : KernelConfig) (untyped_objects : List UntypedObject)
    (first_cap system_cnode_size table_base table_size : ℕ) (koa : KernelObjectAllocator)
    (out : Bootstrapped)
    → 0 < table_size
    → 0 < table_size / config.minimum_page_size
    → table_size / config.minimum_page_size ≤ device_pages config.minimum_page_size untyped_objects
    → bootstrap config untyped_objects first_cap system_cnode_size table_base table_size koa
      ≡ ok out
    → TableMapped config untyped_objects first_cap table_base
        (table_size / config.minimum_page_size)
        (tables_required table_size)
        out
unfolding bootstrap
bootstrap-range config uts first_cap cnode_size base table_size koa out nonempty some_pages enough
      h =
    let pages = table_size / config.minimum_page_size in
    let tables = tables_required table_size in
    let ((a1, koa1), _, h1) = >>=-eq-ok (alloc (2 ^ root_cnode_bits * slot_size) 1 koa) _ h in
    let ((a2, koa2), _, h2) = >>=-eq-ok (alloc (cnode_size * slot_size) 1 koa1) _ h1 in
    let (table, retyped, h3) = >>=-eq-ok (retype_table config first_cap 0 pages base uts) _ h2 in
    let ((a3, koa3), _, h4) = >>=-eq-ok (alloc page_table_object_size tables koa2) _ h3 in
    let (maps, mapped, same) =
      >>=-eq-ok (map_table config first_cap pages tables 0 table.cap_slot a3) _ h4 in
    let (filled, next, from) =
      retype_table-FillsPages config first_cap uts 0 pages base some_pages enough retyped in
    let (slots, caps, places, headed) =
      map_table-lem config first_cap pages tables table.cap_slot a3 maps some_pages
        (some_tables table_size nonempty) mapped in
    let first : table.cap_slot ≡ pages = omega (arith, next) in
    let all : slots_of (table.retypes ++ maps) ≡ range 0 (table.cap_slot + tables) =
      slots_of-append table.retypes maps
      ∙ ap₂ ◌++◌ filled (slots ∙ ap (λ t. range t tables) next)
      ∙ range-append 0 pages tables
      ∙ ap (λ t. range 0 (t + tables)) (sym first) in
    let table_first =
      subst (λ t. (rest : List Command) × (maps ≡ retype_tables first_cap t tables a3 ∷ rest)) first
        headed in
    subst (TableMapped config uts first_cap base pages tables) (ok_injective same) (record {
      slots = all;
      made = from;
      page_tables = (a3.untyped_cap_address, table_first.0, table_first.1);
      caps = caps;
      places = places;
    })

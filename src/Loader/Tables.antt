-- ===== src/Loader/Tables.antt =====
-- The page tables that the loader starts with: the index functions and `_setup_pagetables`.
pub mod Entries
pub mod Fill
pub mod Walk
pub mod Translate
use Prim.Native.String.{String}
use sel4cp.Prelude.{
  ℕ, zero, suc, ◌+◌, ◌-◌, ◌*◌, ◌/◌, ◌^◌, bit_and, bit_or, List, [], ◌∷◌, Result, ok, ◌>>=◌, ◌>>◌,
  replicate,
}
use sel4cp.Bytes.{num, pack}
use sel4cp.Elf.Types.{ElfFile}
use sel4cp.Elf.Symbols.{find_symbol, splice}

-- `AARCH64_1GB_BLOCK_BITS`, `AARCH64_2MB_BLOCK_BITS`, and the bits of an index at each level.
abbrev pub block_bits_1gb : ℕ
block_bits_1gb = 30

abbrev pub block_bits_2mb : ℕ
block_bits_2mb = 21

abbrev pub lvl_bits : ℕ
lvl_bits = 9

abbrev pub page_table_size : ℕ
page_table_size = 4096

abbrev pub mask : ℕ → ℕ
mask x = 2 ^ x - 1

unfoldable pub lvl0_index : ℕ → ℕ
lvl0_index addr = bit_and (addr / 2 ^ (block_bits_2mb + lvl_bits + lvl_bits)) (mask lvl_bits)

unfoldable pub lvl1_index : ℕ → ℕ
lvl1_index addr = bit_and (addr / 2 ^ (block_bits_2mb + lvl_bits)) (mask lvl_bits)

unfoldable pub lvl2_index : ℕ → ℕ
lvl2_index addr = bit_and (addr / 2 ^ block_bits_2mb) (mask lvl_bits)

unfoldable pub lvl0_addr : ℕ → ℕ
lvl0_addr addr = let bits = block_bits_2mb + lvl_bits + lvl_bits in addr / 2 ^ bits * 2 ^ bits

unfoldable pub lvl1_addr : ℕ → ℕ
lvl1_addr addr = let bits = block_bits_2mb + lvl_bits in addr / 2 ^ bits * 2 ^ bits

unfoldable pub lvl2_addr : ℕ → ℕ
lvl2_addr addr = addr / 2 ^ block_bits_2mb * 2 ^ block_bits_2mb

-- `bytearray(PAGE_TABLE_SIZE)`.
unfoldable pub empty_table : List ℕ
empty_table = replicate page_table_size 0

-- `table[8 * i:8 * (i + 1)] = pack("<Q", entry)`.
unfoldable pub set_entry : ℕ → ℕ → List ℕ → Result (List ℕ)
unfolding pack
set_entry i entry table = do bytes ← pack (num 8 ∷ []) (entry ∷ []); ok (splice (8 * i) bytes table)

-- A block of 1 GiB of strongly ordered memory, with the access flag.
abbrev pub lower_entry : ℕ → ℕ
lower_entry i = bit_or (bit_or (bit_or (i * 2 ^ block_bits_1gb) (1 * 2 ^ 10)) (0 * 2 ^ 2)) 1

-- The loop over `boot_lvl1_lower`, from entry `i` on.
unfoldable pub fill_lower : ℕ → ℕ → List ℕ → Result (List ℕ)
unfolding set_entry
fill_lower zero i table = ok table
fill_lower (suc n) i table = do
  table' ← set_entry i (lower_entry i) table
  fill_lower n (i + 1) table'

-- A block of 2 MiB of normal memory, shared as the kernel shares it, with the access flag.
abbrev pub upper_entry : ℕ → ℕ
upper_entry first_paddr =
    bit_or (bit_or (bit_or (bit_or first_paddr (1 * 2 ^ 10)) (3 * 2 ^ 8)) (4 * 2 ^ 2)) (1 * 2 ^ 0)

-- The loop over `boot_lvl2_upper`, from entry `i` on.
unfoldable pub fill_upper : ℕ → ℕ → ℕ → List ℕ → Result (List ℕ)
unfolding set_entry
fill_upper zero i first_paddr table = ok table
fill_upper (suc n) i first_paddr table = do
  table' ← set_entry i (upper_entry first_paddr) table
  fill_upper n (i + 1) (first_paddr + 2 ^ block_bits_2mb) table'

pub record PageTables : Type 0 where
  pub boot_lvl0_lower : List ℕ
  pub boot_lvl1_lower : List ℕ
  pub boot_lvl0_upper : List ℕ
  pub boot_lvl1_upper : List ℕ
  pub boot_lvl2_upper : List ℕ

-- `_setup_pagetables` behind the reading of the three symbols.
unfoldable pub page_tables : ℕ → ℕ → ℕ → ℕ → ℕ → Result PageTables
page_tables boot_lvl1_lower_addr boot_lvl1_upper_addr boot_lvl2_upper_addr first_vaddr first_paddr =
    (do
      lvl0_lower ← set_entry 0 (bit_or boot_lvl1_lower_addr 3) empty_table
      lvl1_lower ← fill_lower 512 0 empty_table
      lvl0_upper ← set_entry (lvl0_index first_vaddr) (bit_or boot_lvl1_upper_addr 3) empty_table
      lvl1_upper ← set_entry (lvl1_index first_vaddr) (bit_or boot_lvl2_upper_addr 3) empty_table
      lvl2_upper ←
          fill_upper (512 - lvl2_index first_vaddr) (lvl2_index first_vaddr) first_paddr empty_table
      ok (record {
        boot_lvl0_lower = lvl0_lower;
        boot_lvl1_lower = lvl1_lower;
        boot_lvl0_upper = lvl0_upper;
        boot_lvl1_upper = lvl1_upper;
        boot_lvl2_upper = lvl2_upper;
      }))

unfoldable pub setup_pagetables : ElfFile → ℕ → ℕ → Result PageTables
setup_pagetables elf first_vaddr first_paddr = do
  lvl1_lower ← find_symbol "boot_lvl1_lower" elf
  lvl1_upper ← find_symbol "boot_lvl1_upper" elf
  lvl2_upper ← find_symbol "boot_lvl2_upper" elf
  page_tables lvl1_lower.0 lvl1_upper.0 lvl2_upper.0 first_vaddr first_paddr

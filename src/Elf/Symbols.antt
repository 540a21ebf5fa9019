-- ===== src/Elf/Symbols.antt =====
-- Symbols, and the memory that an ELF file holds at a virtual address.
pub mod Memory
pub mod Found
use text.Mathlib.Text.{◌==◌ as str_eq}
use Prim.Native.String.{String}
use sel4cp.Prelude.{
  ℕ, ◌+◌, ◌-◌, Bool, true, false, ◌&&◌, Option, none, some, List, [], ◌∷◌, ◌++◌, Result, ok, err,
  exception, key_error, assertion, guard, ◌>>=◌, ◌>>◌, leb, if◌then◌else◌, length, take, drop,
}
use sel4cp.Bytes.{Format, unpack_from}
use sel4cp.Elf.Types.{ElfSymbol, ElfSegment, ElfFile, virt_addr}

-- The loop of `find_symbol`, with the symbol that was found so far.
unfoldable pub find_from :
    String → Option ElfSymbol → List (String × ElfSymbol) → Result (Option ElfSymbol)
find_from variable_name found [] = ok found
find_from variable_name found ((name, sym) ∷ syms) = elim (str_eq name variable_name) [
  | true ↦ elim found [
    | none ↦ find_from variable_name (some sym) syms
    | some other ↦ err exception
  ]
  | false ↦ find_from variable_name found syms
]

unfoldable pub find_symbol : String → ElfFile → Result (ℕ × ℕ)
unfolding find_from
find_symbol variable_name elf = do
  found ← find_from variable_name none elf.symbols
  elim found [ none ↦ err key_error | some sym ↦ ok (sym.value, sym.size) ]

-- `vaddr >= seg.virt_addr and vaddr + size <= seg.virt_addr + len(seg.data)`.
abbrev pub holds_range : ℕ → ℕ → ElfSegment → Bool
holds_range vaddr size seg =
    leb (virt_addr seg) vaddr && leb (vaddr + size) (virt_addr seg + length seg.contents)

abbrev pub slice : ℕ → ℕ → List ℕ → List ℕ
slice offset size bs = take size (drop offset bs)

unfoldable pub get_data_from : ℕ → ℕ → List ElfSegment → Result (List ℕ)
get_data_from vaddr size [] = err exception
get_data_from vaddr size (seg ∷ segs) =
    if holds_range vaddr size seg
    then ok (slice (vaddr - virt_addr seg) size seg.contents)
    else get_data_from vaddr size segs

unfoldable pub get_data : ℕ → ℕ → ElfFile → Result (List ℕ)
unfolding get_data_from
get_data vaddr size elf = get_data_from vaddr size elf.segments

-- `data[offset:offset+len(new)] = new`.
abbrev pub splice : ℕ → List ℕ → List ℕ → List ℕ
splice offset new bs = take offset bs ++ (new ++ drop (offset + length new) bs)

-- The loop of `write_symbol`: every segment that holds the symbol is written to.
unfoldable pub write_data : ℕ → ℕ → List ℕ → List ElfSegment → Result (List ElfSegment)
write_data vaddr size new [] = ok []
write_data vaddr size new (seg ∷ segs) = do
  seg' ←
      (if holds_range vaddr size seg
        then (do
          guard (leb (length new) size) assertion
          ok (record seg { contents = splice (vaddr - virt_addr seg) new seg.contents }))
        else ok seg)
  segs' ← write_data vaddr size new segs
  ok (seg' ∷ segs')

unfoldable pub write_symbol : String → List ℕ → ElfFile → Result ElfFile
unfolding find_symbol write_data
write_symbol variable_name new elf = do
  (vaddr, size) ← find_symbol variable_name elf
  segs ← write_data vaddr size new elf.segments
  ok (record elf { segments = segs })

unfoldable pub read_struct : String → Format → ElfFile → Result (List ℕ)
unfolding find_symbol get_data unpack_from
read_struct variable_name struct elf = do
  (vaddr, size) ← find_symbol variable_name elf
  bytes ← get_data vaddr size elf
  unpack_from struct bytes

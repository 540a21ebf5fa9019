-- ===== src/Elf/Read.antt =====
-- `ElfFile.from_path`, from the bytes of the file.
use Prim.Native.String.{String}
use sel4cp.Prelude.{
  ℕ, zero, suc, ◌+◌, ◌-◌, Bool, true, false, Option, none, some, List, [], ◌∷◌, ◌++◌, Result, ok,
  err, invalid_elf, index_error, value_error, assertion, unbound_local, out_of_fuel, guard, ◌>>=◌,
  ◌>>◌, leb, ◌==◌, Error, if◌then◌else◌, length, get_elem?, take, drop, replicate,
}
use sel4cp.Bytes.{Format, size_of, unpack, unpack_from}
use sel4cp.Elf.Types.{
  ElfHeader, ElfProgramHeader, ElfSectionHeader, ElfSymbol, ElfSegment, ElfFile, elf_magic,
}
use sel4cp.Elf.Formats.{
  elf_header32, elf_header64, header_of, elf_program_header32, elf_program_header64,
  program_header32_of, program_header64_of, elf_section_header32, elf_section_header64,
  section_header_of, elf_symbol64, symbol_of,
}

-- The formats of a class, `word_size` and whether the class has a format for symbols.
pub record ElfClass : Type 0 where
  pub word_size : ℕ
  pub header : Format
  pub program_header : Format
  pub program_header_of : List ℕ → Result ElfProgramHeader
  pub section_header : Format
  pub has_symbols : Bool

abbrev pub class32 : ElfClass
class32 = record {
  word_size = 32;
  header = elf_header32;
  program_header = elf_program_header32;
  program_header_of = program_header32_of;
  section_header = elf_section_header32;
  has_symbols = false;
}

abbrev pub class64 : ElfClass
class64 = record {
  word_size = 64;
  header = elf_header64;
  program_header = elf_program_header64;
  program_header_of = program_header64_of;
  section_header = elf_section_header64;
  has_symbols = true;
}

-- The class by the fifth byte.
abbrev pub class_of : List ℕ → Result ElfClass
class_of [] = err index_error
class_of (c ∷ bs) = if c == 1 then ok class32 else if c == 2 then ok class64 else err invalid_elf

-- `f.seek(at)` and `f.read(n)`, which reads less at the end of the file.
abbrev pub read_at : ℕ → ℕ → List ℕ → List ℕ
read_at at n file = take n (drop at file)

abbrev pub same_bytes : List ℕ → List ℕ → Bool
same_bytes [] [] = true
same_bytes (x ∷ xs) (y ∷ ys) = if x == y then same_bytes xs ys else false
same_bytes _ _ = false

-- The segment of one program header: what the file holds of it, filled up with zeros.
unfoldable pub read_segment : ElfClass → List ℕ → ℕ → ℕ → Result ElfSegment
unfolding unpack_from
read_segment class file at phentsize = do
  fields ← unpack_from class.program_header (read_at at phentsize file)
  phent ← class.program_header_of fields
  guard (leb phent.filesz phent.memsz) value_error
  let mem = read_at phent.offset phent.filesz file ++ replicate (phent.memsz - phent.filesz) 0
  guard (length mem == phent.memsz) assertion
  ok (record { header = phent; contents = mem })

-- The loop over the program headers, from the one at `at`.
unfoldable pub read_segments : ElfClass → List ℕ → ℕ → ℕ → ℕ → Result (List ElfSegment)
unfolding read_segment
read_segments class file phentsize zero at = ok []
read_segments class file phentsize (suc n) at = do
  seg ← read_segment class file at phentsize
  segs ← read_segments class file phentsize n (at + phentsize)
  ok (seg ∷ segs)

-- All up to the sections: the header and the segments.
unfoldable pub read_image : List ℕ → Result (ElfClass × ElfHeader × List ElfSegment)
unfolding unpack read_segments
read_image file = do
  guard (same_bytes (take 4 file) elf_magic) invalid_elf
  class ← class_of (drop 4 file)
  fields ← unpack class.header (read_at 5 (size_of class.header) file)
  hdr ← header_of fields
  segs ← read_segments class file hdr.phentsize hdr.phnum hdr.phoff
  ok (class, hdr, segs)

-- The section headers, the last string table and the only symbol table among them. The variable for
-- the string table is unbound at first, `none` here.
pub record Sections : Type 0 where
  pub shents : List ElfSectionHeader
  pub shstrtab : Option ElfSectionHeader
  pub symtab : Option ElfSectionHeader

abbrev pub no_sections : Sections
no_sections = record { shents = []; shstrtab = none; symtab = none }

-- The part of the loop's body behind the reading.
abbrev pub add_section : ElfSectionHeader → Sections → Result Sections
add_section shent s =
    let strings = if shent.type_ == 3 then some shent else s.shstrtab in
    let shents = s.shents ++ shent ∷ [] in
    if shent.type_ == 2
    then elim s.symtab [
      | none ↦ ok (record { shents = shents; shstrtab = strings; symtab = some shent })
      | some other ↦ err assertion
    ]
    else ok (record { shents = shents; shstrtab = strings; symtab = s.symtab })

unfoldable pub read_sections : ElfClass → List ℕ → ℕ → ℕ → ℕ → Sections → Result Sections
unfolding unpack_from
read_sections class file shentsize zero at s = ok s
read_sections class file shentsize (suc n) at s = do
  fields ← unpack_from class.section_header (read_at at shentsize file)
  shent ← section_header_of fields
  s' ← add_section shent s
  read_sections class file shentsize n (at + shentsize) s'

-- The place of the first zero from `idx` on; -1 where there is none.
abbrev pub find_zero : List ℕ → Option ℕ
find_zero [] = none
find_zero (b ∷ bs) =
    if b == 0 then some 0 else elim (find_zero bs) [ none ↦ none | some k ↦ some (suc k) ]

-- The bytes of `_get_string`. With no zero the slice ends at -1, before the last byte.
unfoldable pub get_string : List ℕ → ℕ → List ℕ
get_string strtab idx = elim (find_zero (drop idx strtab)) [
  | none ↦ take (length strtab - 1 - idx) (drop idx strtab)
  | some k ↦ take k (drop idx strtab)
]

-- What a value is bound to, or the error of a variable that is not.
abbrev pub bound : {A : Type 0} → Option A → Error → Result A
bound none e = err e
bound (some a) e = ok a

module _ (decode : List ℕ → Result String) where
  -- The loop over the symbols, on the bytes that are left; each round takes at least one of them.
  -- `decode` is Python's decoding of UTF-8.
  unfoldable pub read_symbols : Bool → List ℕ → ℕ → List ℕ → Result (List (String × ElfSymbol))
  unfolding unpack_from get_string
  read_symbols has_symbols strtab fuel [] = ok []
  read_symbols has_symbols strtab zero (b ∷ bs) = err out_of_fuel
  read_symbols has_symbols strtab (suc fuel) (b ∷ bs) = do
    guard has_symbols unbound_local
    fields ← unpack_from elf_symbol64 (b ∷ bs)
    sym ← symbol_of fields
    name ← decode (get_string strtab sym.name)
    syms ← read_symbols has_symbols strtab fuel (drop (size_of elf_symbol64) (b ∷ bs))
    ok ((name, sym) ∷ syms)

  unfoldable pub from_path : List ℕ → Result ElfFile
  unfolding read_image read_sections read_symbols
  from_path file = do
    (class, hdr, segs) ← read_image file
    s ← read_sections class file hdr.shentsize hdr.shnum hdr.shoff no_sections
    shstrtab ← bound s.shstrtab unbound_local
    symtab ← bound s.symtab assertion
    strings ← bound (get_elem? s.shents symtab.link) index_error
    let table = read_at symtab.offset symtab.size file
    let strtab = read_at strings.offset strings.size file
    syms ← read_symbols class.has_symbols strtab (length table) table
    ok (record { segments = segs; symbols = syms; word_size = class.word_size; entry = hdr.entry })

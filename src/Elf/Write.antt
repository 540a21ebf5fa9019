-- ===== src/Elf/Write.antt =====
-- `ElfFile.write`: the bytes of the file that it writes.
pub mod Reload
use sel4cp.Prelude.{ℕ, ◌+◌, ◌*◌, List, [], ◌∷◌, ◌++◌, Result, ok, ◌>>=◌, ◌>>◌, length}
use sel4cp.Bytes.{size_of, pack}
use sel4cp.Elf.Types.{
  ElfHeader, ElfProgramHeader, ElfSegment, ElfFile, elf_magic, pt_load, pf_rwx, mem_size, phys_addr,
  virt_addr,
}
use sel4cp.Elf.Formats.{elf_header64, header_fields, elf_program_header64, program_header64_fields}

-- The sizes of the whole header and of a program header.
abbrev pub ehsize : ℕ
ehsize = size_of elf_header64 + 5

abbrev pub phentsize : ℕ
phentsize = size_of elf_program_header64

abbrev pub written_header : ElfFile → ElfHeader
written_header elf = record {
  ident_data = 1;
  ident_version = 1;
  ident_osabi = 255;
  ident_abiversion = 0;
  type_ = 2;
  machine = 183;
  version = 1;
  entry = elf.entry;
  phoff = ehsize;
  shoff = 0;
  flags = 0;
  ehsize = ehsize;
  phentsize = phentsize;
  phnum = length elf.segments;
  shentsize = 0;
  shnum = 0;
  shstrndx = 0;
}

abbrev pub written_program_header : ElfSegment → ℕ → ElfProgramHeader
written_program_header seg data_offset = record {
  type_ = pt_load;
  offset = data_offset;
  vaddr = virt_addr seg;
  paddr = phys_addr seg;
  filesz = mem_size seg;
  memsz = mem_size seg;
  flags = pf_rwx;
  align = 1;
}

-- The loop over the program headers.
unfoldable pub write_program_headers : List ElfSegment → ℕ → Result (List ℕ)
unfolding pack
write_program_headers [] data_offset = ok []
write_program_headers (seg ∷ segs) data_offset = do
  header ←
      pack elf_program_header64 (program_header64_fields (written_program_header seg data_offset))
  headers ← write_program_headers segs (data_offset + length seg.contents)
  ok (header ++ headers)

abbrev pub all_contents : List ElfSegment → List ℕ
all_contents [] = []
all_contents (seg ∷ segs) = seg.contents ++ all_contents segs

unfoldable pub write : ElfFile → Result (List ℕ)
unfolding pack write_program_headers
write elf = do
  header ← pack elf_header64 (header_fields (written_header elf))
  headers ← write_program_headers elf.segments (ehsize + length elf.segments * phentsize)
  ok ((elf_magic ++ 2 ∷ header) ++ (headers ++ all_contents elf.segments))

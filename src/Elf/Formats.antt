-- ===== src/Elf/Formats.antt =====
-- The formats of the headers, and the order of their fields.
use sel4cp.Prelude.{ℕ, List, [], ◌∷◌, Result, ok, err, type_error}
use sel4cp.Bytes.{Format, num, pad}
use sel4cp.Elf.Types.{ElfHeader, ElfProgramHeader, ElfSectionHeader, ElfSymbol}

-- `ELF_HEADER32`, without the magic and the class.
abbrev pub elf_header32 : Format
elf_header32 =
    num 1
    ∷ num 1
    ∷ num 1
    ∷ num 1
    ∷ pad 7
    ∷ num 2
    ∷ num 2
    ∷ num 4
    ∷ num 4
    ∷ num 4
    ∷ num 4
    ∷ num 4
    ∷ num 2
    ∷ num 2
    ∷ num 2
    ∷ num 2
    ∷ num 2
    ∷ num 2
    ∷ []

abbrev pub elf_header64 : Format
elf_header64 =
    num 1
    ∷ num 1
    ∷ num 1
    ∷ num 1
    ∷ pad 7
    ∷ num 2
    ∷ num 2
    ∷ num 4
    ∷ num 8
    ∷ num 8
    ∷ num 8
    ∷ num 4
    ∷ num 2
    ∷ num 2
    ∷ num 2
    ∷ num 2
    ∷ num 2
    ∷ num 2
    ∷ []

-- The order of the fields is the same for both classes.
abbrev pub header_of : List ℕ → Result ElfHeader
header_of
      (ident_data ∷ ident_version ∷ ident_osabi ∷ ident_abiversion ∷ type_ ∷ machine ∷ version
        ∷ entry ∷ phoff ∷ shoff ∷ flags ∷ ehsize ∷ phentsize ∷ phnum ∷ shentsize ∷ shnum ∷ shstrndx
        ∷ []) =
    ok (record {
      ident_data = ident_data;
      ident_version = ident_version;
      ident_osabi = ident_osabi;
      ident_abiversion = ident_abiversion;
      type_ = type_;
      machine = machine;
      version = version;
      entry = entry;
      phoff = phoff;
      shoff = shoff;
      flags = flags;
      ehsize = ehsize;
      phentsize = phentsize;
      phnum = phnum;
      shentsize = shentsize;
      shnum = shnum;
      shstrndx = shstrndx;
    })
header_of _ = err type_error

-- `getattr(header, field) for field in ELF_HEADER64_FIELDS`.
abbrev pub header_fields : ElfHeader → List ℕ
header_fields h =
    h.ident_data ∷ h.ident_version ∷ h.ident_osabi ∷ h.ident_abiversion ∷ h.type_ ∷ h.machine
    ∷ h.version ∷ h.entry ∷ h.phoff ∷ h.shoff ∷ h.flags ∷ h.ehsize ∷ h.phentsize ∷ h.phnum
    ∷ h.shentsize ∷ h.shnum ∷ h.shstrndx ∷ []

abbrev pub elf_program_header32 : Format
elf_program_header32 = num 4 ∷ num 4 ∷ num 4 ∷ num 4 ∷ num 4 ∷ num 4 ∷ num 4 ∷ num 4 ∷ []

abbrev pub elf_program_header64 : Format
elf_program_header64 = num 4 ∷ num 4 ∷ num 8 ∷ num 8 ∷ num 8 ∷ num 8 ∷ num 8 ∷ num 8 ∷ []

-- `ELF_PROGRAM_HEADER32_FIELDS`: the flags come late.
abbrev pub program_header32_of : List ℕ → Result ElfProgramHeader
program_header32_of (type_ ∷ offset ∷ vaddr ∷ paddr ∷ filesz ∷ memsz ∷ flags ∷ align ∷ []) =
    ok (record {
      type_ = type_;
      offset = offset;
      vaddr = vaddr;
      paddr = paddr;
      filesz = filesz;
      memsz = memsz;
      flags = flags;
      align = align;
    })
program_header32_of _ = err type_error

-- `ELF_PROGRAM_HEADER64_FIELDS`: the flags come second.
abbrev pub program_header64_of : List ℕ → Result ElfProgramHeader
program_header64_of (type_ ∷ flags ∷ offset ∷ vaddr ∷ paddr ∷ filesz ∷ memsz ∷ align ∷ []) =
    ok (record {
      type_ = type_;
      offset = offset;
      vaddr = vaddr;
      paddr = paddr;
      filesz = filesz;
      memsz = memsz;
      flags = flags;
      align = align;
    })
program_header64_of _ = err type_error

abbrev pub program_header64_fields : ElfProgramHeader → List ℕ
program_header64_fields h =
    h.type_ ∷ h.flags ∷ h.offset ∷ h.vaddr ∷ h.paddr ∷ h.filesz ∷ h.memsz ∷ h.align ∷ []

abbrev pub elf_section_header32 : Format
elf_section_header32 =
    num 4 ∷ num 4 ∷ num 4 ∷ num 4 ∷ num 4 ∷ num 4 ∷ num 4 ∷ num 4 ∷ num 4 ∷ num 4 ∷ []

abbrev pub elf_section_header64 : Format
elf_section_header64 =
    num 4 ∷ num 4 ∷ num 8 ∷ num 8 ∷ num 8 ∷ num 8 ∷ num 4 ∷ num 4 ∷ num 8 ∷ num 8 ∷ []

abbrev pub section_header_of : List ℕ → Result ElfSectionHeader
section_header_of
      (name ∷ type_ ∷ flags ∷ addr ∷ offset ∷ size ∷ link ∷ info ∷ addralign ∷ entsize ∷ []) =
    ok (record {
      name = name;
      type_ = type_;
      flags = flags;
      addr = addr;
      offset = offset;
      size = size;
      link = link;
      info = info;
      addralign = addralign;
      entsize = entsize;
    })
section_header_of _ = err type_error

abbrev pub elf_symbol64 : Format
elf_symbol64 = num 4 ∷ num 1 ∷ num 1 ∷ num 2 ∷ num 8 ∷ num 8 ∷ []

abbrev pub symbol_of : List ℕ → Result ElfSymbol
symbol_of (name ∷ info ∷ other ∷ shndx ∷ value ∷ size ∷ []) =
    ok (record {
      name = name;
      info = info;
      other = other;
      shndx = shndx;
      value = value;
      size = size;
    })
symbol_of _ = err type_error

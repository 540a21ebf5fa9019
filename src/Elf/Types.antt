-- ===== src/Elf/Types.antt =====
-- The headers, segments and files of tool/sel4coreplat/elf.py.
use Prim.Native.String.{String}
use sel4cp.Prelude.{ℕ, ◌/◌, ◌%◌, Bool, ◌||◌, not, List, [], ◌∷◌, ◌++◌, ◌==◌, if◌then◌else◌}

abbrev pub pt_load : ℕ
pt_load = 1

abbrev pub pt_tls : ℕ
pt_tls = 7

-- `PF_R | PF_W | PF_X`.
abbrev pub pf_rwx : ℕ
pf_rwx = 7

abbrev pub elf_magic : List ℕ
elf_magic = 0x7f ∷ b'E' ∷ b'L' ∷ b'F' ∷ []

pub record ElfHeader : Type 0 where
  pub ident_data : ℕ
  pub ident_version : ℕ
  pub ident_osabi : ℕ
  pub ident_abiversion : ℕ
  pub type_ : ℕ
  pub machine : ℕ
  pub version : ℕ
  pub entry : ℕ
  pub phoff : ℕ
  pub shoff : ℕ
  pub flags : ℕ
  pub ehsize : ℕ
  pub phentsize : ℕ
  pub phnum : ℕ
  pub shentsize : ℕ
  pub shnum : ℕ
  pub shstrndx : ℕ

pub record ElfProgramHeader : Type 0 where
  pub type_ : ℕ
  pub offset : ℕ
  pub vaddr : ℕ
  pub paddr : ℕ
  pub filesz : ℕ
  pub memsz : ℕ
  pub flags : ℕ
  pub align : ℕ

pub record ElfSectionHeader : Type 0 where
  pub name : ℕ
  pub type_ : ℕ
  pub flags : ℕ
  pub addr : ℕ
  pub offset : ℕ
  pub size : ℕ
  pub link : ℕ
  pub info : ℕ
  pub addralign : ℕ
  pub entsize : ℕ

pub record ElfSymbol : Type 0 where
  pub name : ℕ
  pub info : ℕ
  pub other : ℕ
  pub shndx : ℕ
  pub value : ℕ
  pub size : ℕ

-- `attrs` is the header's flags.
pub record ElfSegment : Type 0 where
  pub header : ElfProgramHeader
  pub contents : List ℕ

abbrev pub is_loadable : ElfSegment → Bool
is_loadable seg = (seg.header.type_ == pt_load) || (seg.header.type_ == pt_tls)

abbrev pub mem_size : ElfSegment → ℕ
mem_size seg = seg.header.memsz

abbrev pub alignment : ElfSegment → ℕ
alignment seg = seg.header.align

abbrev pub is_writable : ElfSegment → Bool
is_writable seg = not (seg.header.flags / 2 % 2 == 0)

abbrev pub is_readable : ElfSegment → Bool
is_readable seg = not (seg.header.flags / 4 % 2 == 0)

abbrev pub is_executable : ElfSegment → Bool
is_executable seg = not (seg.header.flags % 2 == 0)

abbrev pub phys_addr : ElfSegment → ℕ
phys_addr seg = seg.header.paddr

abbrev pub virt_addr : ElfSegment → ℕ
virt_addr seg = seg.header.vaddr

pub record ElfFile : Type 0 where
  pub segments : List ElfSegment
  pub symbols : List (String × ElfSymbol)
  pub word_size : ℕ
  pub entry : ℕ

-- `ElfFile()`.
abbrev pub empty_file : ℕ → ElfFile
empty_file word_size = record { segments = []; symbols = []; word_size = word_size; entry = 0 }

abbrev pub add_segment : ElfSegment → ElfFile → ElfFile
add_segment seg elf = record elf { segments = elf.segments ++ seg ∷ [] }

-- `find_segment_all`.
unfoldable pub find_segment_all : ℕ → List ElfSegment → List ElfSegment
find_segment_all segment_type [] = []
find_segment_all segment_type (seg ∷ segs) =
    if seg.header.type_ == segment_type
    then seg ∷ find_segment_all segment_type segs
    else find_segment_all segment_type segs

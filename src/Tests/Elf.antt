-- ===== src/Tests/Elf.antt =====
-- Runs of tool/sel4coreplat/elf.py on a file with one segment and one symbol.
use sel4cp.Prelude.{ℕ, ◌≡◌, refl, List, [], ◌∷◌, Result, ok, err, unbound_local}
use sel4cp.Bytes.{pack, word_bytes}
use sel4cp.Elf.Types.{ElfSymbol, ElfSegment, ElfFile, pt_load}
use sel4cp.Elf.Read.{from_path}
use sel4cp.Elf.Write.{write_program_headers, write}
use sel4cp.Elf.Write.Reload.{from_path-write}
use sel4cp.Elf.Symbols.{find_from, find_symbol, get_data_from, get_data, write_symbol}
use sel4cp.Elf.Symbols.Memory.{get_data-write_symbol}

abbrev code : ElfSegment
code = record {
  header = record {
    type_ = pt_load;
    offset = 0;
    vaddr = 0x200000;
    paddr = 0x40000000;
    filesz = 6;
    memsz = 6;
    flags = 7;
    align = 1;
  };
  contents = 1 ∷ 2 ∷ 3 ∷ 4 ∷ 5 ∷ 6 ∷ [];
}

abbrev counter : ElfSymbol
counter = record { name = 1; info = 0; other = 0; shndx = 0; value = 0x200002; size = 2 }

abbrev pub tiny : ElfFile
tiny = record {
  segments = code ∷ [];
  symbols = ("counter", counter) ∷ [];
  word_size = 64;
  entry = 0x200000;
}

abbrev returned : Result (List ℕ) → List ℕ
returned (ok bytes) = bytes
returned (err e) = []

abbrev tiny_file : List ℕ
unfolding write write_program_headers pack word_bytes
tiny_file = returned (write tiny)

tiny_written : write tiny ≡ ok tiny_file
unfolding write write_program_headers pack word_bytes
tiny_written = refl

from_path-write_example : from_path (λ bytes. ok "name") tiny_file ≡ err unbound_local
from_path-write_example =
    from_path-write (λ bytes. ok "name") tiny tiny_file (refl, tt) tiny_written

counter_found : find_symbol "counter" tiny ≡ ok (0x200002, 2)
unfolding find_symbol find_from
counter_found = refl

counter_held : get_data 0x200002 2 tiny ≡ ok (3 ∷ 4 ∷ [])
unfolding get_data get_data_from
counter_held = refl

get_data-write_symbol_example :
    (after : ElfFile) × (write_symbol "counter" (9 ∷ 8 ∷ []) tiny ≡ ok after)
    × (get_data 0x200002 2 after ≡ ok (9 ∷ 8 ∷ []))
    × (find_symbol "counter" after ≡ ok (0x200002, 2))
get_data-write_symbol_example =
    get_data-write_symbol "counter" 0x200002 (9 ∷ 8 ∷ []) tiny counter_found counter_held

-- ===== src/Lib.antt =====
-- The seL4 Core Platform tool, as a model with proofs: how it splits the physical memory as the
-- kernel does, allocates kernel objects, encodes the kernel invocations that set a system up, how
-- the initial task reads and performs them, and how the boot image is put together and loaded.
--
-- The program. tool/sel4coreplat/__main__.py reads a system description, emulates the kernel's boot
-- to learn which untyped memory there will be, allocates every kernel object in advance, and writes
-- the invocations that create the system into two tables. sysinit/src/main.c, the initial task,
-- performs these tables at boot. tool/sel4coreplat/loader.py packs the kernel, the initial task and
-- the rest into one image, which loader/src/loader.c unpacks. They agree only if the tool predicts
-- exactly what the kernel does, so the arithmetic of regions and the formats of the tables and of
-- the image carry the correctness.
--
-- The files.
-- - Prelude: numbers, lists, and Python's exceptions as the values of a result type.
-- - Bits: bit operations on numbers as arithmetic.
-- - Words: the helpers of tool/sel4coreplat/util.py (msb, lsb, round_up, mask_bits,
--   is_power_of_two, machine_add, ...). Python's integers are unbounded and non-negative here; what
--   wraps at 64 bits has the wrap written out. bit_length loops at most n times for n.
-- - Bytes: the formats of Python's struct module, as lists of field sizes.
-- - Memory: MemoryRegion and DisjointMemoryRegion of util.py. A list of regions is the field
--   _regions. The splitting loop has as many rounds as the region has bytes, and each round covers
--   at least one.
-- - Elf: tool/sel4coreplat/elf.py. A file is a list of bytes; ElfFile is a record that add_segment and
--   write_symbol return anew. Decoding a name from UTF-8 is a parameter. A name bound in no branch is
--   an error. The loop over the symbols has one round for at least one byte of the table.
-- - Loader: tool/sel4coreplat/loader.py. Loader.__init__ is `loader` behind the reading of its file
--   and `load` with it; the image that it patches in place is passed on as a value. write_image is
--   read against copy_data of loader/src/loader.c, a loop on the memory that has one round more of fuel
--   than there are regions, which is enough where no region overwrites the data.
-- - Kernel: the constants and records of tool/sel4coreplat/sel4.py, and KernelObjectAllocator of
--   tool/sel4coreplat/__main__.py, whose lists of allocators are passed on as values.
-- - Invocation: the dataclasses under Sel4Invocation of sel4.py, one constructor each, and their
--   encoding. A message is a list of 64-bit words, and then of bytes. struct.pack refuses what does
--   not fit its format.
-- - Sysinit: perform_invocation of sysinit/src/main.c and its loops. The calls of the kernel are a
--   list; a run stops at a call that the kernel refuses, and the model is of runs where it refuses
--   none. The accessors of message tags belong to the kernel's library and are a parameter, with
--   the documented layout as its law. Offsets and the counter of rounds wrap at 32 bits; the loop has
--   one round more of fuel than it has iterations, which is enough below 2 ** 32 of them, and at
--   2 ** 32 no fuel is. Reading past the end of a table is an error here.
-- - Kernel/Boot: the emulated boot of sel4.py, from a record of what the kernel's ELF file says of
--   memory, and the readers that make the record. A second loop that counts on from an unbound
--   variable is an error.
-- - Builder: InitSystem of __main__.py, a record that each operation takes and returns, and the
--   layout of address and capability spaces (tool/sel4coreplat/system.py and the offsets of
--   __main__.py). The batches are bounded by the number of objects, the padding by its bytes.
-- - Builder/Placement and Builder/Bootstrap: the part of build_system that fixes the memory of the
--   initial task, the table of invocations and the programs, and the invocations by which the
--   initial task makes its own capability nodes and maps the table. The emulated boot and the
--   programs' files are arguments.
-- - Builder/Paging: which paging structures each domain needs. A set that is sorted at its end is the
--   sorted list from the start.
-- - Builder/CSpace and Builder/Setup: the part of build_system behind the retyping of objects. Each
--   loop or group of appends is a function that returns its commands and, where it takes slots of
--   the system capability node, the next free one. A domain comes with the objects that the zips of
--   the source pair it with; a dictionary keyed by domains is a search by their names. The names of
--   capabilities, which only the report prints, are left out.
-- - Handler: how handler_loop of libsel4cp/src/main.c reads a badge, with its 64 bits as the bound on
--   the rounds.
-- - Description: the flattening and the checks of SystemDescription (tool/sel4coreplat/sysxml.py).
-- - Tests: runs at concrete inputs.
--
-- Not modelled: the parser of system descriptions from XML; the loop of main that sizes the system,
-- which runs all of build_system; of build_system the regions and maps
-- for stacks, thread-local storage and message buffers, the allocation of pages to regions, and the
-- symbols that are patched; compilers, files and console output.
pub mod Prelude
pub mod Bits
pub mod Bytes
pub mod Words
pub mod Memory
pub mod Elf
pub mod Kernel
pub mod Loader
pub mod Invocation
pub mod Sysinit
pub mod Builder
pub mod Description
pub mod Handler
pub mod Tests

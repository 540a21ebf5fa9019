-- ===== src/Elf.antt =====
-- ELF files: tool/sel4coreplat/elf.py. The bytes of a file and of a segment are lists of numbers
-- below 256.
pub mod Types
pub mod Formats
pub mod Read
pub mod Write
pub mod Symbols

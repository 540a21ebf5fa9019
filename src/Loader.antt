-- ===== src/Loader.antt =====
-- The boot image: tool/sel4coreplat/loader.py.
pub mod Tables
pub mod Overlap
pub mod Image
pub mod Write

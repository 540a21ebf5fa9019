-- ===== src/Kernel.antt =====
-- The kernel's objects as the tool sees them: the constants and the boot information of
-- tool/sel4coreplat/sel4.py, and the allocator for kernel objects of
-- tool/sel4coreplat/__main__.py.
pub mod Types
pub mod Boot
pub mod Allocator

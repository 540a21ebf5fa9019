-- ===== src/Tests.antt =====
-- Runs at concrete inputs.
mod Words
mod Memory
mod Kernel
mod Sysinit
mod Builder
mod Boot
mod Layout
mod Description
mod Elf
mod Loader
mod Handler
mod CSpace
mod Placement
mod Paging

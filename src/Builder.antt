-- ===== src/Builder.antt =====
-- The builder of tool/sel4coreplat/__main__.py.
pub mod InitSystem
pub mod CSpace
pub mod Layout
pub mod Regions
pub mod Placement
pub mod Bootstrap
pub mod Paging
pub mod Setup

-- ===== src/Pool.antt =====
-- platform/plat_mgn_mem.h: the pool of managed memory.
pub mod Table
pub mod State
pub mod Owners
pub mod Growth
pub mod Unused
pub mod Swept
mod Tests

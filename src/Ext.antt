-- ===== src/Ext.antt =====
-- mmo/mmo_ext.h: values and containers of the object library.
pub mod Hash
pub mod Listed
pub mod Map
pub mod MapLaws
pub mod MapUpdates
pub mod Sequence
pub mod SequenceLaws
pub mod Number
mod Tests

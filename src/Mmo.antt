-- ===== src/Mmo.antt =====
-- mmo/mmo.h: the object model.
pub mod Chain
pub mod Cast
pub mod Birth
pub mod Compare
mod Tests

-- ===== src/Pack.antt =====
-- mmo/mmo_pack.h and mmo/mmo_pack.c: objects packed into a byte buffer and unpacked again.
mod Tests
pub mod Codes
pub mod Packer
pub mod Unpacker
pub mod Process
pub mod Getters
pub mod CallCodec
pub mod Rounds
pub mod ItemCodec
pub mod Received
pub mod RoundTrip
pub mod RootTrip
pub mod ObjectCodec
pub mod ObjectPacked
pub mod ObjectRounds
pub mod ObjectUnpacked
pub mod ObjectTrip
pub mod ObjectResult
pub mod ObjectLaws
pub mod Malformed
pub mod ArrayRounds
pub mod ArrayLaws
pub mod Numbers

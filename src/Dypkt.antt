-- ===== src/Dypkt.antt =====
-- dybuf/dypkt.h: typed fields over the byte buffer.
pub mod Pack
pub mod Unpack
pub mod Field
pub mod FieldCodec
pub mod Packet
pub mod Unheaded
mod Tests

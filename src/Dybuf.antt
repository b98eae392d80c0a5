-- ===== src/Dybuf.antt =====
-- dybuf/dybuf.h: the byte buffer.
pub mod State
pub mod Resize
pub mod Append
pub mod Join
pub mod Next
pub mod Peek
pub mod Blocks
pub mod Resized
pub mod Inv
pub mod JoinLaws
pub mod Reads
pub mod Runs
pub mod Writes
pub mod TypdexTyp
pub mod Typdex
pub mod VarInt
pub mod VarBlocks
pub mod Float
pub mod Life
pub mod BigEndian
pub mod VarFormat
pub mod VarCodec
pub mod TypdexFormat
pub mod TypdexCodec
pub mod SignedCodec
pub mod FloatCodec
pub mod BlockCodec
pub mod VarBlockCodec
pub mod RoundTrip
pub mod Widths
pub mod Formats
pub mod Compacted
pub mod Edges
pub mod LifeLaws
pub mod Peeks
mod Tests

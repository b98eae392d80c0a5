-- ===== src/Dybuf/Peek.antt =====
-- dybuf/dybuf.h: `dyb_peek_bool` to `dyb_peek_u64`: the same reads, with the position left alone.
use lc_clibs.Base.{ℕ, Bool, not, ◌==◌}
use lc_clibs.Dybuf.State.{◌>>=◌, M, pure, peek_byte}
use lc_clibs.Dybuf.Join.{be_u16, be_u24, be_u32, be_u40, be_u48, be_u56, be_u64}

unfoldable pub peek_bool : M Bool
peek_bool = do b ← peek_byte 0; pure (not (b == 0))

unfoldable pub peek_u8 : M ℕ
peek_u8 = peek_byte 0

unfoldable pub peek_u16 : M ℕ
peek_u16 = do a ← peek_byte 0; b ← peek_byte 1; pure (be_u16 a b)

unfoldable pub peek_u24 : M ℕ
peek_u24 = do a ← peek_byte 0; b ← peek_byte 1; c ← peek_byte 2; pure (be_u24 a b c)

unfoldable pub peek_u32 : M ℕ
peek_u32 = do
  a ← peek_byte 0
  b ← peek_byte 1
  c ← peek_byte 2
  d ← peek_byte 3
  pure (be_u32 a b c d)

unfoldable pub peek_u40 : M ℕ
peek_u40 = do
  a ← peek_byte 0
  b ← peek_byte 1
  c ← peek_byte 2
  d ← peek_byte 3
  e ← peek_byte 4
  pure (be_u40 a b c d e)

unfoldable pub peek_u48 : M ℕ
peek_u48 = do
  a ← peek_byte 0
  b ← peek_byte 1
  c ← peek_byte 2
  d ← peek_byte 3
  e ← peek_byte 4
  f ← peek_byte 5
  pure (be_u48 a b c d e f)

unfoldable pub peek_u56 : M ℕ
peek_u56 = do
  a ← peek_byte 0
  b ← peek_byte 1
  c ← peek_byte 2
  d ← peek_byte 3
  e ← peek_byte 4
  f ← peek_byte 5
  g ← peek_byte 6
  pure (be_u56 a b c d e f g)

unfoldable pub peek_u64 : M ℕ
peek_u64 = do
  a ← peek_byte 0
  b ← peek_byte 1
  c ← peek_byte 2
  d ← peek_byte 3
  e ← peek_byte 4
  f ← peek_byte 5
  g ← peek_byte 6
  h ← peek_byte 7
  pure (be_u64 a b c d e f g h)

-- ===== src/Dybuf/Next.antt =====
-- dybuf/dybuf.h: `dyb_next_bool` to `dyb_next_u64`. There is no test against the limit.
use lc_clibs.Base.{ℕ, Bool, not, ◌==◌}
use lc_clibs.Dybuf.State.{◌>>=◌, M, pure, take_byte}
use lc_clibs.Dybuf.Join.{be_u16, be_u24, be_u32, be_u40, be_u48, be_u56, be_u64}

unfoldable pub next_bool : M Bool
next_bool = do b ← take_byte; pure (not (b == 0))

unfoldable pub next_u8 : M ℕ
next_u8 = take_byte

unfoldable pub next_u16 : M ℕ
next_u16 = do a ← take_byte; b ← take_byte; pure (be_u16 a b)

unfoldable pub next_u24 : M ℕ
next_u24 = do a ← take_byte; b ← take_byte; c ← take_byte; pure (be_u24 a b c)

unfoldable pub next_u32 : M ℕ
next_u32 = do a ← take_byte; b ← take_byte; c ← take_byte; d ← take_byte; pure (be_u32 a b c d)

unfoldable pub next_u40 : M ℕ
next_u40 = do
  a ← take_byte
  b ← take_byte
  c ← take_byte
  d ← take_byte
  e ← take_byte
  pure (be_u40 a b c d e)

unfoldable pub next_u48 : M ℕ
next_u48 = do
  a ← take_byte
  b ← take_byte
  c ← take_byte
  d ← take_byte
  e ← take_byte
  f ← take_byte
  pure (be_u48 a b c d e f)

unfoldable pub next_u56 : M ℕ
next_u56 = do
  a ← take_byte
  b ← take_byte
  c ← take_byte
  d ← take_byte
  e ← take_byte
  f ← take_byte
  g ← take_byte
  pure (be_u56 a b c d e f g)

unfoldable pub next_u64 : M ℕ
next_u64 = do
  a ← take_byte
  b ← take_byte
  c ← take_byte
  d ← take_byte
  e ← take_byte
  f ← take_byte
  g ← take_byte
  h ← take_byte
  pure (be_u64 a b c d e f g h)

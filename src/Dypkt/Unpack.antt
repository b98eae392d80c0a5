-- ===== src/Dypkt/Unpack.antt =====
-- dybuf/dypkt.h: the next functions. Each skips a typdex and reads the value.
use lc_clibs.Base.{ℕ, Bool, Option}
use lc_clibs.Dybuf.State.{M, ◌>>=◌, pure}
use lc_clibs.Dybuf.Next.{next_bool as dyb_next_bool}
use lc_clibs.Dybuf.Typdex.{next_typdex, peek_typdex}
use lc_clibs.Dybuf.VarInt.{next_var_u64, next_var_s64}
use lc_clibs.Dybuf.VarBlocks.{next_data_with_var_len, next_cstring_with_var_len}
use lc_clibs.Dybuf.Float.{next_float as dyb_next_float, next_double as dyb_next_double}

-- The type and the index of the field to come; nothing is skipped.
unfoldable pub next_type : M (ℕ × ℕ)
next_type = peek_typdex

unfoldable pub next_version : M ℕ
next_version = do _ ← next_typdex; next_var_u64

-- A pointer and the size of the string behind it.
unfoldable pub next_protocol : M (Option ℕ × ℕ)
next_protocol = do _ ← next_typdex; next_cstring_with_var_len

unfoldable pub next_protocol_version : M ℕ
next_protocol_version = do _ ← next_typdex; next_var_u64

unfoldable pub next_eof : M (Unit {0})
next_eof = do _ ← next_typdex; pure tt

unfoldable pub next_bool : M Bool
next_bool = do _ ← next_typdex; dyb_next_bool

unfoldable pub next_int : M ℕ
next_int = do _ ← next_typdex; next_var_s64

unfoldable pub next_uint : M ℕ
next_uint = do _ ← next_typdex; next_var_u64

unfoldable pub next_float : Bool → M ℕ
next_float host = do _ ← next_typdex; dyb_next_float host

unfoldable pub next_double : Bool → M ℕ
next_double host = do _ ← next_typdex; dyb_next_double host

unfoldable pub next_cstring : M (Option ℕ × ℕ)
next_cstring = do _ ← next_typdex; next_cstring_with_var_len

unfoldable pub next_data : M (Option ℕ × ℕ)
next_data = do _ ← next_typdex; next_data_with_var_len

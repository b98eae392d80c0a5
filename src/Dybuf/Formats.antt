-- ===== src/Dybuf/Formats.antt =====
-- dybuf/dybuf.h: the bytes that the append functions leave behind, and what the readers make
-- of them.
use lc_clibs.Base.{ℕ, ◌+◌, ◌^◌, ◌≤◌, ◌<◌, ◌≡◌, Bool, true, List, take, length}
use lc_clibs.Mem.{Mem, Malloc}
use lc_clibs.Dybuf.State.{Dybuf, IsValid, ok, M}
use lc_clibs.Dybuf.Reads.{Holds, advance}
use lc_clibs.Dybuf.Writes.{RoomTo, Appended}
use lc_clibs.Dybuf.VarInt.{append_var_u64, next_var_u64}
use lc_clibs.Dybuf.VarFormat.{var_bytes}
use lc_clibs.Dybuf.VarCodec.{append_var_u64-Writes, next_var_u64-Reads}
use lc_clibs.Dybuf.Typdex.{append_typdex, next_typdex, peek_typdex}
use lc_clibs.Dybuf.TypdexFormat.{typdex_bytes}
use lc_clibs.Dybuf.TypdexCodec.{append_typdex-Writes, next_typdex-Reads, peek_typdex-Peeks}
use lc_clibs.Dybuf.Float.{append_float}
use lc_clibs.Dybuf.FloatCodec.{float_bytes, append_float-Writes}
use lc_clibs.Dybuf.Blocks.{append_data_without_len}
use lc_clibs.Dybuf.BlockCodec.{append_data_without_len-Writes}

-- The call ends without a fault with the value, and has appended the bytes.
abbrev pub Wrote : {A : Type 0} → List ℕ → A → M A → Malloc → Dybuf → Type 0
Wrote bs a op m d = (d' : Dybuf) × (op m d ≡ ok a d') × Appended bs d d'

-- Into a valid buffer with room `dyb_append_var_u64` writes any `uint64` as the prefix format
-- `var_bytes`: the shortest of 1 to 9 bytes. What stood elsewhere in the block and the mark stay, the
-- buffer stays valid, and the position ends behind the bytes.
pub append_var_u64-Wrote :
    (v : ℕ) (m : Malloc) (d : Dybuf)
    → v < 2 ^ 64
    → IsValid d
    → RoomTo m (d.position + length (var_bytes v)) d
    → Wrote (var_bytes v) tt (append_var_u64 v) m d
append_var_u64-Wrote v m d h = append_var_u64-Writes v h m d

-- Into a valid buffer with room `dyb_append_typdex` writes any `uint8` type and any index below
-- 2 ^ 20 as `typdex_bytes`, the shortest of its four forms, and returns true.
pub append_typdex-Wrote :
    (t i : ℕ) (m : Malloc) (d : Dybuf)
    → t < 256
    → i < 2 ^ 20
    → IsValid d
    → RoomTo m (d.position + length (typdex_bytes t i)) d
    → Wrote (typdex_bytes t i) true (append_typdex t i) m d
append_typdex-Wrote t i m d h k = append_typdex-Writes t i h k m d

-- In a buffer whose next bytes are those of a `uint64` in the format `var_bytes`, all before the
-- limit, `dyb_next_var_u64` returns it, moves past them and changes nothing else.
pub next_var_u64_lem :
    (v : ℕ) (m : Malloc) (d : Dybuf)
    → v < 2 ^ 64
    → Holds d (var_bytes v)
    → next_var_u64 m d ≡ ok v (advance (length (var_bytes v)) d)
next_var_u64_lem v m d h = next_var_u64-Reads v h m d

-- In a buffer whose next bytes are those of a typdex with a `uint8` type and an index below
-- 2 ^ 20, all before the limit, `dyb_peek_typdex` returns both and changes nothing, and
-- `dyb_next_typdex` returns both and moves past the bytes.
pub next_typdex_lem :
    (t i : ℕ) (m : Malloc) (d : Dybuf)
    → t < 256
    → i < 2 ^ 20
    → Holds d (typdex_bytes t i)
    → (peek_typdex m d ≡ ok (t, i) d)
      × (next_typdex m d ≡ ok (t, i) (advance (length (typdex_bytes t i)) d))
next_typdex_lem t i m d h k b = (peek_typdex-Peeks t i h k m d b, next_typdex-Reads t i h k m d b)

-- Into a valid buffer with room `dyb_append_float` writes the four bytes of the float's pattern with
-- the lowest first where the host is little-endian, and with the highest first where it is not.
pub append_float-Wrote :
    (host : Bool) (v : ℕ) (m : Malloc) (d : Dybuf)
    → v < 2 ^ 32
    → IsValid d
    → RoomTo m (d.position + length (float_bytes host v)) d
    → Wrote (float_bytes host v) tt (append_float host v) m d
append_float-Wrote host v m d h = append_float-Writes host v h m d

-- Into a valid buffer with room `dyb_append_data_without_len` writes the first `len` bytes of its
-- source, of which there are at least so many.
pub append_data_without_len-Wrote :
    (src : Mem) (len : ℕ) (m : Malloc) (d : Dybuf)
    → len ≤ length src
    → IsValid d
    → RoomTo m (d.position + length (take len src)) d
    → Wrote (take len src) tt (append_data_without_len src len) m d
append_data_without_len-Wrote src len m d h = append_data_without_len-Writes src len h m d

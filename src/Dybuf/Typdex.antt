-- ===== src/Dybuf/Typdex.antt =====
-- dybuf/dybuf.h: `dyb_append_typdex`, `dyb_next_typdex` and `dyb_peek_typdex`.
-- A type and an index share one to four bytes, and the first bits say how many.
use lc_clibs.Base.{
  ℕ, Bool, true, false, ◌&&◌, bit_and, bit_or, u8, u16, shl, shr, leb, ◌==◌, if◌then◌else◌,
}
use lc_clibs.Dybuf.State.{M, pure, ◌>>=◌, ◌>>◌}
use lc_clibs.Dybuf.Append.{append_u8, append_u16, append_u24, append_u32}
use lc_clibs.Dybuf.Next.{next_u8, next_u16, next_u24, next_u32}
use lc_clibs.Dybuf.Peek.{peek_u8, peek_u16, peek_u24, peek_u32}

-- False is null.
unfoldable pub append_typdex : ℕ → ℕ → M Bool
append_typdex type index =
    if leb type 0x0f && leb index 0x07
    then (do append_u8 (u8 (bit_or (shl type 3) index)); pure true)
    else if leb type 0x3f && leb index 0xff
    then (do append_u16 (u16 (bit_or (bit_or 0x8000 (shl type 8)) index)); pure true)
    else if leb type 0xff && leb index 0x1fff
    then (do append_u24 (bit_or (bit_or 0xc00000 (shl type 13)) index); pure true)
    else if leb type 0xff && leb index 0x0fffff
    then (do append_u32 (bit_or (bit_or 0xe0000000 (shl type 20)) index); pure true)
    else pure false

-- The pair of `*type` and `*index`, by the first byte `typ`. A header that is none of the four is
-- no error: it leaves the first byte as the type, 0 as the index and the position where it is.
unfoldable pub next_typdex_at : ℕ → M (ℕ × ℕ)
next_typdex_at typ =
    if bit_and typ 0x80 == 0
    then (do v ← next_u8; pure (bit_and (shr v 3) 0x0f, bit_and v 0x07))
    else if bit_and typ 0x40 == 0
    then (do v ← next_u16; pure (bit_and (u8 (shr v 8)) 0x3f, bit_and v 0xff))
    else if bit_and typ 0x20 == 0
    then (do v ← next_u24; pure (bit_and (u8 (shr v 13)) 0xff, bit_and v 0x1fff))
    else if bit_and typ 0x10 == 0
    then (do v ← next_u32; pure (bit_and (u8 (shr v 20)) 0xff, bit_and v 0x0fffff))
    else pure (typ, 0)

unfoldable pub next_typdex : M (ℕ × ℕ)
next_typdex = do typ ← peek_u8; next_typdex_at typ

unfoldable pub peek_typdex_at : ℕ → M (ℕ × ℕ)
peek_typdex_at typ =
    if bit_and typ 0x80 == 0
    then (do v ← peek_u8; pure (bit_and (shr v 3) 0x0f, bit_and v 0x07))
    else if bit_and typ 0x40 == 0
    then (do v ← peek_u16; pure (bit_and (u8 (shr v 8)) 0x3f, bit_and v 0xff))
    else if bit_and typ 0x20 == 0
    then (do v ← peek_u24; pure (bit_and (u8 (shr v 13)) 0xff, bit_and v 0x1fff))
    else if bit_and typ 0x10 == 0
    then (do v ← peek_u32; pure (bit_and (u8 (shr v 20)) 0xff, bit_and v 0x0fffff))
    else pure (typ, 0)

unfoldable pub peek_typdex : M (ℕ × ℕ)
peek_typdex = do typ ← peek_u8; peek_typdex_at typ

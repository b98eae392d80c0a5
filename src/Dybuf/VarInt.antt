-- ===== src/Dybuf/VarInt.antt =====
-- dybuf/dybuf.h: integers of variable length, one to nine bytes.
use lc_clibs.Base.{
  ℕ, ◌+◌, ◌^◌, bit_and, bit_or, bit_xor, u8, u16, u32, u64, shl, shr, sub64, add64, leb, ltb, ◌==◌,
  if◌then◌else◌,
}
use lc_clibs.Dybuf.State.{M, pure, ◌>>=◌, ◌>>◌}
use lc_clibs.Dybuf.Append.{
  append_u8, append_u16, append_u24, append_u32, append_u40, append_u48, append_u56, append_u64,
}
use lc_clibs.Dybuf.Next.{
  next_u8, next_u16, next_u24, next_u32, next_u40, next_u48, next_u56, next_u64,
}

unfoldable pub append_var_u64 : ℕ → M (Unit {0})
append_var_u64 value =
    if leb value 0x7f
    then append_u8 (u8 value)
    else if leb value (0x3fff + 0x80)
    then append_u16 (u16 (bit_or 0x8000 (sub64 value 0x80)))
    else if leb value (0x1fffff + 0x4080)
    then append_u24 (u32 (bit_or 0xc00000 (sub64 value 0x4080)))
    else if leb value (0x0fffffff + 0x204080)
    then append_u32 (u32 (bit_or 0xe0000000 (sub64 value 0x204080)))
    else if leb value (0x07ffffffff + 0x10204080)
    then append_u40 (bit_or 0xf000000000 (sub64 value 0x10204080))
    else if leb value (0x03ffffffffff + 0x0810204080)
    then append_u48 (bit_or 0xf80000000000 (sub64 value 0x0810204080))
    else if leb value (0x01ffffffffffff + 0x040810204080)
    then append_u56 (bit_or 0xfc000000000000 (sub64 value 0x040810204080))
    else if leb value (0x00ffffffffffffff + 0x02040810204080)
    then append_u64 (bit_or 0xfe00000000000000 (sub64 value 0x02040810204080))
    else (do append_u8 0xff; append_u64 (sub64 value 0x0102040810204080))

-- What follows the first byte `b`.
unfoldable pub next_var_rest : ℕ → M ℕ
next_var_rest b =
    if bit_and b 0x80 == 0
    then pure (bit_and b 0x7f)
    else if bit_and b 0x40 == 0
    then (do v ← next_u8; pure (add64 (bit_or (shl (bit_and b 0x3f) 8) (bit_and v 0xff)) 0x80))
    else if bit_and b 0x20 == 0
    then (do
      v ← next_u16
      pure (add64 (bit_or (shl (bit_and b 0x1f) 16) (bit_and v 0xffff)) 0x4080))
    else if bit_and b 0x10 == 0
    then (do
      v ← next_u24
      pure (add64 (bit_or (shl (bit_and b 0x0f) 24) (bit_and v 0xffffff)) 0x204080))
    else if bit_and b 0x08 == 0
    then (do
      v ← next_u32
      pure (add64 (bit_or (shl (bit_and b 0x07) 32) (bit_and v 0xffffffff)) 0x10204080))
    else if bit_and b 0x04 == 0
    then (do
      v ← next_u40
      pure (add64 (bit_or (shl (bit_and b 0x03) 40) (bit_and v 0xffffffffff)) 0x0810204080))
    else if bit_and b 0x02 == 0
    then (do
      v ← next_u48
      pure (add64 (bit_or (shl (bit_and b 0x01) 48) (bit_and v 0xffffffffffff)) 0x040810204080))
    else if bit_and b 0x01 == 0
    then (do v ← next_u56; pure (add64 (bit_and v 0xffffffffffffff) 0x02040810204080))
    else (do v ← next_u64; pure (add64 v 0x0102040810204080))

unfoldable pub next_var_u64 : M ℕ
next_var_u64 = do b ← next_u8; next_var_rest b

-- An `int64` is its bit pattern, below 2 ^ 64. `value >> 63` copies the sign bit.
abbrev pub sign_fill : ℕ → ℕ
sign_fill value = if ltb value (2 ^ 63) then 0 else 0xffffffffffffffff

unfoldable pub append_var_s64 : ℕ → M (Unit {0})
append_var_s64 value = append_var_u64 (bit_xor (u64 (shl value 1)) (sign_fill value))

unfoldable pub next_var_s64 : M ℕ
next_var_s64 = do
  u ← next_var_u64
  pure (
      if bit_and u 0x01 == 0
      then bit_and (shr u 1) 0x7fffffffffffffff
      else bit_xor (bit_and (shr u 1) 0x7fffffffffffffff) 0xffffffffffffffff)

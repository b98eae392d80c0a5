-- ===== src/Dybuf/Blocks.antt =====
-- dybuf/dybuf.h: runs of bytes, with and without a length in front.
-- A pointer into the block is its offset; none is null. `*len` is returned beside it.
use lc_clibs.Base.{
  ℕ, ◌+◌, ◌||◌, Option, none, some, bit_and, bit_or, u32, shr, shl, add32, ltb, ◌==◌, if◌then◌else◌,
  take, drop, leb, length,
}
use lc_clibs.Mem.{Mem, mem_copy_at}
use lc_clibs.Dybuf.State.{◌>>=◌, ◌>>◌, ok, fault, M, pure, this, put_byte, take_byte, skip}
use lc_clibs.Dybuf.Resize.{reserve}

-- The guard that the readers of a run share, and the pointer they return.
unfoldable pub next_run : ℕ → M (Option ℕ)
next_run len = do
  d ← this
  if (len == 0) || ltb d.limit (add32 d.position len)
      then pure none
      else (do skip len; pure (some d.position))

unfoldable pub next_data_with_1byte_len : M (Option ℕ × ℕ)
next_data_with_1byte_len = do len ← take_byte; at ← next_run len; pure (at, len)

unfoldable pub next_data_with_2bytes_len : M (Option ℕ × ℕ)
next_data_with_2bytes_len = do
  a ← take_byte
  b ← take_byte
  let len = bit_or (u32 (shl a 8)) b
  at ← next_run len
  pure (at, len)

unfoldable pub next_data_without_len : ℕ → M (Option ℕ)
next_data_without_len len = next_run len

-- The `size` bytes at `at`, as `dyb_mem_copy(structure, data + at, size)` copies them out.
unfoldable pub copy_out : ℕ → ℕ → M Mem
copy_out at size m d =
    if leb (at + size) (length d.block) then ok (take size (drop at d.block)) d else fault

-- What is copied to `structure`; none is null.
unfoldable pub next_structure : ℕ → M (Option Mem)
next_structure size = do
  d ← this
  if (size == 0) || ltb d.limit (add32 d.position size)
      then pure none
      else (do bytes ← copy_out d.position size; skip size; pure (some bytes))

-- `dyb_mem_copy(data + position, src, length); position += length;`
unfoldable pub put_run : Mem → ℕ → M (Unit {0})
put_run src len m d = elim (mem_copy_at d.block d.position src len) [
  | none ↦ fault
  | some new_block ↦ ok tt (record d { block = new_block; position = add32 d.position len })
]

-- `if (length > 0) ...`
unfoldable pub put_run_if_any : Mem → ℕ → M (Unit {0})
put_run_if_any src len = if len == 0 then pure tt else put_run src len

unfoldable pub append_data_with_1byte_len : Mem → ℕ → M (Unit {0})
append_data_with_1byte_len src size = do
  let len = bit_and size 0xff
  reserve (u32 (len + 1))
  put_byte len
  put_run_if_any src len

unfoldable pub append_data_with_2bytes_len : Mem → ℕ → M (Unit {0})
append_data_with_2bytes_len src size = do
  let len = bit_and size 0xffff
  reserve (u32 (len + 2))
  put_byte (shr len 8)
  put_byte len
  put_run_if_any src len

unfoldable pub append_data_without_len : Mem → ℕ → M (Unit {0})
append_data_without_len src len = do reserve len; put_run_if_any src len

unfoldable pub append_structure : Mem → ℕ → M (Unit {0})
append_structure structure size = append_data_without_len structure size

-- `*len` and `_data`: the written bytes are the first `*len` of the block.
unfoldable pub get_data_before_current_position : M (ℕ × Mem)
get_data_before_current_position = do d ← this; pure (d.position, d.block)

-- ===== src/Dybuf/RoundTrip.antt =====
-- dybuf/dybuf.h: what one call writes, its twin reads back: mark, append, reset, next.
use lc_clibs.Base.{ℕ, ◌+◌, ◌^◌, ◌<◌, ◌≡◌, Bool, some, List, arith, All, length, max}
use lc_clibs.Mem.{Mem, Malloc}
use lc_clibs.Dybuf.State.{Dybuf, IsValid, ok, M, ◌>>=◌, ◌>>◌}
use lc_clibs.Dybuf.Resize.{mark, reset}
use lc_clibs.Dybuf.Reads.{Reads, Holds, advance}
use lc_clibs.Dybuf.Writes.{WritesAs, RoomTo}
use lc_clibs.Dybuf.VarInt.{append_var_u64, next_var_u64, append_var_s64, next_var_s64}
use lc_clibs.Dybuf.VarFormat.{var_bytes}
use lc_clibs.Dybuf.VarCodec.{append_var_u64-Writes, next_var_u64-Reads}
use lc_clibs.Dybuf.SignedCodec.{folded, append_var_s64-Writes, next_var_s64-Reads}
use lc_clibs.Dybuf.Float.{append_float, next_float, append_double, next_double}
use lc_clibs.Dybuf.FloatCodec.{
  float_bytes, double_bytes, append_float-Writes, next_float-Reads, append_double-Writes,
  next_double-Reads,
}
use lc_clibs.Dybuf.Typdex.{append_typdex, next_typdex}
use lc_clibs.Dybuf.TypdexFormat.{typdex_bytes}
use lc_clibs.Dybuf.TypdexCodec.{append_typdex-Writes, next_typdex-Reads}
use lc_clibs.Dybuf.VarBlocks.{append_data_with_var_len, append_cstring_with_var_len}
use lc_clibs.Dybuf.VarBlockCodec.{
  data_bytes, found, cstring, read_data, read_cstring, append_data_with_var_len-Writes,
  read_data-Reads, append_cstring_with_var_len-Writes, read_cstring-Reads,
}

-- Mark the position, write, go back to the mark and read.
unfoldable pub there_and_back : {A B : Type 0} → M A → M B → M B
there_and_back put get = do mark; _ ← put; reset; get

-- The call returns the value without a fault, in a valid buffer whose position is behind the
-- bytes and whose limit is the larger of that and the old limit.
abbrev pub Returned : {A : Type 0} → List ℕ → A → M A → Malloc → Dybuf → Type 0
Returned bs a op m d =
    (d' : Dybuf) × (op m d ≡ ok a d')
    × IsValid d'
    × (d'.position ≡ d.position + length bs)
    × (d'.limit ≡ max d.limit (d.position + length bs))

marked-IsValid : {d : Dybuf} → IsValid d → IsValid (record d { mark = d.position })
marked-IsValid v = record {
  block_size = v.block_size;
  uint_range = v.uint_range;
  limit_le = v.limit_le;
  position_le = v.position_le;
  mark_le = omega arith;
}

pub there_and_back_lem :
    {A B : Type 0} {a : A} {b : B} (bs : List ℕ) (put : M A) (get : M B)
    → WritesAs bs a put
    → Reads bs b get
    → (m : Malloc) (d : Dybuf) → IsValid d
    → RoomTo m (d.position + length bs) d
    → Returned bs b (there_and_back put get) m d
unfolding there_and_back mark reset
there_and_back_lem bs put get w r m d v room =
    let (d1, run, done) =
      w m (record d { mark = d.position }) (marked-IsValid v)
        (record { uint_range = room.uint_range; reach = room.reach }) in
    let g = done.grown in
    let back : Dybuf = record d1 { position = d1.mark } in
    let held : Holds back bs = record {
      bytes = rw g.mark done.bytes;
      within = omega (arith, g.mark, g.limit);
      uint_range = omega (arith, g.valid.limit_le, g.valid.uint_range);
    } in
    (
      advance (length bs) back,
      rw (run, r m back held),
      record {
        block_size = g.valid.block_size;
        uint_range = g.valid.uint_range;
        limit_le = g.valid.limit_le;
        position_le = omega (arith, g.mark, g.limit);
        mark_le = omega arith;
      },
      omega (arith, g.mark),
      g.limit,
    )

-- Marked, appended, reset and read in a valid buffer with room, any `uint64` comes back from
-- `dyb_next_var_u64`; the buffer stays valid, its position moves by the length of the format, and
-- its limit is the larger of the old limit and that position.
pub next_var_u64-append_var_u64 :
    (v : ℕ)
    → v < 2 ^ 64
    → (m : Malloc) (d : Dybuf) → IsValid d
    → RoomTo m (d.position + length (var_bytes v)) d
    → Returned (var_bytes v) v (there_and_back (append_var_u64 v) next_var_u64) m d
next_var_u64-append_var_u64 v h =
    there_and_back_lem _ _ _ (append_var_u64-Writes v h) (next_var_u64-Reads v h)

-- Marked, appended, reset and read in a valid buffer with room, any `int64`, given by its
-- 64 bits, comes back from `dyb_next_var_s64`; the buffer stays valid, its position moves by the
-- length of the zigzag value's format, and its limit is at least that.
pub next_var_s64-append_var_s64 :
    (v : ℕ)
    → v < 2 ^ 64
    → (m : Malloc) (d : Dybuf) → IsValid d
    → RoomTo m (d.position + length (var_bytes (folded v))) d
    → Returned (var_bytes (folded v)) v (there_and_back (append_var_s64 v) next_var_s64) m d
next_var_s64-append_var_s64 v h =
    there_and_back_lem _ _ _ (append_var_s64-Writes v h) (next_var_s64-Reads v h)

-- Marked, appended, reset and read in a valid buffer with room, a `uint8` type and an index
-- below 2 ^ 20 come back from `dyb_next_typdex`; the buffer stays valid, its position moves by the
-- length of the format, and its limit is the larger of the old limit and that position.
pub next_typdex-append_typdex :
    (t i : ℕ)
    → t < 256
    → i < 2 ^ 20
    → (m : Malloc) (d : Dybuf) → IsValid d
    → RoomTo m (d.position + length (typdex_bytes t i)) d
    → Returned (typdex_bytes t i) (t, i) (there_and_back (append_typdex t i) next_typdex) m d
next_typdex-append_typdex t i ht hi =
    there_and_back_lem _ _ _ (append_typdex-Writes t i ht hi) (next_typdex-Reads t i ht hi)

-- Marked, appended, reset and read in a valid buffer with room, a `float`, given by its 32 bits,
-- comes back from `dyb_next_float` on a host of the same byte order, little-endian or not; the
-- buffer stays valid and its position moves by 4.
pub next_float-append_float :
    (host : Bool) (v : ℕ)
    → v < 2 ^ 32
    → (m : Malloc) (d : Dybuf) → IsValid d
    → RoomTo m (d.position + length (float_bytes host v)) d
    → Returned (float_bytes host v) v (there_and_back (append_float host v) (next_float host)) m d
next_float-append_float host v h =
    there_and_back_lem _ _ _ (append_float-Writes host v h) (next_float-Reads host v h)

-- Marked, appended, reset and read in a valid buffer with room, a `double`, given by its 64 bits,
-- comes back from `dyb_next_double` on a host of the same byte order, little-endian or not; the
-- buffer stays valid and its position moves by 8.
pub next_double-append_double :
    (host : Bool) (v : ℕ)
    → v < 2 ^ 64
    → (m : Malloc) (d : Dybuf) → IsValid d
    → RoomTo m (d.position + length (double_bytes host v)) d
    → Returned
        (double_bytes host v)
        v
        (there_and_back (append_double host v) (next_double host))
        m
        d
next_double-append_double host v h =
    there_and_back_lem _ _ _ (append_double-Writes host v h) (next_double-Reads host v h)

-- Marked, appended, reset and read in a valid buffer with room, a run of fewer than 2 ^ 32 bytes
-- appended behind a variable length stands behind the pointer that `dyb_next_data_with_var_len`
-- returns, with its length; for an empty run the pointer is null. The buffer stays valid and its
-- position moves by the format.
pub next_data-append_data :
    (bs : Mem)
    → length bs < 2 ^ 32
    → (m : Malloc) (d : Dybuf) → IsValid d
    → RoomTo m (d.position + length (data_bytes bs)) d
    → Returned
        (data_bytes bs)
        (found bs)
        (there_and_back (append_data_with_var_len bs (length bs)) read_data)
        m
        d
next_data-append_data bs h =
    there_and_back_lem _ _ _ (append_data_with_var_len-Writes bs h) (read_data-Reads bs)

-- Marked, appended, reset and read in a valid buffer with room, a C string of characters other than
-- 0, which takes fewer than 2 ^ 32 bytes with its terminator, stands with its terminator behind
-- the pointer that `dyb_next_cstring_with_var_len` returns. The buffer stays valid and its position
-- moves by the format.
pub next_cstring-append_cstring :
    (chars : List ℕ)
    → All (λ c. 0 < c) chars
    → length chars + 1 < 2 ^ 32
    → (m : Malloc) (d : Dybuf) → IsValid d
    → RoomTo m (d.position + length (data_bytes (cstring chars))) d
    → Returned
        (data_bytes (cstring chars))
        (some (cstring chars))
        (there_and_back (append_cstring_with_var_len (cstring chars)) read_cstring)
        m
        d
next_cstring-append_cstring chars h k =
    there_and_back_lem _ _ _ (append_cstring_with_var_len-Writes chars h k)
      (read_cstring-Reads chars)

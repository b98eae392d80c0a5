-- ===== src/Dybuf/Widths.antt =====
-- dybuf/dybuf.h: the fixed width integers, all widths at once.
use lc_clibs.Base.{ℕ, ◌+◌, ◌*◌, ◌%◌, ◌^◌, ◌<◌, ◌≡◌, arith, length}
use mathlib.Core.Path.{subst}
use lc_clibs.Mem.{Malloc}
use lc_clibs.Dybuf.State.{Dybuf, IsValid, ok, M}
use lc_clibs.Dybuf.Reads.{Reads, Holds}
use lc_clibs.Dybuf.Writes.{Writes, RoomTo}
use lc_clibs.Dybuf.Append.{
  append_u8, append_u16, append_u24, append_u32, append_u40, append_u48, append_u56, append_u64,
}
use lc_clibs.Dybuf.Next.{
  next_u8, next_u16, next_u24, next_u32, next_u40, next_u48, next_u56, next_u64,
}
use lc_clibs.Dybuf.Peek.{
  peek_u8, peek_u16, peek_u24, peek_u32, peek_u40, peek_u48, peek_u56, peek_u64,
}
use lc_clibs.Dybuf.BigEndian.{
  be, append_u8-Writes, next_u8-Reads, append_u16-Writes, next_u16-Reads, append_u24-Writes,
  next_u24-Reads, append_u32-Writes, next_u32-Reads, append_u40-Writes, next_u40-Reads,
  append_u48-Writes, next_u48-Reads, append_u56-Writes, next_u56-Reads, append_u64-Writes,
  next_u64-Reads,
}
use lc_clibs.Dybuf.Peeks.{
  peek_u8-Peeks, peek_u16-Peeks, peek_u24-Peeks, peek_u32-Peeks, peek_u40-Peeks, peek_u48-Peeks,
  peek_u56-Peeks, peek_u64-Peeks,
}
use lc_clibs.Dybuf.RoundTrip.{Returned, there_and_back, there_and_back_lem}

pub data Width : Type 0 where
  w8 w16 w24 w32 w40 w48 w56 w64 : Width

-- The number of bytes.
abbrev pub size : Width → ℕ
size w8 = 1
size w16 = 2
size w24 = 3
size w32 = 4
size w40 = 5
size w48 = 6
size w56 = 7
size w64 = 8

abbrev pub append_width : Width → ℕ → M (Unit {0})
append_width w8 = append_u8
append_width w16 = append_u16
append_width w24 = append_u24
append_width w32 = append_u32
append_width w40 = append_u40
append_width w48 = append_u48
append_width w56 = append_u56
append_width w64 = append_u64

abbrev pub next_width : Width → M ℕ
next_width w8 = next_u8
next_width w16 = next_u16
next_width w24 = next_u24
next_width w32 = next_u32
next_width w40 = next_u40
next_width w48 = next_u48
next_width w56 = next_u56
next_width w64 = next_u64

abbrev pub peek_width : Width → M ℕ
peek_width w8 = peek_u8
peek_width w16 = peek_u16
peek_width w24 = peek_u24
peek_width w32 = peek_u32
peek_width w40 = peek_u40
peek_width w48 = peek_u48
peek_width w56 = peek_u56
peek_width w64 = peek_u64

append_width-Writes : (w : Width) (v : ℕ) → Writes (be (size w) v) (append_width w v)
append_width-Writes w8 v = append_u8-Writes v
append_width-Writes w16 v = append_u16-Writes v
append_width-Writes w24 v = append_u24-Writes v
append_width-Writes w32 v = append_u32-Writes v
append_width-Writes w40 v = append_u40-Writes v
append_width-Writes w48 v = append_u48-Writes v
append_width-Writes w56 v = append_u56-Writes v
append_width-Writes w64 v = append_u64-Writes v

next_width-Reads :
    (w : Width) (v : ℕ) → v < 2 ^ (8 * size w) → Reads (be (size w) v) v (next_width w)
next_width-Reads w8 v h =
    let e : v % 2 ^ 8 ≡ v = omega arith in subst (λ x. Reads (be 1 v) x next_u8) e (next_u8-Reads v)
next_width-Reads w16 v h =
    let e : v % 2 ^ 16 ≡ v = omega arith in
    subst (λ x. Reads (be 2 v) x next_u16) e (next_u16-Reads v)
next_width-Reads w24 v h =
    let e : v % 2 ^ 24 ≡ v = omega arith in
    subst (λ x. Reads (be 3 v) x next_u24) e (next_u24-Reads v)
next_width-Reads w32 v h =
    let e : v % 2 ^ 32 ≡ v = omega arith in
    subst (λ x. Reads (be 4 v) x next_u32) e (next_u32-Reads v)
next_width-Reads w40 v h =
    let e : v % 2 ^ 40 ≡ v = omega arith in
    subst (λ x. Reads (be 5 v) x next_u40) e (next_u40-Reads v)
next_width-Reads w48 v h =
    let e : v % 2 ^ 48 ≡ v = omega arith in
    subst (λ x. Reads (be 6 v) x next_u48) e (next_u48-Reads v)
next_width-Reads w56 v h =
    let e : v % 2 ^ 56 ≡ v = omega arith in
    subst (λ x. Reads (be 7 v) x next_u56) e (next_u56-Reads v)
next_width-Reads w64 v h =
    let e : v % 2 ^ 64 ≡ v = omega arith in
    subst (λ x. Reads (be 8 v) x next_u64) e (next_u64-Reads v)

-- In a buffer whose next bytes, all before its limit, are those of a number in big-endian order,
-- the peek function of that width returns the number and changes nothing.
pub peek_width_lem :
    (w : Width) (v : ℕ) (m : Malloc) (d : Dybuf)
    → v < 2 ^ (8 * size w)
    → Holds d (be (size w) v)
    → peek_width w m d ≡ ok v d
peek_width_lem w8 v m d h = peek_u8-Peeks v h m d
peek_width_lem w16 v m d h = peek_u16-Peeks v h m d
peek_width_lem w24 v m d h = peek_u24-Peeks v h m d
peek_width_lem w32 v m d h = peek_u32-Peeks v h m d
peek_width_lem w40 v m d h = peek_u40-Peeks v h m d
peek_width_lem w48 v m d h = peek_u48-Peeks v h m d
peek_width_lem w56 v m d h = peek_u56-Peeks v h m d
peek_width_lem w64 v m d h = peek_u64-Peeks v h m d

-- For each width from 8 to 64 bits: marked, appended, reset and read in a valid buffer with room,
-- a number below 2 ^ width comes back; the buffer stays valid, its position moves by the width,
-- and its limit is the larger of the old limit and that position.
pub next_width-append_width :
    (w : Width) (v : ℕ) (m : Malloc) (d : Dybuf)
    → v < 2 ^ (8 * size w)
    → IsValid d
    → RoomTo m (d.position + length (be (size w) v)) d
    → Returned (be (size w) v) v (there_and_back (append_width w v) (next_width w)) m d
next_width-append_width w v m d h =
    there_and_back_lem _ _ _ (append_width-Writes w v) (next_width-Reads w v h) m d

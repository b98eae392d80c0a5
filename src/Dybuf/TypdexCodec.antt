-- ===== src/Dybuf/TypdexCodec.antt =====
-- dybuf/dybuf.h: writer, reader and peeker of a typdex against the format.
use lc_clibs.Base.{
  ℕ, ◌+◌, ◌*◌, ◌/◌, ◌%◌, ◌^◌, ◌≤◌, ◌<◌, ◌≡◌, true, false, [], arith, bit_and, shr, u8,
}
use mathlib.Core.Path.{ap, ap₂}
use lc_clibs.Mem.{Malloc}
use lc_clibs.Base.Bits.{bit_and_mask, byte_bit_4, byte_bit_5, byte_bit_6, byte_bit_7}
use lc_clibs.Dybuf.State.{Dybuf, ok, pure, ◌>>=◌}
use lc_clibs.Dybuf.Next.{next_u8, next_u16, next_u24, next_u32}
use lc_clibs.Dybuf.Peek.{peek_u8, peek_u16, peek_u24, peek_u32}
use lc_clibs.Dybuf.Peeks.{
  Peeks, peek_first, Reads-peek, Peeks-peek, peek_u8-Peeks, peek_u16-Peeks, peek_u24-Peeks,
  peek_u32-Peeks,
}
use lc_clibs.Dybuf.Typdex.{append_typdex, next_typdex, next_typdex_at, peek_typdex, peek_typdex_at}
use lc_clibs.Dybuf.TypdexFormat.{
  typdex_bytes, typdex_size, short, medium, long, longest, short-bytes, medium-bytes, long-bytes,
  longest-bytes, short-append, medium-append, long-append, longest-append,
}
use lc_clibs.Dybuf.Reads.{Reads, Reads-pure, Reads-bind}
use lc_clibs.Dybuf.Writes.{WritesAs, Writes-pure}
use lc_clibs.Dybuf.BigEndian.{
  be, append_u8-Writes, append_u16-Writes, append_u24-Writes, append_u32-Writes, next_u8-Reads,
  next_u16-Reads, next_u24-Reads, next_u32-Reads,
}

-- `dyb_append_typdex` writes the format of every `uint8` type and index below 2 ^ 20.
pub append_typdex-Writes :
    (t i : ℕ) → t < 256 → i < 2 ^ 20 → WritesAs (typdex_bytes t i) true (append_typdex t i)
append_typdex-Writes t i ht hi = elim (typdex_size t i) [
  | short h k ↦
      rw (short-bytes t i h k, short-append t i h k) (Writes-pure _ _ true (append_u8-Writes _))
  | medium o h k ↦
      rw (medium-bytes t i o h k, medium-append t i o h k)
        (Writes-pure _ _ true (append_u16-Writes _))
  | long o h ↦
      rw (long-bytes t i o h ht, long-append t i o h ht)
        (Writes-pure _ _ true (append_u24-Writes _))
  | longest h ↦
      rw (longest-bytes t i h ht hi, longest-append t i h ht hi)
        (Writes-pure _ _ true (append_u32-Writes _))
]

-- With any larger index it answers null and leaves the buffer alone.
pub append_typdex_refused :
    (m : Malloc) (d : Dybuf) (t i : ℕ) → 2 ^ 20 ≤ i → append_typdex t i m d ≡ ok false d
unfolding append_typdex
append_typdex_refused m d t i h = ground arith

next_first_1 :
    (b : ℕ)
    → 0x0 ≤ b
    → b < 0x80
    → next_typdex_at b ≡ (do v ← next_u8; pure (bit_and (shr v 3) 0x0f, bit_and v 0x7))
unfolding next_typdex_at
next_first_1 b l h = ground (arith, byte_bit_7 b)

next_first_2 :
    (b : ℕ)
    → 0x80 ≤ b
    → b < 0xc0
    → next_typdex_at b ≡ (do v ← next_u16; pure (bit_and (u8 (shr v 8)) 0x3f, bit_and v 0xff))
unfolding next_typdex_at
next_first_2 b l h = ground (arith, byte_bit_7 b, byte_bit_6 b)

next_first_3 :
    (b : ℕ)
    → 0xc0 ≤ b
    → b < 0xe0
    → next_typdex_at b ≡ (do v ← next_u24; pure (bit_and (u8 (shr v 13)) 0xff, bit_and v 0x1fff))
unfolding next_typdex_at
next_first_3 b l h = ground (arith, byte_bit_7 b, byte_bit_6 b, byte_bit_5 b)

next_first_4 :
    (b : ℕ)
    → 0xe0 ≤ b
    → b < 0xf0
    → next_typdex_at b ≡ (do v ← next_u32; pure (bit_and (u8 (shr v 20)) 0xff, bit_and v 0xfffff))
unfolding next_typdex_at
next_first_4 b l h = ground (arith, byte_bit_7 b, byte_bit_6 b, byte_bit_5 b, byte_bit_4 b)

peek_first_1 :
    (b : ℕ)
    → 0x0 ≤ b
    → b < 0x80
    → peek_typdex_at b ≡ (do v ← peek_u8; pure (bit_and (shr v 3) 0x0f, bit_and v 0x7))
unfolding peek_typdex_at
peek_first_1 b l h = ground (arith, byte_bit_7 b)

peek_first_2 :
    (b : ℕ)
    → 0x80 ≤ b
    → b < 0xc0
    → peek_typdex_at b ≡ (do v ← peek_u16; pure (bit_and (u8 (shr v 8)) 0x3f, bit_and v 0xff))
unfolding peek_typdex_at
peek_first_2 b l h = ground (arith, byte_bit_7 b, byte_bit_6 b)

peek_first_3 :
    (b : ℕ)
    → 0xc0 ≤ b
    → b < 0xe0
    → peek_typdex_at b ≡ (do v ← peek_u24; pure (bit_and (u8 (shr v 13)) 0xff, bit_and v 0x1fff))
unfolding peek_typdex_at
peek_first_3 b l h = ground (arith, byte_bit_7 b, byte_bit_6 b, byte_bit_5 b)

peek_first_4 :
    (b : ℕ)
    → 0xe0 ≤ b
    → b < 0xf0
    → peek_typdex_at b ≡ (do v ← peek_u32; pure (bit_and (u8 (shr v 20)) 0xff, bit_and v 0xfffff))
unfolding peek_typdex_at
peek_first_4 b l h = ground (arith, byte_bit_7 b, byte_bit_6 b, byte_bit_5 b, byte_bit_4 b)

split_1 :
    (t i : ℕ)
    → t ≤ 0x0f
    → i ≤ 0x07
    → (bit_and (shr ((t * 8 + i) % 2 ^ 8) 3) 0x0f ≡ t) × (bit_and ((t * 8 + i) % 2 ^ 8) 0x7 ≡ i)
split_1 t i h k =
    omega
      (arith, bit_and_mask 4 (shr ((t * 8 + i) % 2 ^ 8) 3), bit_and_mask 3 ((t * 8 + i) % 2 ^ 8))

next_1 : (t i : ℕ) → t ≤ 0x0f → i ≤ 0x07 → Reads (be 1 (t * 8 + i)) (t, i) next_typdex
unfolding next_typdex
next_1 t i h k =
    let (et, ei) = split_1 t i h k in
    Reads-peek _ ((t * 8 + i) / 0x1 % 256) peek_u8 next_typdex_at
      (peek_first ((t * 8 + i) / 0x1 % 256) (be 0 (t * 8 + i)))
      (rw (next_first_1 ((t * 8 + i) / 0x1 % 256) (omega arith) (omega arith)) (
        Reads-bind (be 1 (t * 8 + i)) [] next_u8 _ (next_u8-Reads (t * 8 + i))
          (Reads-pure _ (t, i) (ap₂ (λ a b. (a, b)) et ei))))

peek_1 : (t i : ℕ) → t ≤ 0x0f → i ≤ 0x07 → Peeks (be 1 (t * 8 + i)) (t, i) peek_typdex
unfolding peek_typdex
peek_1 t i h k =
    let e : (t * 8 + i) % 2 ^ 8 ≡ (t * 8 + i) = omega arith in
    let (et, ei) = split_1 t i h k in
    Peeks-peek _ ((t * 8 + i) / 0x1 % 256) peek_u8 peek_typdex_at
      (peek_first ((t * 8 + i) / 0x1 % 256) (be 0 (t * 8 + i)))
      (rw (peek_first_1 ((t * 8 + i) / 0x1 % 256) (omega arith) (omega arith)) (
        Peeks-peek (be 1 (t * 8 + i)) (t * 8 + i) peek_u8 _
          (peek_u8-Peeks (t * 8 + i) (omega arith))
          (λ m d _. ap (λ p. ok p d) (ap₂ (λ a b. (a, b)) (rw e at et) (rw e at ei)))))

split_2 :
    (t i : ℕ)
    → t ≤ 0x3f
    → i ≤ 0xff
    → (bit_and (u8 (shr ((0x8000 + t * 256 + i) % 2 ^ 16) 8)) 0x3f ≡ t)
      × (bit_and ((0x8000 + t * 256 + i) % 2 ^ 16) 0xff ≡ i)
split_2 t i h k = omega (
  arith,
  bit_and_mask 6 (u8 (shr ((0x8000 + t * 256 + i) % 2 ^ 16) 8)),
  bit_and_mask 8 ((0x8000 + t * 256 + i) % 2 ^ 16),
)

next_2 : (t i : ℕ) → t ≤ 0x3f → i ≤ 0xff → Reads (be 2 (0x8000 + t * 256 + i)) (t, i) next_typdex
unfolding next_typdex
next_2 t i h k =
    let (et, ei) = split_2 t i h k in
    Reads-peek _ ((0x8000 + t * 256 + i) / 0x100 % 256) peek_u8 next_typdex_at
      (peek_first ((0x8000 + t * 256 + i) / 0x100 % 256) (be 1 (0x8000 + t * 256 + i)))
      (rw (next_first_2 ((0x8000 + t * 256 + i) / 0x100 % 256) (omega arith) (omega arith)) (
        Reads-bind (be 2 (0x8000 + t * 256 + i)) [] next_u16 _
          (next_u16-Reads (0x8000 + t * 256 + i))
          (Reads-pure _ (t, i) (ap₂ (λ a b. (a, b)) et ei))))

peek_2 : (t i : ℕ) → t ≤ 0x3f → i ≤ 0xff → Peeks (be 2 (0x8000 + t * 256 + i)) (t, i) peek_typdex
unfolding peek_typdex
peek_2 t i h k =
    let e : (0x8000 + t * 256 + i) % 2 ^ 16 ≡ (0x8000 + t * 256 + i) = omega arith in
    let (et, ei) = split_2 t i h k in
    Peeks-peek _ ((0x8000 + t * 256 + i) / 0x100 % 256) peek_u8 peek_typdex_at
      (peek_first ((0x8000 + t * 256 + i) / 0x100 % 256) (be 1 (0x8000 + t * 256 + i)))
      (rw (peek_first_2 ((0x8000 + t * 256 + i) / 0x100 % 256) (omega arith) (omega arith)) (
        Peeks-peek (be 2 (0x8000 + t * 256 + i)) (0x8000 + t * 256 + i) peek_u16 _
          (peek_u16-Peeks (0x8000 + t * 256 + i) (omega arith))
          (λ m d _. ap (λ p. ok p d) (ap₂ (λ a b. (a, b)) (rw e at et) (rw e at ei)))))

split_3 :
    (t i : ℕ)
    → t < 256
    → i ≤ 0x1fff
    → (bit_and (u8 (shr ((0xc00000 + t * 8192 + i) % 2 ^ 24) 13)) 0xff ≡ t)
      × (bit_and ((0xc00000 + t * 8192 + i) % 2 ^ 24) 0x1fff ≡ i)
split_3 t i h k = omega (
  arith,
  bit_and_mask 8 (u8 (shr ((0xc00000 + t * 8192 + i) % 2 ^ 24) 13)),
  bit_and_mask 13 ((0xc00000 + t * 8192 + i) % 2 ^ 24),
)

next_3 :
    (t i : ℕ) → t < 256 → i ≤ 0x1fff → Reads (be 3 (0xc00000 + t * 8192 + i)) (t, i) next_typdex
unfolding next_typdex
next_3 t i h k =
    let (et, ei) = split_3 t i h k in
    Reads-peek _ ((0xc00000 + t * 8192 + i) / 0x10000 % 256) peek_u8 next_typdex_at
      (peek_first ((0xc00000 + t * 8192 + i) / 0x10000 % 256) (be 2 (0xc00000 + t * 8192 + i)))
      (rw (next_first_3 ((0xc00000 + t * 8192 + i) / 0x10000 % 256) (omega arith) (omega arith)) (
        Reads-bind (be 3 (0xc00000 + t * 8192 + i)) [] next_u24 _
          (next_u24-Reads (0xc00000 + t * 8192 + i))
          (Reads-pure _ (t, i) (ap₂ (λ a b. (a, b)) et ei))))

peek_3 :
    (t i : ℕ) → t < 256 → i ≤ 0x1fff → Peeks (be 3 (0xc00000 + t * 8192 + i)) (t, i) peek_typdex
unfolding peek_typdex
peek_3 t i h k =
    let e : (0xc00000 + t * 8192 + i) % 2 ^ 24 ≡ (0xc00000 + t * 8192 + i) = omega arith in
    let (et, ei) = split_3 t i h k in
    Peeks-peek _ ((0xc00000 + t * 8192 + i) / 0x10000 % 256) peek_u8 peek_typdex_at
      (peek_first ((0xc00000 + t * 8192 + i) / 0x10000 % 256) (be 2 (0xc00000 + t * 8192 + i)))
      (rw (peek_first_3 ((0xc00000 + t * 8192 + i) / 0x10000 % 256) (omega arith) (omega arith)) (
        Peeks-peek (be 3 (0xc00000 + t * 8192 + i)) (0xc00000 + t * 8192 + i) peek_u24 _
          (peek_u24-Peeks (0xc00000 + t * 8192 + i) (omega arith))
          (λ m d _. ap (λ p. ok p d) (ap₂ (λ a b. (a, b)) (rw e at et) (rw e at ei)))))

split_4 :
    (t i : ℕ)
    → t < 256
    → i < 2 ^ 20
    → (bit_and (u8 (shr ((0xe0000000 + t * 1048576 + i) % 2 ^ 32) 20)) 0xff ≡ t)
      × (bit_and ((0xe0000000 + t * 1048576 + i) % 2 ^ 32) 0xfffff ≡ i)
split_4 t i h k = omega (
  arith,
  bit_and_mask 8 (u8 (shr ((0xe0000000 + t * 1048576 + i) % 2 ^ 32) 20)),
  bit_and_mask 20 ((0xe0000000 + t * 1048576 + i) % 2 ^ 32),
)

next_4 :
    (t i : ℕ)
    → t < 256
    → i < 2 ^ 20
    → Reads (be 4 (0xe0000000 + t * 1048576 + i)) (t, i) next_typdex
unfolding next_typdex
next_4 t i h k =
    let (et, ei) = split_4 t i h k in
    Reads-peek _ ((0xe0000000 + t * 1048576 + i) / 0x1000000 % 256) peek_u8 next_typdex_at
      (peek_first ((0xe0000000 + t * 1048576 + i) / 0x1000000 % 256)
        (be 3 (0xe0000000 + t * 1048576 + i)))
      (rw
        (next_first_4 ((0xe0000000 + t * 1048576 + i) / 0x1000000 % 256) (omega arith)
          (omega arith))
        (Reads-bind (be 4 (0xe0000000 + t * 1048576 + i)) [] next_u32 _
          (next_u32-Reads (0xe0000000 + t * 1048576 + i))
          (Reads-pure _ (t, i) (ap₂ (λ a b. (a, b)) et ei))))

peek_4 :
    (t i : ℕ)
    → t < 256
    → i < 2 ^ 20
    → Peeks (be 4 (0xe0000000 + t * 1048576 + i)) (t, i) peek_typdex
unfolding peek_typdex
peek_4 t i h k =
    let e : (0xe0000000 + t * 1048576 + i) % 2 ^ 32 ≡ (0xe0000000 + t * 1048576 + i) =
      omega arith in
    let (et, ei) = split_4 t i h k in
    Peeks-peek _ ((0xe0000000 + t * 1048576 + i) / 0x1000000 % 256) peek_u8 peek_typdex_at
      (peek_first ((0xe0000000 + t * 1048576 + i) / 0x1000000 % 256)
        (be 3 (0xe0000000 + t * 1048576 + i)))
      (rw
        (peek_first_4 ((0xe0000000 + t * 1048576 + i) / 0x1000000 % 256) (omega arith)
          (omega arith))
        (Peeks-peek (be 4 (0xe0000000 + t * 1048576 + i)) (0xe0000000 + t * 1048576 + i) peek_u32 _
          (peek_u32-Peeks (0xe0000000 + t * 1048576 + i) (omega arith))
          (λ m d _. ap (λ p. ok p d) (ap₂ (λ a b. (a, b)) (rw e at et) (rw e at ei)))))

-- `dyb_next_typdex` reads both parts back.
pub next_typdex-Reads :
    (t i : ℕ) → t < 256 → i < 2 ^ 20 → Reads (typdex_bytes t i) (t, i) next_typdex
next_typdex-Reads t i ht hi = elim (typdex_size t i) [
  | short h k ↦ rw (short-bytes t i h k) (next_1 t i h k)
  | medium o h k ↦ rw (medium-bytes t i o h k) (next_2 t i h k)
  | long o h ↦ rw (long-bytes t i o h ht) (next_3 t i ht h)
  | longest h ↦ rw (longest-bytes t i h ht hi) (next_4 t i ht hi)
]

-- `dyb_peek_typdex` sees both parts and leaves the buffer alone.
pub peek_typdex-Peeks :
    (t i : ℕ) → t < 256 → i < 2 ^ 20 → Peeks (typdex_bytes t i) (t, i) peek_typdex
peek_typdex-Peeks t i ht hi = elim (typdex_size t i) [
  | short h k ↦ rw (short-bytes t i h k) (peek_1 t i h k)
  | medium o h k ↦ rw (medium-bytes t i o h k) (peek_2 t i h k)
  | long o h ↦ rw (long-bytes t i o h ht) (peek_3 t i ht h)
  | longest h ↦ rw (longest-bytes t i h ht hi) (peek_4 t i ht hi)
]

-- ===== src/Dybuf/VarCodec.antt =====
-- dybuf/dybuf.h: `dyb_append_var_u64` and `dyb_next_var_u64` against the format.
use lc_clibs.Base.{
  ℕ, ◌+◌, ◌-◌, ◌/◌, ◌%◌, ◌^◌, ◌≤◌, ◌<◌, ◌≡◌, [], ◌∷◌, arith, bit_and, bit_or, shl, add64,
}
use lc_clibs.Base.Bits.{
  bit_and_mask, bit_or_add, byte_bit_0, byte_bit_1, byte_bit_2, byte_bit_3, byte_bit_4, byte_bit_5,
  byte_bit_6, byte_bit_7,
}
use lc_clibs.Dybuf.State.{pure, ◌>>=◌}
use lc_clibs.Dybuf.Append.{append_u8}
use lc_clibs.Dybuf.Next.{
  next_u8, next_u16, next_u24, next_u32, next_u40, next_u48, next_u56, next_u64,
}
use lc_clibs.Dybuf.VarInt.{append_var_u64, next_var_rest, next_var_u64}
use lc_clibs.Dybuf.VarFormat.{
  bytes_1, append_1, bytes_2, append_2, bytes_3, append_3, bytes_4, append_4, bytes_5, append_5,
  bytes_6, append_6, bytes_7, append_7, bytes_8, append_8, bytes_9, append_9,
}
use lc_clibs.Dybuf.VarFormat.{
  var_bytes, var_size, size_1, size_2, size_3, size_4, size_5, size_6, size_7, size_8, size_9,
}
use lc_clibs.Dybuf.Reads.{Reads, Reads-pure, Reads-byte, Reads-bind}
use lc_clibs.Dybuf.Writes.{Writes, Writes-then}
use lc_clibs.Dybuf.BigEndian.{
  be, append_u8-Writes, append_u16-Writes, append_u24-Writes, append_u32-Writes, append_u40-Writes,
  append_u48-Writes, append_u56-Writes, append_u64-Writes, next_u8-Reads, next_u16-Reads,
  next_u24-Reads, next_u32-Reads, next_u40-Reads, next_u48-Reads, next_u56-Reads, next_u64-Reads,
}

-- The reader by its first byte.
first_1 : (b : ℕ) → b < 0x80 → next_var_rest b ≡ pure (bit_and b 0x7f)
unfolding next_var_rest
first_1 b h = ground (arith, byte_bit_7 b)

first_2 :
    (b : ℕ)
    → 0x80 ≤ b
    → b < 0xc0
    → next_var_rest b
      ≡ (do v ← next_u8; pure (add64 (bit_or (shl (bit_and b 0x3f) 8) (bit_and v 0xff)) 0x80))
unfolding next_var_rest
first_2 b l h = ground (arith, byte_bit_7 b, byte_bit_6 b)

first_3 :
    (b : ℕ)
    → 0xc0 ≤ b
    → b < 0xe0
    → next_var_rest b
      ≡ (do v ← next_u16; pure (add64 (bit_or (shl (bit_and b 0x1f) 16) (bit_and v 0xffff)) 0x4080))
unfolding next_var_rest
first_3 b l h = ground (arith, byte_bit_7 b, byte_bit_6 b, byte_bit_5 b)

first_4 :
    (b : ℕ)
    → 0xe0 ≤ b
    → b < 0xf0
    → next_var_rest b ≡ (do
      v ← next_u24
      pure (add64 (bit_or (shl (bit_and b 0xf) 24) (bit_and v 0xffffff)) 0x204080))
unfolding next_var_rest
first_4 b l h = ground (arith, byte_bit_7 b, byte_bit_6 b, byte_bit_5 b, byte_bit_4 b)

first_5 :
    (b : ℕ)
    → 0xf0 ≤ b
    → b < 0xf8
    → next_var_rest b ≡ (do
      v ← next_u32
      pure (add64 (bit_or (shl (bit_and b 0x7) 32) (bit_and v 0xffffffff)) 0x10204080))
unfolding next_var_rest
first_5 b l h = ground (arith, byte_bit_7 b, byte_bit_6 b, byte_bit_5 b, byte_bit_4 b, byte_bit_3 b)

first_6 :
    (b : ℕ)
    → 0xf8 ≤ b
    → b < 0xfc
    → next_var_rest b ≡ (do
      v ← next_u40
      pure (add64 (bit_or (shl (bit_and b 0x3) 40) (bit_and v 0xffffffffff)) 0x810204080))
unfolding next_var_rest
first_6 b l h =
    ground
      (arith, byte_bit_7 b, byte_bit_6 b, byte_bit_5 b, byte_bit_4 b, byte_bit_3 b, byte_bit_2 b)

first_7 :
    (b : ℕ)
    → 0xfc ≤ b
    → b < 0xfe
    → next_var_rest b ≡ (do
      v ← next_u48
      pure (add64 (bit_or (shl (bit_and b 0x1) 48) (bit_and v 0xffffffffffff)) 0x40810204080))
unfolding next_var_rest
first_7 b l h = ground (
  arith,
  byte_bit_7 b,
  byte_bit_6 b,
  byte_bit_5 b,
  byte_bit_4 b,
  byte_bit_3 b,
  byte_bit_2 b,
  byte_bit_1 b,
)

first_8 :
    (b : ℕ)
    → 0xfe ≤ b
    → b < 0xff
    → next_var_rest b ≡ (do v ← next_u56; pure (add64 (bit_and v 0xffffffffffffff) 0x2040810204080))
unfolding next_var_rest
first_8 b l h = ground (
  arith,
  byte_bit_7 b,
  byte_bit_6 b,
  byte_bit_5 b,
  byte_bit_4 b,
  byte_bit_3 b,
  byte_bit_2 b,
  byte_bit_1 b,
  byte_bit_0 b,
)

first_9 :
    (b : ℕ)
    → 0xff ≤ b
    → b < 0x100
    → next_var_rest b ≡ (do v ← next_u64; pure (add64 v 0x102040810204080))
unfolding next_var_rest
first_9 b l h = ground (
  arith,
  byte_bit_7 b,
  byte_bit_6 b,
  byte_bit_5 b,
  byte_bit_4 b,
  byte_bit_3 b,
  byte_bit_2 b,
  byte_bit_1 b,
  byte_bit_0 b,
)

read_1 : (v : ℕ) → v ≤ 0x7f → Reads (be 1 v) v next_var_u64
unfolding next_var_u64 next_u8
read_1 v h = Reads-byte _ [] next_var_rest (
    rw (first_1 (v / 1 % 256) (omega arith))
      (Reads-pure _ v (omega (arith, bit_and_mask 7 (v / 1 % 256)))))

read_2 : (v : ℕ) → 0x7f < v → v ≤ 0x407f → Reads (be 2 (0x8000 + (v - 0x80))) v next_var_u64
unfolding next_var_u64 next_u8
read_2 v l h =
    Reads-byte ((0x8000 + (v - 0x80)) / 0x100 % 256) (be 1 (0x8000 + (v - 0x80))) next_var_rest (
      rw (first_2 ((0x8000 + (v - 0x80)) / 0x100 % 256) (omega arith) (omega arith)) (
        Reads-bind (be 1 (0x8000 + (v - 0x80))) [] next_u8 _ (next_u8-Reads (0x8000 + (v - 0x80))) (
          Reads-pure _ v (
            omega (
              arith,
              bit_and_mask 6 ((0x8000 + (v - 0x80)) / 0x100 % 256),
              bit_and_mask 8 ((0x8000 + (v - 0x80)) % 2 ^ 8),
              bit_or_add 8 (shl (bit_and ((0x8000 + (v - 0x80)) / 0x100 % 256) 0x3f) 8)
                  (bit_and ((0x8000 + (v - 0x80)) % 2 ^ 8) 0xff),
            )))))

read_3 : (v : ℕ) → 0x407f < v → v ≤ 0x20407f → Reads (be 3 (0xc00000 + (v - 0x4080))) v next_var_u64
unfolding next_var_u64 next_u8
read_3 v l h =
    Reads-byte ((0xc00000 + (v - 0x4080)) / 0x10000 % 256) (be 2 (0xc00000 + (v - 0x4080)))
      next_var_rest
      (rw (first_3 ((0xc00000 + (v - 0x4080)) / 0x10000 % 256) (omega arith) (omega arith)) (
        Reads-bind (be 2 (0xc00000 + (v - 0x4080))) [] next_u16 _
          (next_u16-Reads (0xc00000 + (v - 0x4080)))
          (Reads-pure _ v (
            omega (
              arith,
              bit_and_mask 5 ((0xc00000 + (v - 0x4080)) / 0x10000 % 256),
              bit_and_mask 16 ((0xc00000 + (v - 0x4080)) % 2 ^ 16),
              bit_or_add 16 (shl (bit_and ((0xc00000 + (v - 0x4080)) / 0x10000 % 256) 0x1f) 16)
                  (bit_and ((0xc00000 + (v - 0x4080)) % 2 ^ 16) 0xffff),
            )))))

read_4 :
    (v : ℕ)
    → 0x20407f < v
    → v ≤ 0x1020407f
    → Reads (be 4 (0xe0000000 + (v - 0x204080))) v next_var_u64
unfolding next_var_u64 next_u8
read_4 v l h =
    Reads-byte ((0xe0000000 + (v - 0x204080)) / 0x1000000 % 256)
      (be 3 (0xe0000000 + (v - 0x204080))) next_var_rest
      (rw (first_4 ((0xe0000000 + (v - 0x204080)) / 0x1000000 % 256) (omega arith) (omega arith)) (
        Reads-bind (be 3 (0xe0000000 + (v - 0x204080))) [] next_u24 _
          (next_u24-Reads (0xe0000000 + (v - 0x204080)))
          (Reads-pure _ v (
            omega (
              arith,
              bit_and_mask 4 ((0xe0000000 + (v - 0x204080)) / 0x1000000 % 256),
              bit_and_mask 24 ((0xe0000000 + (v - 0x204080)) % 2 ^ 24),
              bit_or_add 24 (shl (bit_and ((0xe0000000 + (v - 0x204080)) / 0x1000000 % 256) 0xf) 24)
                  (bit_and ((0xe0000000 + (v - 0x204080)) % 2 ^ 24) 0xffffff),
            )))))

read_5 :
    (v : ℕ)
    → 0x1020407f < v
    → v ≤ 0x81020407f
    → Reads (be 5 (0xf000000000 + (v - 0x10204080))) v next_var_u64
unfolding next_var_u64 next_u8
read_5 v l h =
    Reads-byte ((0xf000000000 + (v - 0x10204080)) / 0x100000000 % 256)
      (be 4 (0xf000000000 + (v - 0x10204080))) next_var_rest
      (rw
        (first_5 ((0xf000000000 + (v - 0x10204080)) / 0x100000000 % 256) (omega arith)
          (omega arith))
        (Reads-bind (be 4 (0xf000000000 + (v - 0x10204080))) [] next_u32 _
          (next_u32-Reads (0xf000000000 + (v - 0x10204080)))
          (Reads-pure _ v (
            omega (
              arith,
              bit_and_mask 3 ((0xf000000000 + (v - 0x10204080)) / 0x100000000 % 256),
              bit_and_mask 32 ((0xf000000000 + (v - 0x10204080)) % 2 ^ 32),
              bit_or_add 32
                  (shl (bit_and ((0xf000000000 + (v - 0x10204080)) / 0x100000000 % 256) 0x7) 32)
                  (bit_and ((0xf000000000 + (v - 0x10204080)) % 2 ^ 32) 0xffffffff),
            )))))

read_6 :
    (v : ℕ)
    → 0x81020407f < v
    → v ≤ 0x4081020407f
    → Reads (be 6 (0xf80000000000 + (v - 0x810204080))) v next_var_u64
unfolding next_var_u64 next_u8
read_6 v l h =
    Reads-byte ((0xf80000000000 + (v - 0x810204080)) / 0x10000000000 % 256)
      (be 5 (0xf80000000000 + (v - 0x810204080))) next_var_rest
      (rw
        (first_6 ((0xf80000000000 + (v - 0x810204080)) / 0x10000000000 % 256) (omega arith)
          (omega arith))
        (Reads-bind (be 5 (0xf80000000000 + (v - 0x810204080))) [] next_u40 _
          (next_u40-Reads (0xf80000000000 + (v - 0x810204080)))
          (Reads-pure _ v (
            omega (
              arith,
              bit_and_mask 2 ((0xf80000000000 + (v - 0x810204080)) / 0x10000000000 % 256),
              bit_and_mask 40 ((0xf80000000000 + (v - 0x810204080)) % 2 ^ 40),
              bit_or_add 40
                  (shl (bit_and ((0xf80000000000 + (v - 0x810204080)) / 0x10000000000 % 256) 0x3)
                    40)
                  (bit_and ((0xf80000000000 + (v - 0x810204080)) % 2 ^ 40) 0xffffffffff),
            )))))

read_7 :
    (v : ℕ)
    → 0x4081020407f < v
    → v ≤ 0x204081020407f
    → Reads (be 7 (0xfc000000000000 + (v - 0x40810204080))) v next_var_u64
unfolding next_var_u64 next_u8
read_7 v l h =
    Reads-byte ((0xfc000000000000 + (v - 0x40810204080)) / 0x1000000000000 % 256)
      (be 6 (0xfc000000000000 + (v - 0x40810204080))) next_var_rest
      (rw
        (first_7 ((0xfc000000000000 + (v - 0x40810204080)) / 0x1000000000000 % 256) (omega arith)
          (omega arith))
        (Reads-bind (be 6 (0xfc000000000000 + (v - 0x40810204080))) [] next_u48 _
          (next_u48-Reads (0xfc000000000000 + (v - 0x40810204080)))
          (Reads-pure _ v (
            omega (
              arith,
              bit_and_mask 1 ((0xfc000000000000 + (v - 0x40810204080)) / 0x1000000000000 % 256),
              bit_and_mask 48 ((0xfc000000000000 + (v - 0x40810204080)) % 2 ^ 48),
              bit_or_add 48
                  (shl
                    (bit_and ((0xfc000000000000 + (v - 0x40810204080)) / 0x1000000000000 % 256) 0x1)
                    48)
                  (bit_and ((0xfc000000000000 + (v - 0x40810204080)) % 2 ^ 48) 0xffffffffffff),
            )))))

read_8 :
    (v : ℕ)
    → 0x204081020407f < v
    → v ≤ 0x10204081020407f
    → Reads (be 8 (0xfe00000000000000 + (v - 0x2040810204080))) v next_var_u64
unfolding next_var_u64 next_u8
read_8 v l h =
    Reads-byte ((0xfe00000000000000 + (v - 0x2040810204080)) / 0x100000000000000 % 256)
      (be 7 (0xfe00000000000000 + (v - 0x2040810204080))) next_var_rest
      (rw
        (first_8 ((0xfe00000000000000 + (v - 0x2040810204080)) / 0x100000000000000 % 256)
          (omega arith) (omega arith))
        (Reads-bind (be 7 (0xfe00000000000000 + (v - 0x2040810204080))) [] next_u56 _
          (next_u56-Reads (0xfe00000000000000 + (v - 0x2040810204080)))
          (Reads-pure _ v (
            omega
              (arith, bit_and_mask 56 ((0xfe00000000000000 + (v - 0x2040810204080)) % 2 ^ 56))))))

read_9 :
    (v : ℕ)
    → 0x10204081020407f < v
    → v < 2 ^ 64
    → Reads (0xff ∷ be 8 (v - 0x102040810204080)) v next_var_u64
unfolding next_var_u64 next_u8
read_9 v l h = Reads-byte 0xff (be 8 (v - 0x102040810204080)) next_var_rest (
    rw (first_9 0xff (omega arith) (omega arith)) (
      Reads-bind (be 8 (v - 0x102040810204080)) [] next_u64 _
        (next_u64-Reads (v - 0x102040810204080)) (Reads-pure _ v (omega arith))))

-- `dyb_append_var_u64` writes the format of every `uint64`.
pub append_var_u64-Writes : (v : ℕ) → v < 2 ^ 64 → Writes (var_bytes v) (append_var_u64 v)
append_var_u64-Writes v fits = elim (var_size v) [
  | size_1 h ↦ rw (bytes_1 v h, append_1 v h) (append_u8-Writes v)
  | size_2 l h ↦ rw (bytes_2 v l h, append_2 v l h) (append_u16-Writes _)
  | size_3 l h ↦ rw (bytes_3 v l h, append_3 v l h) (append_u24-Writes _)
  | size_4 l h ↦ rw (bytes_4 v l h, append_4 v l h) (append_u32-Writes _)
  | size_5 l h ↦ rw (bytes_5 v l h, append_5 v l h) (append_u40-Writes _)
  | size_6 l h ↦ rw (bytes_6 v l h, append_6 v l h) (append_u48-Writes _)
  | size_7 l h ↦ rw (bytes_7 v l h, append_7 v l h) (append_u56-Writes _)
  | size_8 l h ↦ rw (bytes_8 v l h, append_8 v l h) (append_u64-Writes _)
  | size_9 l ↦
      rw (bytes_9 v l, append_9 v l fits)
        (Writes-then (be 1 0xff) _ (append_u8 0xff) _ (append_u8-Writes 0xff) (append_u64-Writes _))
]

-- `dyb_next_var_u64` reads back the format of every `uint64`.
pub next_var_u64-Reads : (v : ℕ) → v < 2 ^ 64 → Reads (var_bytes v) v next_var_u64
next_var_u64-Reads v fits = elim (var_size v) [
  | size_1 h ↦ rw (bytes_1 v h) (read_1 v h)
  | size_2 l h ↦ rw (bytes_2 v l h) (read_2 v l h)
  | size_3 l h ↦ rw (bytes_3 v l h) (read_3 v l h)
  | size_4 l h ↦ rw (bytes_4 v l h) (read_4 v l h)
  | size_5 l h ↦ rw (bytes_5 v l h) (read_5 v l h)
  | size_6 l h ↦ rw (bytes_6 v l h) (read_6 v l h)
  | size_7 l h ↦ rw (bytes_7 v l h) (read_7 v l h)
  | size_8 l h ↦ rw (bytes_8 v l h) (read_8 v l h)
  | size_9 l ↦ rw (bytes_9 v l) (read_9 v l fits)
]

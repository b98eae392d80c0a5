-- ===== src/Dybuf/VarFormat.antt =====
-- dybuf/dybuf.h: the bytes of a `var_u64`, and that both directions agree on them.
use lc_clibs.Base.{
  ℕ, ◌+◌, ◌-◌, ◌^◌, ◌≤◌, ◌<◌, ◌≡◌, List, ◌∷◌, arith, if◌then◌else◌, leb, leb-false, sub64,
}
use native.Mathlib.Decide.{dec_le}
use lc_clibs.Base.Bits.{bit_or_add}
use lc_clibs.Dybuf.State.{◌>>◌}
use lc_clibs.Dybuf.Append.{
  append_u8, append_u16, append_u24, append_u32, append_u40, append_u48, append_u56, append_u64,
}
use lc_clibs.Dybuf.VarInt.{append_var_u64}
use lc_clibs.Dybuf.BigEndian.{be}

-- The format: the ones in front of the first zero count the bytes that follow the first one, and
-- each length begins where the shorter one ends.
unfoldable pub var_bytes : ℕ → List ℕ
var_bytes v =
    if leb v 0x7f
    then be 1 v
    else if leb v 0x407f
    then be 2 (0x8000 + (v - 0x80))
    else if leb v 0x20407f
    then be 3 (0xc00000 + (v - 0x4080))
    else if leb v 0x1020407f
    then be 4 (0xe0000000 + (v - 0x204080))
    else if leb v 0x81020407f
    then be 5 (0xf000000000 + (v - 0x10204080))
    else if leb v 0x4081020407f
    then be 6 (0xf80000000000 + (v - 0x810204080))
    else if leb v 0x204081020407f
    then be 7 (0xfc000000000000 + (v - 0x40810204080))
    else if leb v 0x10204081020407f
    then be 8 (0xfe00000000000000 + (v - 0x2040810204080))
    else 0xff ∷ be 8 (v - 0x102040810204080)

-- The nine lengths.
pub data VarSize (v : ℕ) : Type 0 where
  size_1 : v ≤ 0x7f → VarSize v
  size_2 : 0x7f < v → v ≤ 0x407f → VarSize v
  size_3 : 0x407f < v → v ≤ 0x20407f → VarSize v
  size_4 : 0x20407f < v → v ≤ 0x1020407f → VarSize v
  size_5 : 0x1020407f < v → v ≤ 0x81020407f → VarSize v
  size_6 : 0x81020407f < v → v ≤ 0x4081020407f → VarSize v
  size_7 : 0x4081020407f < v → v ≤ 0x204081020407f → VarSize v
  size_8 : 0x204081020407f < v → v ≤ 0x10204081020407f → VarSize v
  size_9 : 0x10204081020407f < v → VarSize v

pub var_size : (v : ℕ) → VarSize v
var_size v = elim (dec_le v 0x7f) [
  | yes h ↦ size_1 h
  | no l ↦ elim (dec_le v 0x407f) [
    | yes h ↦ size_2 (omega arith) h
    | no l ↦ elim (dec_le v 0x20407f) [
      | yes h ↦ size_3 (omega arith) h
      | no l ↦ elim (dec_le v 0x1020407f) [
        | yes h ↦ size_4 (omega arith) h
        | no l ↦ elim (dec_le v 0x81020407f) [
          | yes h ↦ size_5 (omega arith) h
          | no l ↦ elim (dec_le v 0x4081020407f) [
            | yes h ↦ size_6 (omega arith) h
            | no l ↦ elim (dec_le v 0x204081020407f) [
              | yes h ↦ size_7 (omega arith) h
              | no l ↦ elim (dec_le v 0x10204081020407f) [
                | yes h ↦ size_8 (omega arith) h
                | no l ↦ size_9 (omega arith)
              ]
            ]
          ]
        ]
      ]
    ]
  ]
]

-- The format and the writer, length by length.
pub bytes_1 : (v : ℕ) → v ≤ 0x7f → var_bytes v ≡ be 1 v
unfolding var_bytes
bytes_1 v h = ground arith

pub append_1 : (v : ℕ) → v ≤ 0x7f → append_var_u64 v ≡ append_u8 v
unfolding append_var_u64
append_1 v h = ground arith

pub bytes_2 : (v : ℕ) → 0x7f < v → v ≤ 0x407f → var_bytes v ≡ be 2 (0x8000 + (v - 0x80))
unfolding var_bytes
bytes_2 v l h = ground arith

pub append_2 : (v : ℕ) → 0x7f < v → v ≤ 0x407f → append_var_u64 v ≡ append_u16 (0x8000 + (v - 0x80))
unfolding append_var_u64
append_2 v l h = ground (arith, bit_or_add 14 0x8000 (sub64 v 0x80))

pub bytes_3 : (v : ℕ) → 0x407f < v → v ≤ 0x20407f → var_bytes v ≡ be 3 (0xc00000 + (v - 0x4080))
unfolding var_bytes
bytes_3 v l h = ground arith

pub append_3 :
    (v : ℕ) → 0x407f < v → v ≤ 0x20407f → append_var_u64 v ≡ append_u24 (0xc00000 + (v - 0x4080))
unfolding append_var_u64
append_3 v l h = ground (arith, bit_or_add 21 0xc00000 (sub64 v 0x4080))

pub bytes_4 :
    (v : ℕ) → 0x20407f < v → v ≤ 0x1020407f → var_bytes v ≡ be 4 (0xe0000000 + (v - 0x204080))
unfolding var_bytes
bytes_4 v l h = ground arith

pub append_4 :
    (v : ℕ)
    → 0x20407f < v
    → v ≤ 0x1020407f
    → append_var_u64 v ≡ append_u32 (0xe0000000 + (v - 0x204080))
unfolding append_var_u64
append_4 v l h = ground (arith, bit_or_add 28 0xe0000000 (sub64 v 0x204080))

pub bytes_5 :
    (v : ℕ)
    → 0x1020407f < v
    → v ≤ 0x81020407f
    → var_bytes v ≡ be 5 (0xf000000000 + (v - 0x10204080))
unfolding var_bytes
bytes_5 v l h = ground arith

pub append_5 :
    (v : ℕ)
    → 0x1020407f < v
    → v ≤ 0x81020407f
    → append_var_u64 v ≡ append_u40 (0xf000000000 + (v - 0x10204080))
unfolding append_var_u64
append_5 v l h = ground (arith, bit_or_add 35 0xf000000000 (sub64 v 0x10204080))

pub bytes_6 :
    (v : ℕ)
    → 0x81020407f < v
    → v ≤ 0x4081020407f
    → var_bytes v ≡ be 6 (0xf80000000000 + (v - 0x810204080))
unfolding var_bytes
bytes_6 v l h = ground arith

pub append_6 :
    (v : ℕ)
    → 0x81020407f < v
    → v ≤ 0x4081020407f
    → append_var_u64 v ≡ append_u48 (0xf80000000000 + (v - 0x810204080))
unfolding append_var_u64
append_6 v l h = ground (arith, bit_or_add 42 0xf80000000000 (sub64 v 0x810204080))

pub bytes_7 :
    (v : ℕ)
    → 0x4081020407f < v
    → v ≤ 0x204081020407f
    → var_bytes v ≡ be 7 (0xfc000000000000 + (v - 0x40810204080))
unfolding var_bytes
bytes_7 v l h = ground arith

pub append_7 :
    (v : ℕ)
    → 0x4081020407f < v
    → v ≤ 0x204081020407f
    → append_var_u64 v ≡ append_u56 (0xfc000000000000 + (v - 0x40810204080))
unfolding append_var_u64
append_7 v l h = ground (arith, bit_or_add 49 0xfc000000000000 (sub64 v 0x40810204080))

pub bytes_8 :
    (v : ℕ)
    → 0x204081020407f < v
    → v ≤ 0x10204081020407f
    → var_bytes v ≡ be 8 (0xfe00000000000000 + (v - 0x2040810204080))
unfolding var_bytes
bytes_8 v l h = ground arith

pub append_8 :
    (v : ℕ)
    → 0x204081020407f < v
    → v ≤ 0x10204081020407f
    → append_var_u64 v ≡ append_u64 (0xfe00000000000000 + (v - 0x2040810204080))
unfolding append_var_u64
append_8 v l h = ground (arith, bit_or_add 56 0xfe00000000000000 (sub64 v 0x2040810204080))

pub bytes_9 : (v : ℕ) → 0x10204081020407f < v → var_bytes v ≡ 0xff ∷ be 8 (v - 0x102040810204080)
unfolding var_bytes
bytes_9 v l = rw (
  leb-false v 0x7f (omega arith),
  leb-false v 0x407f (omega arith),
  leb-false v 0x20407f (omega arith),
  leb-false v 0x1020407f (omega arith),
  leb-false v 0x81020407f (omega arith),
  leb-false v 0x4081020407f (omega arith),
  leb-false v 0x204081020407f (omega arith),
  leb-false v 0x10204081020407f (omega arith),
)

pub append_9 :
    (v : ℕ)
    → 0x10204081020407f < v
    → v < 2 ^ 64
    → append_var_u64 v ≡ (append_u8 0xff >> append_u64 (v - 0x102040810204080))
unfolding append_var_u64
append_9 v l h = ground arith

-- ===== src/Dybuf/TypdexFormat.antt =====
-- dybuf/dybuf.h: the bytes of a typdex, and the writer by the size of its arguments.
use lc_clibs.Base.{
  ℕ, ◌+◌, ◌*◌, ◌^◌, ◌≤◌, ◌<◌, ◌≡◌, ◌⊎◌, inl, inr, true, ◌&&◌, List, arith, bit_or, shl, leb,
  if◌then◌else◌,
}
use native.Mathlib.Decide.{dec_le}
use lc_clibs.Base.Bits.{bit_or_add}
use lc_clibs.Dybuf.State.{pure, ◌>>◌}
use lc_clibs.Dybuf.Append.{append_u8, append_u16, append_u24, append_u32}
use lc_clibs.Dybuf.Typdex.{append_typdex}
use lc_clibs.Dybuf.BigEndian.{be}

-- The format for an index below 2 ^ 20: one to four bytes, the shortest that fits both parts.
unfoldable pub typdex_bytes : ℕ → ℕ → List ℕ
typdex_bytes type index =
    if leb type 0x0f && leb index 0x07
    then be 1 (type * 8 + index)
    else if leb type 0x3f && leb index 0xff
    then be 2 (0x8000 + type * 256 + index)
    else if leb index 0x1fff
    then be 3 (0xc00000 + type * 8192 + index)
    else be 4 (0xe0000000 + type * 1048576 + index)

-- The four lengths.
pub data TypdexSize (t i : ℕ) : Type 0 where
  short : t ≤ 0x0f → i ≤ 0x07 → TypdexSize t i
  medium : (0x0f < t) ⊎ (0x07 < i) → t ≤ 0x3f → i ≤ 0xff → TypdexSize t i
  long : (0x3f < t) ⊎ (0xff < i) → i ≤ 0x1fff → TypdexSize t i
  longest : 0x1fff < i → TypdexSize t i

pub typdex_size : (t i : ℕ) → TypdexSize t i
typdex_size t i = elim (dec_le i 0x1fff) [
  | no l ↦ longest (omega arith)
  | yes h ↦ elim (dec_le i 0xff) [
    | no l ↦ long (inr (omega arith)) h
    | yes h' ↦ elim (dec_le t 0x3f) [
      | no l ↦ long (inl (omega arith)) h
      | yes k ↦ elim (dec_le t 0x0f) [
        | no l ↦ medium (inl (omega arith)) k h'
        | yes k' ↦ elim (dec_le i 0x07) [
          | no l ↦ medium (inr (omega arith)) k h'
          | yes h'' ↦ short k' h''
        ]
      ]
    ]
  ]
]

module _ (t i : ℕ) where
  pub short-bytes : t ≤ 0x0f → i ≤ 0x07 → typdex_bytes t i ≡ be 1 (t * 8 + i)
  unfolding typdex_bytes
  short-bytes h0 h1 = ground arith

  pub short-append : t ≤ 0x0f → i ≤ 0x07 → append_typdex t i ≡ (append_u8 (t * 8 + i) >> pure true)
  unfolding append_typdex
  short-append h0 h1 = ground (arith, bit_or_add 3 (shl t 3) i)

  pub medium-bytes :
      ((0x0f < t) ⊎ (0x07 < i))
      → t ≤ 0x3f
      → i ≤ 0xff
      → typdex_bytes t i ≡ be 2 (0x8000 + t * 256 + i)
  unfolding typdex_bytes
  medium-bytes h0 h1 h2 = ground arith

  pub medium-append :
      ((0x0f < t) ⊎ (0x07 < i))
      → t ≤ 0x3f
      → i ≤ 0xff
      → append_typdex t i ≡ (append_u16 (0x8000 + t * 256 + i) >> pure true)
  unfolding append_typdex
  medium-append h0 h1 h2 =
      ground (arith, bit_or_add 14 0x8000 (shl t 8), bit_or_add 8 (bit_or 0x8000 (shl t 8)) i)

  pub long-bytes :
      ((0x3f < t) ⊎ (0xff < i))
      → i ≤ 0x1fff
      → t < 256
      → typdex_bytes t i ≡ be 3 (0xc00000 + t * 8192 + i)
  unfolding typdex_bytes
  long-bytes h0 h1 h2 = ground arith

  pub long-append :
      ((0x3f < t) ⊎ (0xff < i))
      → i ≤ 0x1fff
      → t < 256
      → append_typdex t i ≡ (append_u24 (0xc00000 + t * 8192 + i) >> pure true)
  unfolding append_typdex
  long-append h0 h1 h2 =
      ground
        (arith, bit_or_add 21 0xc00000 (shl t 13), bit_or_add 13 (bit_or 0xc00000 (shl t 13)) i)

  pub longest-bytes :
      0x1fff < i → t < 256 → i < 2 ^ 20 → typdex_bytes t i ≡ be 4 (0xe0000000 + t * 1048576 + i)
  unfolding typdex_bytes
  longest-bytes h0 h1 h2 = ground arith

  pub longest-append :
      0x1fff < i
      → t < 256
      → i < 2 ^ 20
      → append_typdex t i ≡ (append_u32 (0xe0000000 + t * 1048576 + i) >> pure true)
  unfolding append_typdex
  longest-append h0 h1 h2 =
      ground
        (arith, bit_or_add 28 0xe0000000 (shl t 20), bit_or_add 20 (bit_or 0xe0000000 (shl t 20)) i)

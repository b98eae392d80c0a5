-- ===== src/Dybuf/JoinLaws.antt =====
-- dybuf/dybuf.h: the shifts and ors of `dyb_next_u16` to `dyb_next_u64` as sums.
use lc_clibs.Base.{ℕ, ◌+◌, ◌*◌, ◌<◌, ◌^◌, ◌≡◌, bit_and, bit_or, arith, u16, u32, u64}
use lc_clibs.Base.Bits.{bit_or_add, bit_and_mask}
use lc_clibs.Dybuf.Join.{be_u16, be_u24, be_u32, be_u40, be_u48, be_u56, be_u64}

byte_mask : (b : ℕ) → b < 256 → bit_and b 0xff ≡ b
byte_mask b h = omega (arith, bit_and_mask 8 b)

pub be_u16_lem : (a b : ℕ) → a < 256 → b < 256 → be_u16 a b ≡ a * 2 ^ 8 + b
unfolding be_u16
be_u16_lem a b ha hb =
    rw (byte_mask a ha, byte_mask b hb) (omega (arith, bit_or_add 8 (u16 (a * 2 ^ 8)) (b)))

pub be_u24_lem :
    (a b c : ℕ) → a < 256 → b < 256 → c < 256 → be_u24 a b c ≡ a * 2 ^ 16 + b * 2 ^ 8 + c
unfolding be_u24
be_u24_lem a b c ha hb hc =
    rw (byte_mask a ha, byte_mask b hb, byte_mask c hc)
      (omega (
        arith,
        bit_or_add 16 (u32 (a * 2 ^ 16)) (b * 2 ^ 8),
        bit_or_add 8 (bit_or (u32 (a * 2 ^ 16)) (b * 2 ^ 8)) (c),
      ))

pub be_u32_lem :
    (a b c d : ℕ)
    → a < 256
    → b < 256
    → c < 256
    → d < 256
    → be_u32 a b c d ≡ a * 2 ^ 24 + b * 2 ^ 16 + c * 2 ^ 8 + d
unfolding be_u32
be_u32_lem a b c d ha hb hc hd =
    rw (byte_mask a ha, byte_mask b hb, byte_mask c hc, byte_mask d hd)
      (omega (
        arith,
        bit_or_add 24 (u32 (a * 2 ^ 24)) (b * 2 ^ 16),
        bit_or_add 16 (bit_or (u32 (a * 2 ^ 24)) (b * 2 ^ 16)) (c * 2 ^ 8),
        bit_or_add 8 (bit_or (bit_or (u32 (a * 2 ^ 24)) (b * 2 ^ 16)) (c * 2 ^ 8)) (d),
      ))

pub be_u40_lem :
    (a b c d e : ℕ)
    → a < 256
    → b < 256
    → c < 256
    → d < 256
    → e < 256
    → be_u40 a b c d e ≡ a * 2 ^ 32 + b * 2 ^ 24 + c * 2 ^ 16 + d * 2 ^ 8 + e
unfolding be_u40
be_u40_lem a b c d e ha hb hc hd he =
    rw (byte_mask a ha, byte_mask b hb, byte_mask c hc, byte_mask d hd, byte_mask e he)
      (omega (
        arith,
        bit_or_add 32 (u64 (a * 2 ^ 32)) (b * 2 ^ 24),
        bit_or_add 24 (bit_or (u64 (a * 2 ^ 32)) (b * 2 ^ 24)) (c * 2 ^ 16),
        bit_or_add 16 (bit_or (bit_or (u64 (a * 2 ^ 32)) (b * 2 ^ 24)) (c * 2 ^ 16)) (d * 2 ^ 8),
        bit_or_add 8
            (bit_or (bit_or (bit_or (u64 (a * 2 ^ 32)) (b * 2 ^ 24)) (c * 2 ^ 16)) (d * 2 ^ 8)) (e),
      ))

pub be_u48_lem :
    (a b c d e f : ℕ)
    → a < 256
    → b < 256
    → c < 256
    → d < 256
    → e < 256
    → f < 256
    → be_u48 a b c d e f ≡ a * 2 ^ 40 + b * 2 ^ 32 + c * 2 ^ 24 + d * 2 ^ 16 + e * 2 ^ 8 + f
unfolding be_u48
be_u48_lem a b c d e f ha hb hc hd he hf =
    rw
      (
        byte_mask a ha,
        byte_mask b hb,
        byte_mask c hc,
        byte_mask d hd,
        byte_mask e he,
        byte_mask f hf,
      )
      (omega (
        arith,
        bit_or_add 40 (u64 (a * 2 ^ 40)) (b * 2 ^ 32),
        bit_or_add 32 (bit_or (u64 (a * 2 ^ 40)) (b * 2 ^ 32)) (c * 2 ^ 24),
        bit_or_add 24 (bit_or (bit_or (u64 (a * 2 ^ 40)) (b * 2 ^ 32)) (c * 2 ^ 24)) (d * 2 ^ 16),
        bit_or_add 16
            (bit_or (bit_or (bit_or (u64 (a * 2 ^ 40)) (b * 2 ^ 32)) (c * 2 ^ 24)) (d * 2 ^ 16))
            (e * 2 ^ 8),
        bit_or_add 8
            (bit_or
              (bit_or (bit_or (bit_or (u64 (a * 2 ^ 40)) (b * 2 ^ 32)) (c * 2 ^ 24)) (d * 2 ^ 16))
              (e * 2 ^ 8))
            (f),
      ))

pub be_u56_lem :
    (a b c d e f g : ℕ)
    → a < 256
    → b < 256
    → c < 256
    → d < 256
    → e < 256
    → f < 256
    → g < 256
    → be_u56 a b c d e f g
      ≡ a * 2 ^ 48 + b * 2 ^ 40 + c * 2 ^ 32 + d * 2 ^ 24 + e * 2 ^ 16 + f * 2 ^ 8 + g
unfolding be_u56
be_u56_lem a b c d e f g ha hb hc hd he hf hg =
    rw
      (
        byte_mask a ha,
        byte_mask b hb,
        byte_mask c hc,
        byte_mask d hd,
        byte_mask e he,
        byte_mask f hf,
        byte_mask g hg,
      )
      (omega (
        arith,
        bit_or_add 48 (u64 (a * 2 ^ 48)) (b * 2 ^ 40),
        bit_or_add 40 (bit_or (u64 (a * 2 ^ 48)) (b * 2 ^ 40)) (c * 2 ^ 32),
        bit_or_add 32 (bit_or (bit_or (u64 (a * 2 ^ 48)) (b * 2 ^ 40)) (c * 2 ^ 32)) (d * 2 ^ 24),
        bit_or_add 24
            (bit_or (bit_or (bit_or (u64 (a * 2 ^ 48)) (b * 2 ^ 40)) (c * 2 ^ 32)) (d * 2 ^ 24))
            (e * 2 ^ 16),
        bit_or_add 16
            (bit_or
              (bit_or (bit_or (bit_or (u64 (a * 2 ^ 48)) (b * 2 ^ 40)) (c * 2 ^ 32)) (d * 2 ^ 24))
              (e * 2 ^ 16))
            (f * 2 ^ 8),
        bit_or_add 8
            (bit_or
              (bit_or
                (bit_or (bit_or (bit_or (u64 (a * 2 ^ 48)) (b * 2 ^ 40)) (c * 2 ^ 32)) (d * 2 ^ 24))
                (e * 2 ^ 16))
              (f * 2 ^ 8))
            (g),
      ))

pub be_u64_lem :
    (a b c d e f g h : ℕ)
    → a < 256
    → b < 256
    → c < 256
    → d < 256
    → e < 256
    → f < 256
    → g < 256
    → h < 256
    → be_u64 a b c d e f g h
      ≡ a * 2 ^ 56 + b * 2 ^ 48 + c * 2 ^ 40 + d * 2 ^ 32 + e * 2 ^ 24 + f * 2 ^ 16 + g * 2 ^ 8 + h
unfolding be_u64
be_u64_lem a b c d e f g h ha hb hc hd he hf hg hh =
    rw
      (
        byte_mask a ha,
        byte_mask b hb,
        byte_mask c hc,
        byte_mask d hd,
        byte_mask e he,
        byte_mask f hf,
        byte_mask g hg,
        byte_mask h hh,
      )
      (omega (
        arith,
        bit_or_add 56 (u64 (a * 2 ^ 56)) (b * 2 ^ 48),
        bit_or_add 48 (bit_or (u64 (a * 2 ^ 56)) (b * 2 ^ 48)) (c * 2 ^ 40),
        bit_or_add 40 (bit_or (bit_or (u64 (a * 2 ^ 56)) (b * 2 ^ 48)) (c * 2 ^ 40)) (d * 2 ^ 32),
        bit_or_add 32
            (bit_or (bit_or (bit_or (u64 (a * 2 ^ 56)) (b * 2 ^ 48)) (c * 2 ^ 40)) (d * 2 ^ 32))
            (e * 2 ^ 24),
        bit_or_add 24
            (bit_or
              (bit_or (bit_or (bit_or (u64 (a * 2 ^ 56)) (b * 2 ^ 48)) (c * 2 ^ 40)) (d * 2 ^ 32))
              (e * 2 ^ 24))
            (f * 2 ^ 16),
        bit_or_add 16
            (bit_or
              (bit_or
                (bit_or (bit_or (bit_or (u64 (a * 2 ^ 56)) (b * 2 ^ 48)) (c * 2 ^ 40)) (d * 2 ^ 32))
                (e * 2 ^ 24))
              (f * 2 ^ 16))
            (g * 2 ^ 8),
        bit_or_add 8
            (bit_or
              (bit_or
                (bit_or
                  (bit_or (bit_or (bit_or (u64 (a * 2 ^ 56)) (b * 2 ^ 48)) (c * 2 ^ 40))
                    (d * 2 ^ 32))
                  (e * 2 ^ 24))
                (f * 2 ^ 16))
              (g * 2 ^ 8))
            (h),
      ))

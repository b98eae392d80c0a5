-- ===== src/Dybuf/Join.antt =====
-- dybuf/dybuf.h: the number that `dyb_next_u16` to `dyb_next_u64` and their `peek` twins make
-- of the bytes they read, `v = (a&0x00ff)<<8; v |= (b&0x00ff);` and so on.
use lc_clibs.Base.{ℕ, bit_and, bit_or, u16, u32, u64, shl}

unfoldable pub be_u16 : ℕ → ℕ → ℕ
be_u16 a b = bit_or (u16 (shl (bit_and a 0xff) 8)) (bit_and b 0xff)

unfoldable pub be_u24 : ℕ → ℕ → ℕ → ℕ
be_u24 a b c =
    bit_or (bit_or (u32 (shl (bit_and a 0xff) 16)) (shl (bit_and b 0xff) 8)) (bit_and c 0xff)

unfoldable pub be_u32 : ℕ → ℕ → ℕ → ℕ → ℕ
be_u32 a b c d =
    bit_or
      (bit_or (bit_or (u32 (shl (bit_and a 0xff) 24)) (shl (bit_and b 0xff) 16))
        (shl (bit_and c 0xff) 8))
      (bit_and d 0xff)

unfoldable pub be_u40 : ℕ → ℕ → ℕ → ℕ → ℕ → ℕ
be_u40 a b c d e =
    bit_or
      (bit_or
        (bit_or (bit_or (u64 (shl (bit_and a 0xff) 32)) (shl (bit_and b 0xff) 24))
          (shl (bit_and c 0xff) 16))
        (shl (bit_and d 0xff) 8))
      (bit_and e 0xff)

unfoldable pub be_u48 : ℕ → ℕ → ℕ → ℕ → ℕ → ℕ → ℕ
be_u48 a b c d e f =
    bit_or
      (bit_or
        (bit_or
          (bit_or (bit_or (u64 (shl (bit_and a 0xff) 40)) (shl (bit_and b 0xff) 32))
            (shl (bit_and c 0xff) 24))
          (shl (bit_and d 0xff) 16))
        (shl (bit_and e 0xff) 8))
      (bit_and f 0xff)

unfoldable pub be_u56 : ℕ → ℕ → ℕ → ℕ → ℕ → ℕ → ℕ → ℕ
be_u56 a b c d e f g =
    bit_or
      (bit_or
        (bit_or
          (bit_or
            (bit_or (bit_or (u64 (shl (bit_and a 0xff) 48)) (shl (bit_and b 0xff) 40))
              (shl (bit_and c 0xff) 32))
            (shl (bit_and d 0xff) 24))
          (shl (bit_and e 0xff) 16))
        (shl (bit_and f 0xff) 8))
      (bit_and g 0xff)

unfoldable pub be_u64 : ℕ → ℕ → ℕ → ℕ → ℕ → ℕ → ℕ → ℕ → ℕ
be_u64 a b c d e f g h =
    bit_or
      (bit_or
        (bit_or
          (bit_or
            (bit_or
              (bit_or (bit_or (u64 (shl (bit_and a 0xff) 56)) (shl (bit_and b 0xff) 48))
                (shl (bit_and c 0xff) 40))
              (shl (bit_and d 0xff) 32))
            (shl (bit_and e 0xff) 24))
          (shl (bit_and f 0xff) 16))
        (shl (bit_and g 0xff) 8))
      (bit_and h 0xff)

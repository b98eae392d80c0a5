-- ===== src/Dybuf/BigEndian.antt =====
-- dybuf/dybuf.h: the fixed widths, written and read back.
use lc_clibs.Base.{
  ℕ, zero, suc, ◌/◌, ◌%◌, ◌^◌, ◌≡◌, refl, Bool, List, [], ◌∷◌, arith, length, if◌then◌else◌,
  bit_and, shr, u8, ap, some, ◌∙◌,
}
use lc_clibs.Base.Bits.{bit_and_mask}
use lc_clibs.Dybuf.State.{put_byte}
use lc_clibs.Dybuf.Append.{
  append_bool, append_u8, append_u16, append_u24, append_u32, append_u40, append_u48, append_u56,
  append_u64,
}
use lc_clibs.Dybuf.Next.{
  next_bool, next_u8, next_u16, next_u24, next_u32, next_u40, next_u48, next_u56, next_u64,
}
use lc_clibs.Dybuf.JoinLaws.{
  be_u16_lem, be_u24_lem, be_u32_lem, be_u40_lem, be_u48_lem, be_u56_lem, be_u64_lem,
}
use lc_clibs.Dybuf.Reads.{Reads, Reads-pure, Reads-byte, take_byte_lem}
use lc_clibs.Dybuf.Runs.{Fills-byte, put_byte_lem}
use lc_clibs.Dybuf.Writes.{Writes, Writes-reserve}

-- The `n` low bytes of a number, the most significant first.
abbrev pub be : ℕ → ℕ → List ℕ
be zero v = []
be (suc n) v = (v / 256 ^ n % 256) ∷ be n v

pub length-be : (n v : ℕ) → length (be n v) ≡ n
length-be zero v = refl
length-be (suc n) v = ap suc (length-be n v)

-- `(v >> k) & 0x00ff`, cast to a byte.
shifted_byte : (v k : ℕ) → u8 (bit_and (shr v k) 0xff) ≡ v / 2 ^ k % 256
shifted_byte v k = omega (arith, bit_and_mask 8 (v / 2 ^ k))

low_byte : (v : ℕ) → u8 (bit_and v 0xff) ≡ v / 1 % 256
low_byte v = omega (arith, bit_and_mask 8 v)

pub append_u8-Writes : (v : ℕ) → Writes (be 1 v) (append_u8 v)
unfolding append_u8
append_u8-Writes v = Writes-reserve (be 1 v) 1 (put_byte v) refl (put_byte_lem v _ (omega arith))

pub append_bool-Writes : (v : Bool) → Writes ((if v then 1 else 0) ∷ []) (append_bool v)
unfolding append_bool
append_bool-Writes v =
    Writes-reserve _ 1 (put_byte (if v then 1 else 0)) refl (put_byte_lem _ _ (ground arith))

pub next_u8-Reads : (v : ℕ) → Reads (be 1 v) (v % 2 ^ 8) next_u8
unfolding next_u8
next_u8-Reads v m d k =
    take_byte_lem m d (v % 2 ^ 8) (k.bytes.0 ∙ ap some (omega arith))
      (omega (arith, k.within, k.uint_range))

pub next_bool-Reads : (v : Bool) → Reads ((if v then 1 else 0) ∷ []) v next_bool
unfolding next_bool
next_bool-Reads v = Reads-byte _ [] _ (Reads-pure _ v (ground arith))

pub append_u16-Writes : (v : ℕ) → Writes (be 2 v) (append_u16 v)
unfolding append_u16
append_u16-Writes v =
    Writes-reserve (be 2 v) 2 _ refl
      (Fills-byte _ _ (be 1 v) _ (shifted_byte v 8) (put_byte_lem _ _ (low_byte v)))

pub next_u16-Reads : (v : ℕ) → Reads (be 2 v) (v % 2 ^ 16) next_u16
unfolding next_u16
next_u16-Reads v = Reads-byte _ (be 1 v) _ (
    Reads-byte _ (be 0 v) _
      (Reads-pure _ (v % 2 ^ 16) (omega (arith, be_u16_lem (v / 256 % 256) (v / 1 % 256)))))

pub append_u24-Writes : (v : ℕ) → Writes (be 3 v) (append_u24 v)
unfolding append_u24
append_u24-Writes v = Writes-reserve (be 3 v) 3 _ refl (
    Fills-byte _ _ (be 2 v) _ (shifted_byte v 16)
      (Fills-byte _ _ (be 1 v) _ (shifted_byte v 8) (put_byte_lem _ _ (low_byte v))))

pub next_u24-Reads : (v : ℕ) → Reads (be 3 v) (v % 2 ^ 24) next_u24
unfolding next_u24
next_u24-Reads v = Reads-byte _ (be 2 v) _ (
    Reads-byte _ (be 1 v) _ (
      Reads-byte _ (be 0 v) _ (
        Reads-pure _ (v % 2 ^ 24)
          (omega (arith, be_u24_lem (v / 65536 % 256) (v / 256 % 256) (v / 1 % 256))))))

pub append_u32-Writes : (v : ℕ) → Writes (be 4 v) (append_u32 v)
unfolding append_u32
append_u32-Writes v = Writes-reserve (be 4 v) 4 _ refl (
    Fills-byte _ _ (be 3 v) _ (shifted_byte v 24) (
      Fills-byte _ _ (be 2 v) _ (shifted_byte v 16)
        (Fills-byte _ _ (be 1 v) _ (shifted_byte v 8) (put_byte_lem _ _ (low_byte v)))))

pub next_u32-Reads : (v : ℕ) → Reads (be 4 v) (v % 2 ^ 32) next_u32
unfolding next_u32
next_u32-Reads v = Reads-byte _ (be 3 v) _ (
    Reads-byte _ (be 2 v) _ (
      Reads-byte _ (be 1 v) _ (
        Reads-byte _ (be 0 v) _ (
          Reads-pure _ (v % 2 ^ 32) (
            omega (
              arith,
              be_u32_lem (v / 16777216 % 256) (v / 65536 % 256) (v / 256 % 256) (v / 1 % 256),
            ))))))

pub append_u40-Writes : (v : ℕ) → Writes (be 5 v) (append_u40 v)
unfolding append_u40
append_u40-Writes v = Writes-reserve (be 5 v) 5 _ refl (
    Fills-byte _ _ (be 4 v) _ (shifted_byte v 32) (
      Fills-byte _ _ (be 3 v) _ (shifted_byte v 24) (
        Fills-byte _ _ (be 2 v) _ (shifted_byte v 16)
          (Fills-byte _ _ (be 1 v) _ (shifted_byte v 8) (put_byte_lem _ _ (omega arith))))))

pub next_u40-Reads : (v : ℕ) → Reads (be 5 v) (v % 2 ^ 40) next_u40
unfolding next_u40
next_u40-Reads v = Reads-byte _ (be 4 v) _ (
    Reads-byte _ (be 3 v) _ (
      Reads-byte _ (be 2 v) _ (
        Reads-byte _ (be 1 v) _ (
          Reads-byte _ (be 0 v) _ (
            Reads-pure _ (v % 2 ^ 40) (
              omega (
                arith,
                be_u40_lem (v / 4294967296 % 256) (v / 16777216 % 256) (v / 65536 % 256)
                    (v / 256 % 256) (v / 1 % 256),
              )))))))

pub append_u48-Writes : (v : ℕ) → Writes (be 6 v) (append_u48 v)
unfolding append_u48
append_u48-Writes v = Writes-reserve (be 6 v) 6 _ refl (
    Fills-byte _ _ (be 5 v) _ (shifted_byte v 40) (
      Fills-byte _ _ (be 4 v) _ (shifted_byte v 32) (
        Fills-byte _ _ (be 3 v) _ (shifted_byte v 24) (
          Fills-byte _ _ (be 2 v) _ (shifted_byte v 16)
            (Fills-byte _ _ (be 1 v) _ (shifted_byte v 8) (put_byte_lem _ _ (omega arith)))))))

pub next_u48-Reads : (v : ℕ) → Reads (be 6 v) (v % 2 ^ 48) next_u48
unfolding next_u48
next_u48-Reads v = Reads-byte _ (be 5 v) _ (
    Reads-byte _ (be 4 v) _ (
      Reads-byte _ (be 3 v) _ (
        Reads-byte _ (be 2 v) _ (
          Reads-byte _ (be 1 v) _ (
            Reads-byte _ (be 0 v) _ (
              Reads-pure _ (v % 2 ^ 48) (
                omega (
                  arith,
                  be_u48_lem (v / 1099511627776 % 256) (v / 4294967296 % 256) (v / 16777216 % 256)
                      (v / 65536 % 256) (v / 256 % 256) (v / 1 % 256),
                ))))))))

pub append_u56-Writes : (v : ℕ) → Writes (be 7 v) (append_u56 v)
unfolding append_u56
append_u56-Writes v = Writes-reserve (be 7 v) 7 _ refl (
    Fills-byte _ _ (be 6 v) _ (shifted_byte v 48) (
      Fills-byte _ _ (be 5 v) _ (shifted_byte v 40) (
        Fills-byte _ _ (be 4 v) _ (shifted_byte v 32) (
          Fills-byte _ _ (be 3 v) _ (shifted_byte v 24) (
            Fills-byte _ _ (be 2 v) _ (shifted_byte v 16)
              (Fills-byte _ _ (be 1 v) _ (shifted_byte v 8) (put_byte_lem _ _ (omega arith))))))))

pub next_u56-Reads : (v : ℕ) → Reads (be 7 v) (v % 2 ^ 56) next_u56
unfolding next_u56
next_u56-Reads v = Reads-byte _ (be 6 v) _ (
    Reads-byte _ (be 5 v) _ (
      Reads-byte _ (be 4 v) _ (
        Reads-byte _ (be 3 v) _ (
          Reads-byte _ (be 2 v) _ (
            Reads-byte _ (be 1 v) _ (
              Reads-byte _ (be 0 v) _ (
                Reads-pure _ (v % 2 ^ 56) (
                  omega (
                    arith,
                    be_u56_lem (v / 281474976710656 % 256) (v / 1099511627776 % 256)
                        (v / 4294967296 % 256) (v / 16777216 % 256) (v / 65536 % 256)
                        (v / 256 % 256) (v / 1 % 256),
                  )))))))))

pub append_u64-Writes : (v : ℕ) → Writes (be 8 v) (append_u64 v)
unfolding append_u64
append_u64-Writes v = Writes-reserve (be 8 v) 8 _ refl (
    Fills-byte _ _ (be 7 v) _ (shifted_byte v 56) (
      Fills-byte _ _ (be 6 v) _ (shifted_byte v 48) (
        Fills-byte _ _ (be 5 v) _ (shifted_byte v 40) (
          Fills-byte _ _ (be 4 v) _ (shifted_byte v 32) (
            Fills-byte _ _ (be 3 v) _ (shifted_byte v 24) (
              Fills-byte _ _ (be 2 v) _ (shifted_byte v 16) (
                Fills-byte _ _ (be 1 v) _ (shifted_byte v 8) (put_byte_lem _ _ (omega arith)))))))))

pub next_u64-Reads : (v : ℕ) → Reads (be 8 v) (v % 2 ^ 64) next_u64
unfolding next_u64
next_u64-Reads v = Reads-byte _ (be 7 v) _ (
    Reads-byte _ (be 6 v) _ (
      Reads-byte _ (be 5 v) _ (
        Reads-byte _ (be 4 v) _ (
          Reads-byte _ (be 3 v) _ (
            Reads-byte _ (be 2 v) _ (
              Reads-byte _ (be 1 v) _ (
                Reads-byte _ (be 0 v) _ (
                  Reads-pure _ (v % 2 ^ 64) (
                    omega (
                      arith,
                      be_u64_lem (v / 72057594037927936 % 256) (v / 281474976710656 % 256)
                          (v / 1099511627776 % 256) (v / 4294967296 % 256) (v / 16777216 % 256)
                          (v / 65536 % 256) (v / 256 % 256) (v / 1 % 256),
                    ))))))))))

-- ===== src/Dybuf/Peeks.antt =====
-- dybuf/dybuf.h: `dyb_peek_bool` to `dyb_peek_u64` see what the `next` calls would read.
use lc_clibs.Base.{
  ℕ, ◌+◌, ◌/◌, ◌%◌, ◌^◌, ◌<◌, ◌≡◌, Bool, List, [], ◌∷◌, arith, length, if◌then◌else◌, add32,
}
use mathlib.Core.Path.{subst}
use lc_clibs.Mem.{Malloc}
use lc_clibs.Dybuf.State.{Dybuf, M, ok, pure, ◌>>=◌, peek_byte}
use lc_clibs.Dybuf.Peek.{
  peek_bool, peek_u8, peek_u16, peek_u24, peek_u32, peek_u40, peek_u48, peek_u56, peek_u64,
}
use lc_clibs.Dybuf.JoinLaws.{
  be_u16_lem, be_u24_lem, be_u32_lem, be_u40_lem, be_u48_lem, be_u56_lem, be_u64_lem,
}
use lc_clibs.Dybuf.Reads.{HoldsAt, Holds, Reads}
use lc_clibs.Dybuf.BigEndian.{be}

-- Where the bytes stand `i` bytes behind the position, the call returns the value and changes nothing.
abbrev pub PeeksAt : {A : Type 0} → ℕ → List ℕ → A → M A → Type 0
PeeksAt i bs a op =
    (m : Malloc) (d : Dybuf)
    → HoldsAt d.block (d.position + i) bs
    → d.position + i + length bs < 2 ^ 32
    → op m d ≡ ok a d

peek_byte_lem : (i b : ℕ) → PeeksAt i (b ∷ []) b (peek_byte i)
unfolding peek_byte
peek_byte_lem i b m d h l =
    let e : add32 d.position i ≡ d.position + i = omega arith in ground (arith, h.0)

Peeks-pure : {A : Type 0} (i : ℕ) (a b : A) → a ≡ b → PeeksAt i [] b (pure a)
Peeks-pure i a b e m d h l = rw e

Peeks-byte :
    {B : Type 0} {a : B} (i b : ℕ) (bs : List ℕ) (k : ℕ → M B)
    → PeeksAt (i + 1) bs a (k b)
    → PeeksAt i (b ∷ bs) a (peek_byte i >>= k)
Peeks-byte i b bs k r m d h l =
    let e : d.position + i + 1 ≡ d.position + (i + 1) = omega arith in
    rw (peek_byte_lem i b m d (h.0, tt) (omega arith)) (r m d (rw e at h.1) (omega arith))

abbrev pub Peeks : {A : Type 0} → List ℕ → A → M A → Type 0
Peeks bs a op = (m : Malloc) (d : Dybuf) → Holds d bs → op m d ≡ ok a d

from_start : {A : Type 0} {a : A} (bs : List ℕ) (op : M A) → PeeksAt 0 bs a op → Peeks bs a op
from_start bs op r m d h =
    let e : d.position ≡ d.position + 0 = omega arith in
    r m d (rw e at h.bytes) (omega (arith, h.within, h.uint_range))

pub peek_u8-Peeks : (v : ℕ) → v < 256 → Peeks (be 1 v) v peek_u8
unfolding peek_u8
peek_u8-Peeks v h =
    let e : v / 1 % 256 ≡ v = omega arith in
    from_start (be 1 v) peek_u8 (subst (λ b. PeeksAt 0 (be 1 v) b peek_u8) e (peek_byte_lem 0 _))

pub peek_first : (b : ℕ) (bs : List ℕ) → Peeks (b ∷ bs) b peek_u8
unfolding peek_u8
peek_first b bs m d h =
    let e : d.position + 0 ≡ d.position = omega arith in
    peek_byte_lem 0 b m d (rw e h.bytes.0, tt) (omega (arith, h.within, h.uint_range))

-- A read that looks at the bytes first.
pub Reads-peek :
    {A B : Type 0} {b : B} (bs : List ℕ) (a : A) (op : M A) (k : A → M B)
    → Peeks bs a op
    → Reads bs b (k a)
    → Reads bs b (op >>= k)
Reads-peek bs a op k p r m d h = rw (p m d h) (r m d h)

pub Peeks-peek :
    {A B : Type 0} {b : B} (bs : List ℕ) (a : A) (op : M A) (k : A → M B)
    → Peeks bs a op
    → Peeks bs b (k a)
    → Peeks bs b (op >>= k)
Peeks-peek bs a op k p r m d h = rw (p m d h) (r m d h)

pub peek_bool-Peeks : (v : Bool) → Peeks ((if v then 1 else 0) ∷ []) v peek_bool
unfolding peek_bool
peek_bool-Peeks v = from_start _ _ (Peeks-byte 0 _ [] _ (Peeks-pure 1 _ v (ground arith)))

pub peek_u16-Peeks : (v : ℕ) → v < 2 ^ 16 → Peeks (be 2 v) v peek_u16
unfolding peek_u16
peek_u16-Peeks v h = from_start (be 2 v) peek_u16 (
    Peeks-byte 0 _ (be 1 v) _ (
      Peeks-byte 1 _ (be 0 v) _
        (Peeks-pure 2 _ v (omega (arith, be_u16_lem (v / 256 % 256) (v / 1 % 256))))))

pub peek_u24-Peeks : (v : ℕ) → v < 2 ^ 24 → Peeks (be 3 v) v peek_u24
unfolding peek_u24
peek_u24-Peeks v h = from_start (be 3 v) peek_u24 (
    Peeks-byte 0 _ (be 2 v) _ (
      Peeks-byte 1 _ (be 1 v) _ (
        Peeks-byte 2 _ (be 0 v) _ (
          Peeks-pure 3 _ v
            (omega (arith, be_u24_lem (v / 65536 % 256) (v / 256 % 256) (v / 1 % 256)))))))

pub peek_u32-Peeks : (v : ℕ) → v < 2 ^ 32 → Peeks (be 4 v) v peek_u32
unfolding peek_u32
peek_u32-Peeks v h = from_start (be 4 v) peek_u32 (
    Peeks-byte 0 _ (be 3 v) _ (
      Peeks-byte 1 _ (be 2 v) _ (
        Peeks-byte 2 _ (be 1 v) _ (
          Peeks-byte 3 _ (be 0 v) _ (
            Peeks-pure 4 _ v (
              omega (
                arith,
                be_u32_lem (v / 16777216 % 256) (v / 65536 % 256) (v / 256 % 256) (v / 1 % 256),
              )))))))

pub peek_u40-Peeks : (v : ℕ) → v < 2 ^ 40 → Peeks (be 5 v) v peek_u40
unfolding peek_u40
peek_u40-Peeks v h = from_start (be 5 v) peek_u40 (
    Peeks-byte 0 _ (be 4 v) _ (
      Peeks-byte 1 _ (be 3 v) _ (
        Peeks-byte 2 _ (be 2 v) _ (
          Peeks-byte 3 _ (be 1 v) _ (
            Peeks-byte 4 _ (be 0 v) _ (
              Peeks-pure 5 _ v (
                omega (
                  arith,
                  be_u40_lem (v / 4294967296 % 256) (v / 16777216 % 256) (v / 65536 % 256)
                      (v / 256 % 256) (v / 1 % 256),
                ))))))))

pub peek_u48-Peeks : (v : ℕ) → v < 2 ^ 48 → Peeks (be 6 v) v peek_u48
unfolding peek_u48
peek_u48-Peeks v h = from_start (be 6 v) peek_u48 (
    Peeks-byte 0 _ (be 5 v) _ (
      Peeks-byte 1 _ (be 4 v) _ (
        Peeks-byte 2 _ (be 3 v) _ (
          Peeks-byte 3 _ (be 2 v) _ (
            Peeks-byte 4 _ (be 1 v) _ (
              Peeks-byte 5 _ (be 0 v) _ (
                Peeks-pure 6 _ v (
                  omega (
                    arith,
                    be_u48_lem (v / 1099511627776 % 256) (v / 4294967296 % 256) (v / 16777216 % 256)
                        (v / 65536 % 256) (v / 256 % 256) (v / 1 % 256),
                  )))))))))

pub peek_u56-Peeks : (v : ℕ) → v < 2 ^ 56 → Peeks (be 7 v) v peek_u56
unfolding peek_u56
peek_u56-Peeks v h = from_start (be 7 v) peek_u56 (
    Peeks-byte 0 _ (be 6 v) _ (
      Peeks-byte 1 _ (be 5 v) _ (
        Peeks-byte 2 _ (be 4 v) _ (
          Peeks-byte 3 _ (be 3 v) _ (
            Peeks-byte 4 _ (be 2 v) _ (
              Peeks-byte 5 _ (be 1 v) _ (
                Peeks-byte 6 _ (be 0 v) _ (
                  Peeks-pure 7 _ v (
                    omega (
                      arith,
                      be_u56_lem (v / 281474976710656 % 256) (v / 1099511627776 % 256)
                          (v / 4294967296 % 256) (v / 16777216 % 256) (v / 65536 % 256)
                          (v / 256 % 256) (v / 1 % 256),
                    ))))))))))

pub peek_u64-Peeks : (v : ℕ) → v < 2 ^ 64 → Peeks (be 8 v) v peek_u64
unfolding peek_u64
peek_u64-Peeks v h = from_start (be 8 v) peek_u64 (
    Peeks-byte 0 _ (be 7 v) _ (
      Peeks-byte 1 _ (be 6 v) _ (
        Peeks-byte 2 _ (be 5 v) _ (
          Peeks-byte 3 _ (be 4 v) _ (
            Peeks-byte 4 _ (be 3 v) _ (
              Peeks-byte 5 _ (be 2 v) _ (
                Peeks-byte 6 _ (be 1 v) _ (
                  Peeks-byte 7 _ (be 0 v) _ (
                    Peeks-pure 8 _ v (
                      omega (
                        arith,
                        be_u64_lem (v / 72057594037927936 % 256) (v / 281474976710656 % 256)
                            (v / 1099511627776 % 256) (v / 4294967296 % 256) (v / 16777216 % 256)
                            (v / 65536 % 256) (v / 256 % 256) (v / 1 % 256),
                      )))))))))))

-- ===== src/Ext/Number.antt =====
-- mmo/mmo_ext.h: the comparison of `MMInt` and `MMLong`, by bit patterns.
use lc_clibs.Base.{ℕ, ◌+◌, ◌%◌, ◌^◌, ◌<◌, ◌≡◌, arith, if◌then◌else◌, ltb, ◌==◌, sub32, sub64}

-- `this_o->value - that_o->value`
unfoldable pub compare_for_mmint : ℕ → ℕ → ℕ
compare_for_mmint this_o that_o = sub32 this_o that_o

-- `diff>0?1:diff<0?-1:0` for an `int64`
abbrev pub sign_of : ℕ → ℕ
sign_of diff = if diff == 0 then 0 else if ltb diff (2 ^ 63) then 1 else 0xffffffff

unfoldable pub compare_for_mmlong : ℕ → ℕ → ℕ
compare_for_mmlong this_o that_o = sign_of (sub64 this_o that_o)

-- The place of a bit pattern in the order of `int64` and of `int`.
abbrev pub rank_64 : ℕ → ℕ
rank_64 v = (v + 2 ^ 63) % 2 ^ 64

abbrev pub rank_32 : ℕ → ℕ
rank_32 v = (v + 2 ^ 31) % 2 ^ 32

-- For two `int64` less than 2 ^ 63 apart, `compareForMMLong` gives -1, 0 or 1 by their order.
pub compare_for_mmlong_lem :
    (a b : ℕ)
    → a < 2 ^ 64
    → b < 2 ^ 64
    → rank_64 a < rank_64 b + 2 ^ 63
    → rank_64 b < rank_64 a + 2 ^ 63
    → compare_for_mmlong a b ≡ (
        if ltb (rank_64 a) (rank_64 b)
        then 0xffffffff
        else if ltb (rank_64 b) (rank_64 a)
        then 1
        else 0)
unfolding compare_for_mmlong
compare_for_mmlong_lem a b h k p q = ground arith

-- For two `int` more than 2 ^ 31 apart, the smaller first, `compareForMMInt` gives a positive `int`:
-- the difference wraps, and the smaller compares as the greater.
pub compare_for_mmint_wraps :
    (a b : ℕ)
    → a < 2 ^ 32
    → b < 2 ^ 32
    → rank_32 a + 2 ^ 31 < rank_32 b
    → (0 < compare_for_mmint a b) × (compare_for_mmint a b < 2 ^ 31)
unfolding compare_for_mmint
compare_for_mmint_wraps a b h k p = (omega arith, omega arith)

-- ===== src/Dybuf/SignedCodec.antt =====
-- dybuf/dybuf.h: signed integers, folded to unsigned ones and back.
use lc_clibs.Base.{
  ℕ, ◌+◌, ◌-◌, ◌*◌, ◌^◌, ◌<◌, ◌≡◌, [], arith, ltb, bit_and, bit_xor, shl, shr, u64, if◌then◌else◌,
  ◌==◌, append-nil,
}
use mathlib.Core.Path.{subst}
use lc_clibs.Base.Bits.{bit_and_mask, bit_xor-zero, bit_xor_ones}
use lc_clibs.Dybuf.VarInt.{sign_fill, append_var_s64, next_var_s64, next_var_u64}
use lc_clibs.Dybuf.VarFormat.{var_bytes}
use lc_clibs.Dybuf.VarCodec.{append_var_u64-Writes, next_var_u64-Reads}
use lc_clibs.Dybuf.Reads.{Reads, Reads-pure, Reads-bind}
use lc_clibs.Dybuf.Writes.{Writes}

-- 0, -1, 1, -2, ... become 0, 1, 2, 3, ...: the pattern of -(n + 1) is 2 ^ 64 - 1 - n.
unfoldable pub folded : ℕ → ℕ
folded v = if ltb v (2 ^ 63) then 2 * v else 2 * (2 ^ 64 - 1 - v) + 1

folded-lt : (v : ℕ) → v < 2 ^ 64 → folded v < 2 ^ 64
unfolding folded
folded-lt v h = ground arith

folds : (v : ℕ) → v < 2 ^ 64 → bit_xor (u64 (shl v 1)) (sign_fill v) ≡ folded v
unfolding folded
folds v h = ground (arith, bit_xor-zero (u64 (shl v 1)), bit_xor_ones 64 (u64 (shl v 1)))

unfolded_back :
    (v : ℕ)
    → v < 2 ^ 64
    → (if bit_and (folded v) 0x01 == 0
        then bit_and (shr (folded v) 1) 0x7fffffffffffffff
        else bit_xor (bit_and (shr (folded v) 1) 0x7fffffffffffffff) 0xffffffffffffffff)
      ≡ v
unfolding folded
unfolded_back v h = ground (
  arith,
  bit_and_mask 1 (folded v),
  bit_and_mask 63 (shr (folded v) 1),
  bit_xor_ones 64 (bit_and (shr (folded v) 1) 0x7fffffffffffffff),
)

-- `dyb_append_var_s64` writes the folded number.
pub append_var_s64-Writes : (v : ℕ) → v < 2 ^ 64 → Writes (var_bytes (folded v)) (append_var_s64 v)
unfolding append_var_s64
append_var_s64-Writes v h = rw (folds v h) (append_var_u64-Writes (folded v) (folded-lt v h))

-- `dyb_next_var_s64` reads the `int64` back.
pub next_var_s64-Reads : (v : ℕ) → v < 2 ^ 64 → Reads (var_bytes (folded v)) v next_var_s64
unfolding next_var_s64
next_var_s64-Reads v h =
    subst (λ bs. Reads bs v next_var_s64) (append-nil (var_bytes (folded v)))
      (Reads-bind (var_bytes (folded v)) [] next_var_u64 _
        (next_var_u64-Reads (folded v) (folded-lt v h)) (Reads-pure _ v (unfolded_back v h)))

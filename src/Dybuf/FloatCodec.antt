-- ===== src/Dybuf/FloatCodec.antt =====
-- dybuf/dybuf.h: the bytes of a `float` and a `double` depend on the host that writes them.
use lc_clibs.Base.{
  ℕ, zero, suc, ◌+◌, ◌/◌, ◌%◌, ◌^◌, ◌<◌, ◌≡◌, refl, Bool, true, false, List, [], ◌∷◌, arith,
  if◌then◌else◌,
}
use lc_clibs.Dybuf.Next.{next_u32, next_u64}
use lc_clibs.Dybuf.Float.{swap_u32, swap_u64, append_float, next_float, append_double, next_double}
use lc_clibs.Dybuf.Reads.{Reads, Reads-pure, Reads-bind}
use lc_clibs.Dybuf.Writes.{Writes}
use lc_clibs.Dybuf.BigEndian.{
  be, append_u32-Writes, append_u64-Writes, next_u32-Reads, next_u64-Reads,
}

-- The `n` low bytes from byte `i` on, the least significant first.
abbrev pub le : ℕ → ℕ → ℕ → List ℕ
le zero i v = []
le (suc n) i v = (v / 256 ^ i % 256) ∷ le n (i + 1) v

unfoldable pub float_bytes : Bool → ℕ → List ℕ
float_bytes host v = if host then le 4 0 v else be 4 v

unfoldable pub double_bytes : Bool → ℕ → List ℕ
double_bytes host v = if host then le 8 0 v else be 8 v

swap_u32-swap : (host : Bool) (v : ℕ) → v < 2 ^ 32 → swap_u32 host (swap_u32 host v) ≡ v
unfolding swap_u32
swap_u32-swap true v h = omega arith
swap_u32-swap false v h = refl

swap_u32-lt : (host : Bool) (v : ℕ) → v < 2 ^ 32 → swap_u32 host v < 2 ^ 32
unfolding swap_u32
swap_u32-lt true v h = omega arith
swap_u32-lt false v h = h

be-swap_u32 : (host : Bool) (v : ℕ) → v < 2 ^ 32 → be 4 (swap_u32 host v) ≡ float_bytes host v
unfolding swap_u32 float_bytes
be-swap_u32 true v h = ground arith
be-swap_u32 false v h = refl

swap_u64-lt : (host : Bool) (v : ℕ) → v < 2 ^ 64 → swap_u64 host v < 2 ^ 64
unfolding swap_u64
swap_u64-lt true v h = omega arith
swap_u64-lt false v h = h

swap_u64-swap : (host : Bool) (v : ℕ) → v < 2 ^ 64 → swap_u64 host (swap_u64 host v) ≡ v
unfolding swap_u64
swap_u64-swap true v h = omega arith
swap_u64-swap false v h = refl

be-swap_u64 : (host : Bool) (v : ℕ) → v < 2 ^ 64 → be 8 (swap_u64 host v) ≡ double_bytes host v
unfolding swap_u64 double_bytes
be-swap_u64 true v h = ground arith
be-swap_u64 false v h = refl

-- A little-endian host writes the low byte of a `float` first, a big-endian one the high byte.
pub append_float-Writes :
    (host : Bool) (v : ℕ) → v < 2 ^ 32 → Writes (float_bytes host v) (append_float host v)
unfolding append_float
append_float-Writes host v h = rw (← be-swap_u32 host v h) (append_u32-Writes (swap_u32 host v))

pub next_float-Reads :
    (host : Bool) (v : ℕ) → v < 2 ^ 32 → Reads (float_bytes host v) v (next_float host)
unfolding next_float
next_float-Reads host v h =
    let e : swap_u32 host v % 2 ^ 32 ≡ swap_u32 host v = omega (arith, swap_u32-lt host v h) in
    rw (← be-swap_u32 host v h) (
      Reads-bind (be 4 (swap_u32 host v)) [] next_u32 _ (next_u32-Reads (swap_u32 host v))
        (Reads-pure _ v (rw (e, swap_u32-swap host v h))))

pub append_double-Writes :
    (host : Bool) (v : ℕ) → v < 2 ^ 64 → Writes (double_bytes host v) (append_double host v)
unfolding append_double
append_double-Writes host v h = rw (← be-swap_u64 host v h) (append_u64-Writes (swap_u64 host v))

pub next_double-Reads :
    (host : Bool) (v : ℕ) → v < 2 ^ 64 → Reads (double_bytes host v) v (next_double host)
unfolding next_double
next_double-Reads host v h =
    let e : swap_u64 host v % 2 ^ 64 ≡ swap_u64 host v = omega (arith, swap_u64-lt host v h) in
    rw (← be-swap_u64 host v h) (
      Reads-bind (be 8 (swap_u64 host v)) [] next_u64 _ (next_u64-Reads (swap_u64 host v))
        (Reads-pure _ v (rw (e, swap_u64-swap host v h))))

-- ===== src/Dybuf/Float.antt =====
-- dybuf/dybuf.h: `float` and `double` by their bit patterns, and the swap in front of them.
-- `host` is true on a little-endian host, where the test on `const int i = 1` succeeds.
use lc_clibs.Base.{ℕ, ◌+◌, ◌*◌, ◌/◌, ◌%◌, ◌^◌, Bool, if◌then◌else◌}
use lc_clibs.Dybuf.State.{M, pure, ◌>>=◌}
use lc_clibs.Dybuf.Append.{append_u32, append_u64}
use lc_clibs.Dybuf.Next.{next_u32, next_u64}

-- Byte `i` of the union, in the order of a little-endian host.
abbrev pub bs : ℕ → ℕ → ℕ
bs v i = v / 256 ^ i % 256

unfoldable pub swap_u32 : Bool → ℕ → ℕ
swap_u32 host v = if host then bs v 3 + bs v 2 * 256 + bs v 1 * 256 ^ 2 + bs v 0 * 256 ^ 3 else v

unfoldable pub swap_u64 : Bool → ℕ → ℕ
swap_u64 host v =
    if host
    then bs v 7
      + bs v 6 * 256
      + bs v 5 * 256 ^ 2
      + bs v 4 * 256 ^ 3
      + bs v 3 * 256 ^ 4
      + bs v 2 * 256 ^ 5
      + bs v 1 * 256 ^ 6
      + bs v 0 * 256 ^ 7
    else v

unfoldable pub append_float : Bool → ℕ → M (Unit {0})
append_float host value = append_u32 (swap_u32 host value)

unfoldable pub next_float : Bool → M ℕ
next_float host = do v ← next_u32; pure (swap_u32 host v)

unfoldable pub append_double : Bool → ℕ → M (Unit {0})
append_double host value = append_u64 (swap_u64 host value)

unfoldable pub next_double : Bool → M ℕ
next_double host = do v ← next_u64; pure (swap_u64 host v)

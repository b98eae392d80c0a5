-- ===== src/Dybuf/Edges.antt =====
-- dybuf/dybuf.h: where the buffer is left outside its order: full fixed buffers and reads past
-- the limit.
use lc_clibs.Base.{
  ℕ, ◌+◌, ◌-◌, ◌^◌, ◌≤◌, ◌<◌, ◌≡◌, true, arith, length, lt→ltb, ltb-false, add32, sub32,
  get_elem?-some,
}
use lc_clibs.Mem.{Malloc}
use lc_clibs.Dybuf.State.{Dybuf, IsValid, ok, fault, ◌>>=◌, put_byte, take_byte}
use lc_clibs.Dybuf.Resize.{reserve, get_remainder}
use lc_clibs.Dybuf.Resized.{set_limit_fixed}
use lc_clibs.Dybuf.Append.{append_u8}
use lc_clibs.Dybuf.Next.{next_u8}

-- The refusal of `dyb_set_limit` is not looked at.
reserve_refused :
    (m : Malloc) {d : Dybuf} (n : ℕ)
    → IsValid d
    → d.fixed_capacity ≡ true
    → d.capacity < d.position + n
    → d.position + n < 2 ^ 32
    → reserve n m d ≡ ok tt d
unfolding reserve
reserve_refused m {d} n v f h k =
    let p : add32 d.position n ≡ d.position + n = omega arith in
    rw (
      p,
      lt→ltb d.limit (d.position + n) (omega (arith, v.limit_le)),
      set_limit_fixed m v (d.position + n) f h,
    )

put_byte_fault :
    (m : Malloc) (d : Dybuf) (b : ℕ) → length d.block ≤ d.position → put_byte b m d ≡ fault
unfolding put_byte
put_byte_fault m d b h = rw (ltb-false d.position (length d.block) h)

-- On a valid buffer of fixed capacity below 2 ^ 32 - 1 whose position is at the capacity,
-- `dyb_append_u8` faults: the byte would go behind the block.
pub append_u8_overflows :
    (m : Malloc) (d : Dybuf) (b : ℕ)
    → IsValid d
    → d.fixed_capacity ≡ true
    → d.position ≡ d.capacity
    → d.capacity + 1 < 2 ^ 32
    → append_u8 b m d ≡ fault
unfolding append_u8
append_u8_overflows m d b v f h k = rw (
  reserve_refused m 1 v f (omega arith) (omega arith),
  put_byte_fault m d b (omega (arith, v.block_size)),
)

-- In a valid buffer whose position is at the limit, with bytes behind it, `dyb_next_u8` moves past
-- the limit, and then `dyb_get_remainder` answers 2 ^ 32 - 1.
pub next_u8_past_limit :
    (m : Malloc) (d : Dybuf)
    → IsValid d
    → d.position ≡ d.limit
    → d.limit < d.capacity
    → (next_u8 >>= λ _. get_remainder) m d
      ≡ ok (2 ^ 32 - 1) (record d { position = d.position + 1 })
unfolding next_u8 take_byte get_remainder
next_u8_past_limit m d v h l =
    let (b, e) = get_elem?-some d.block d.position (omega (arith, v.block_size)) in
    let p : add32 d.position 1 ≡ d.position + 1 = omega (arith, v.uint_range) in
    let w : sub32 d.limit (d.position + 1) ≡ 2 ^ 32 - 1 = omega (arith, v.uint_range) in
    ground (arith, e, p, w)

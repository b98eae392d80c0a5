-- ===== src/Dybuf/Resize.antt =====
-- dybuf/dybuf.h: the limits of a buffer and the position within them.
-- A call that returns the buffer or null returns true or false here.
use lc_clibs.Base.{
  ℕ, Bool, true, false, not, ◌&&◌, Option, none, some, ltb, leb, ◌==◌, add32, sub32, if◌then◌else◌,
  min, max,
}
use lc_clibs.Mem.{Mem, Malloc, mem_allocate, block_of, mem_copy, mem_move_down}
use lc_clibs.Dybuf.State.{◌>>=◌, Dybuf, ok, fault, M, pure, this}

-- CACHE_SIZE_UNIT
abbrev pub cache_size_unit : ℕ
cache_size_unit = 16

-- `dyb_mem_alloc`: the size that is asked for, and the block.
abbrev pub dyb_mem_alloc : Malloc → ℕ → Bool → ℕ × Option Mem
dyb_mem_alloc m size dyn =
    let asked = if dyn then max cache_size_unit size else size in (asked, mem_allocate m asked)

-- The state after the block has been replaced by one of `n` bytes.
abbrev pub resized : Dybuf → ℕ → Mem → Dybuf
resized d n new_block = record d {
  block = new_block;
  capacity = n;
  limit = if leb n d.limit then n else d.limit;
  position = if leb n d.position then n else d.position;
  mark = if leb n d.mark then n else d.mark;
}

-- `malloc` is not checked: where it fails, the copy that follows goes to a null pointer.
unfoldable pub set_capacity : ℕ → M Bool
set_capacity new_capacity m d =
    if d.fixed_capacity && not (new_capacity == d.capacity)
    then ok false d
    else if new_capacity == d.capacity
    then ok true d
    else (let (n, got) = dyb_mem_alloc m new_capacity true in
        elim (mem_copy (block_of got) d.block (min d.capacity n)) [
          | none ↦ fault
          | some new_block ↦ ok true (resized d n new_block)
        ])

unfoldable pub get_capacity : M ℕ
get_capacity m d = ok d.capacity d

unfoldable pub get_position : M ℕ
get_position m d = ok d.position d

unfoldable pub set_position : ℕ → M Bool
set_position new_position m d =
    if ltb d.limit new_position
    then ok false d
    else ok true (record d { position = if ltb new_position d.mark then d.mark else new_position })

unfoldable pub get_limit : M ℕ
get_limit m d = ok d.limit d

-- The three assignments at the end of `dyb_set_limit`.
abbrev pub limited : Dybuf → ℕ → Dybuf
limited d n = record d {
  limit = n;
  mark = if ltb n d.mark then n else d.mark;
  position = if ltb n d.position then n else d.position;
}

unfoldable pub limit_to : ℕ → M Bool
limit_to n m d = ok true (limited d n)

unfoldable pub set_limit : ℕ → M Bool
set_limit new_limit = do
  d ← this
  if ltb d.capacity new_limit
      then (do grown ← set_capacity new_limit; if grown then limit_to new_limit else pure false)
      else limit_to new_limit

unfoldable pub compact : M (Unit {0})
compact m d =
    if d.position == 0
    then ok tt d
    else (let move_size = sub32 d.limit d.position in
        elim (mem_move_down d.block d.position move_size) [
          | none ↦ fault
          | some new_block ↦
              ok tt (record d { block = new_block; limit = move_size; position = 0; mark = 0 })
        ])

unfoldable pub get_remainder : M ℕ
get_remainder m d = ok (sub32 d.limit d.position) d

unfoldable pub mark : M (Unit {0})
mark m d = ok tt (record d { mark = d.position })

unfoldable pub reset : M (Unit {0})
reset m d = ok tt (record d { position = d.mark })

unfoldable pub clear : M (Unit {0})
clear m d = ok tt (record d { position = 0; mark = 0; limit = d.capacity })

unfoldable pub flip : M (Unit {0})
flip m d = ok tt (record d { limit = d.position; position = 0; mark = 0 })

unfoldable pub rewind : M (Unit {0})
rewind m d = ok tt (record d { position = 0; mark = 0 })

-- The guard before every write: `if (position + n > limit) dyb_set_limit(dyb, position + n);`
-- What `dyb_set_limit` returns is not looked at.
unfoldable pub reserve : ℕ → M (Unit {0})
reserve n = do
  d ← this
  if ltb d.limit (add32 d.position n)
      then (do _ ← set_limit (add32 d.position n); pure tt)
      else pure tt

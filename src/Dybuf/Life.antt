-- ===== src/Dybuf/Life.antt =====
-- dybuf/dybuf.h: `dyb_refer`, `dyb_create`, `dyb_copy` and `dyb_release`.
-- `given` tells whether the caller passes the memory of the instance; none is null.
use lc_clibs.Base.{ℕ, Bool, true, false, Option, none, some, if◌then◌else◌}
use lc_clibs.Mem.{Mem, Malloc, block_of, mem_copy}
use lc_clibs.Dybuf.State.{Dybuf}
use lc_clibs.Dybuf.Resize.{dyb_mem_alloc}

-- `sizeof(struct dybuf)`: a pointer, four `uint`, three packed booleans and the padding.
abbrev pub sizeof_dybuf : ℕ
sizeof_dybuf = 32

-- Is there an instance to fill in?
abbrev pub has_instance : Malloc → Bool → Bool
has_instance m given = if given then true else m sizeof_dybuf

-- Every field is assigned, so what the instance held before does not matter.
unfoldable pub refer : Malloc → Bool → Option Mem → ℕ → Bool → Option Dybuf
refer m given none capacity for_write = none
refer m given (some memory) capacity for_write =
    if has_instance m given
    then some (record {
      block = memory;
      capacity = capacity;
      limit = if for_write then 0 else capacity;
      position = 0;
      mark = 0;
      fixed_capacity = true;
      should_release_instance = if given then false else true;
      should_release_data = false;
    })
    else none

unfoldable pub create : Malloc → Bool → ℕ → Option Dybuf
create m given capacity =
    if has_instance m given
    then (let (n, got) = dyb_mem_alloc m capacity true in
        some (record {
          block = block_of got;
          capacity = n;
          limit = 0;
          position = 0;
          mark = 0;
          fixed_capacity = false;
          should_release_instance = if given then false else true;
          should_release_data = true;
        }))
    else none

-- The instance that `dyb_copy` fills in.
abbrev pub taken : Bool → Mem → ℕ → ℕ → Dybuf
taken given block size limit = record {
  block = block;
  capacity = size;
  limit = limit;
  position = 0;
  mark = 0;
  fixed_capacity = false;
  should_release_instance = if given then false else true;
  should_release_data = true;
}

-- `some none` is null, none is a fault in the copy.
unfoldable pub copy : Malloc → Bool → Option Mem → ℕ → Bool → Option (Option Dybuf)
copy m given none capacity no_copy = some (create m given capacity)
copy m given (some memory) capacity no_copy =
    if has_instance m given
    then (if no_copy
        then some (some (taken given memory capacity capacity))
        else (let (n, got) = dyb_mem_alloc m capacity true in
            elim (mem_copy (block_of got) memory capacity) [
              | none ↦ none
              | some block ↦ some (some (taken given block n capacity))
            ]))
    else some none

-- Which of the block and the instance are given back.
unfoldable pub release : Option Dybuf → Bool × Bool
release none = (false, false)
release (some d) = (d.should_release_data, d.should_release_instance)

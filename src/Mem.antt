-- ===== src/Mem.antt =====
-- platform/plat_mem.h: memory blocks as lists of bytes.
-- A null pointer is the empty block: no index of it can be read or written.
use lc_clibs.Base.{
  ℕ, ◌+◌, ◌≤◌, ◌≡◌, Bool, ◌&&◌, Option, none, some, List, [], ◌++◌, arith, leb, if◌then◌else◌,
  length, take, drop, replicate, length-append, length-take, length-drop,
}

abbrev pub Mem : Type 0
Mem = List ℕ

-- Which requests the C library's `malloc` meets.
abbrev pub Malloc : Type 0
Malloc = ℕ → Bool

-- `malloc`, then `memset` with 0; none is `NULL`.
abbrev pub mem_allocate : Malloc → ℕ → Option Mem
mem_allocate m size = if m size then some (replicate size 0) else none

-- A null pointer from `malloc` is stored unseen: the empty block.
abbrev pub block_of : Option Mem → Mem
block_of none = []
block_of (some block) = block

-- `memcpy` of `size` bytes to the front of `dest`; none is an access out of bounds.
abbrev pub mem_copy : Mem → Mem → ℕ → Option Mem
mem_copy dest src size =
    if leb size (length dest) && leb size (length src)
    then some (take size src ++ drop size dest)
    else none

-- `memmove(data, data + from, size)` inside one block.
abbrev pub mem_move_down : Mem → ℕ → ℕ → Option Mem
mem_move_down data_block from size =
    if leb (from + size) (length data_block)
    then some (take size (drop from data_block) ++ drop size data_block)
    else none

-- `memcpy(data + at, src, size)`: into the middle of `dest`.
abbrev pub mem_copy_at : Mem → ℕ → Mem → ℕ → Option Mem
mem_copy_at dest at src size =
    if leb (at + size) (length dest) && leb size (length src)
    then some (take at dest ++ (take size src ++ drop (at + size) dest))
    else none

pub mem_copy-some :
    (dest src : Mem) (size : ℕ)
    → size ≤ length dest
    → size ≤ length src
    → mem_copy dest src size ≡ some (take size src ++ drop size dest)
mem_copy-some dest src size h k = ground arith

pub length-overlay :
    (dest src : Mem) (size : ℕ)
    → size ≤ length dest
    → size ≤ length src
    → length (take size src ++ drop size dest) ≡ length dest
length-overlay dest src size h k = omega (
  arith,
  length-append {0} (take size src) (drop size dest),
  length-take {0} size src,
  length-drop {0} size dest,
)

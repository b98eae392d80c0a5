-- ===== src/Dybuf/LifeLaws.antt =====
-- dybuf/dybuf.h: what a new buffer holds, and who gives its memory back.
use lc_clibs.Base.{
  ℕ, ◌+◌, ◌^◌, ◌≤◌, ◌<◌, ◌≡◌, refl, Bool, true, false, not, some, [], ◌∷◌, ◌++◌, arith, length, max,
  if◌then◌else◌, take, drop, replicate, get_elem?, length-replicate, length-append, append_assoc,
  ◌∙◌, get_elem?-overlay_front,
}
use mathlib.Core.Path.{subst}
use lc_clibs.Mem.{Mem, Malloc, mem_copy, mem_copy-some, length-overlay}
use lc_clibs.Dybuf.State.{Dybuf, IsValid}
use lc_clibs.Dybuf.Life.{has_instance, refer, create, copy, taken, release}
use lc_clibs.Dybuf.Reads.{HoldsAt, Holds, HoldsAt-same}

-- Over a block of `capacity` bytes `dyb_refer` gives a valid buffer of fixed capacity at its
-- start: empty for writing, full for reading. Its block is never given back, and its instance
-- is exactly if `dyb_refer` allocated it.
pub refer_lem :
    (m : Malloc) (given for_write : Bool) (memory : Mem)
    → has_instance m given ≡ true
    → length memory < 2 ^ 32
    → (d : Dybuf) × (refer m given (some memory) (length memory) for_write ≡ some d)
      × IsValid d
      × (d.fixed_capacity ≡ true)
      × (d.position ≡ 0)
      × (d.limit ≡ (if for_write then 0 else length memory))
      × (release (some d) ≡ (false, not given))
unfolding refer release
refer_lem m given for_write memory h k = (
  record {
    block = memory;
    capacity = length memory;
    limit = if for_write then 0 else length memory;
    position = 0;
    mark = 0;
    fixed_capacity = true;
    should_release_instance = if given then false else true;
    should_release_data = false;
  },
  rw h,
  record {
    block_size = refl;
    uint_range = k;
    limit_le = ground arith;
    position_le = omega arith;
    mark_le = omega arith;
  },
  refl,
  refl,
  refl,
  ground arith,
)

-- `dyb_create` gives an empty valid buffer that may grow, of at least 16 bytes, and whose block is
-- given back, provided that `malloc` meets its requests.
pub create_lem :
    (m : Malloc) (given : Bool) (capacity : ℕ)
    → has_instance m given ≡ true
    → m (max 16 capacity) ≡ true
    → capacity < 2 ^ 32
    → (d : Dybuf) × (create m given capacity ≡ some d)
      × IsValid d
      × (d.fixed_capacity ≡ false)
      × (d.capacity ≡ max 16 capacity)
      × (d.position ≡ 0)
      × (d.limit ≡ 0)
      × (release (some d) ≡ (true, not given))
unfolding create release
create_lem m given capacity h e k = (
  record {
    block = replicate (max 16 capacity) 0;
    capacity = max 16 capacity;
    limit = 0;
    position = 0;
    mark = 0;
    fixed_capacity = false;
    should_release_instance = if given then false else true;
    should_release_data = true;
  },
  rw (h, e),
  record {
    block_size = length-replicate {A = ℕ} (max 16 capacity) 0;
    uint_range = omega arith;
    limit_le = omega arith;
    position_le = omega arith;
    mark_le = omega arith;
  },
  refl,
  refl,
  refl,
  refl,
  ground arith,
)

get_elem?-behind :
    (front : Mem) (b : ℕ) (bs : Mem) → get_elem? (front ++ (b ∷ bs)) (length front) ≡ some b
get_elem?-behind [] b bs = refl
get_elem?-behind (x ∷ xs) b bs = get_elem?-behind xs b bs

HoldsAt-behind : (front bs : Mem) → HoldsAt (front ++ bs) (length front) bs
HoldsAt-behind front [] = tt
HoldsAt-behind front (b ∷ bs) =
    let e : length front + 1 ≡ length (front ++ (b ∷ [])) =
      omega (arith, length-append front (b ∷ [])) in
    (
      get_elem?-behind front b bs,
      rw e (
          subst (λ t. HoldsAt t (length (front ++ (b ∷ []))) bs) (append_assoc front (b ∷ []) bs)
            (HoldsAt-behind (front ++ (b ∷ [])) bs)),
    )

-- `dyb_copy` of a block of fewer than 2^32 bytes gives a valid buffer that reads exactly these bytes and
-- whose own block is given back: with `no_copy` that is the caller's block, taken over with its size,
-- and else a new one of at least 16 bytes; provided that `malloc` meets the requests that are made.
pub copy_lem :
    (m : Malloc) (given no_copy : Bool) (memory : Mem)
    → has_instance m given ≡ true
    → (no_copy ≡ false → m (max 16 (length memory)) ≡ true)
    → length memory < 2 ^ 32
    → (d : Dybuf) × (copy m given (some memory) (length memory) no_copy ≡ some (some d))
      × IsValid d
      × Holds d memory
      × (d.limit ≡ length memory)
      × (d.capacity ≡ (if no_copy then length memory else max 16 (length memory)))
      × (release (some d) ≡ (true, not given))
unfolding copy release
copy_lem m given true memory h e k = (
  taken given memory (length memory) (length memory),
  rw h,
  record {
    block_size = refl;
    uint_range = k;
    limit_le = omega arith;
    position_le = omega arith;
    mark_le = omega arith;
  },
  record { bytes = HoldsAt-behind [] memory; within = omega arith; uint_range = k },
  refl,
  refl,
  ground arith,
)
copy_lem m given false memory h e k =
    let n : ℕ = max 16 (length memory) in
    let fresh : Mem = replicate n 0 in
    let block : Mem = take (length memory) memory ++ drop (length memory) fresh in
    let fits : length memory ≤ length fresh = omega (arith, length-replicate {A = ℕ} n 0) in
    let got : mem_copy fresh memory (length memory) ≡ some block =
      mem_copy-some fresh memory (length memory) fits (omega arith) in
    (
      taken given block n (length memory),
      rw (h, e refl, got),
      record {
        block_size =
            length-overlay fresh memory (length memory) fits (omega arith)
            ∙ length-replicate {A = ℕ} n 0;
        uint_range = omega arith;
        limit_le = omega arith;
        position_le = omega arith;
        mark_le = omega arith;
      },
      record {
        bytes =
            HoldsAt-same block memory 0 memory
              (λ i _ l.
                get_elem?-overlay_front (length memory) fresh memory i (omega arith) (omega arith))
              (HoldsAt-behind [] memory);
        within = omega arith;
        uint_range = k;
      },
      refl,
      refl,
      ground arith,
    )

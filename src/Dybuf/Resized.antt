-- ===== src/Dybuf/Resized.antt =====
-- dybuf/dybuf.h: `dyb_set_capacity` and `dyb_set_limit`, branch by branch.
use lc_clibs.Base.{
  ℕ, ◌^◌, ◌≤◌, ◌<◌, ◌≡◌, true, false, some, ◌++◌, arith, ltb-false, lt→ltb, length, take, drop,
  replicate, min, max, length-append, length-take, length-drop, length-replicate, get_elem?,
  get_elem?-overlay_front,
}
use lc_clibs.Mem.{Mem, Malloc, mem_copy, mem_copy-some}
use lc_clibs.Dybuf.State.{Dybuf, ok, fault, IsValid}
use lc_clibs.Dybuf.Resize.{resized, limited, set_capacity, limit_to, set_limit}

-- The copy that `set_capacity` makes.
pub recopied : Dybuf → ℕ → Mem
recopied d n = take (min d.capacity n) d.block ++ drop (min d.capacity n) (replicate n 0)

module _ {d : Dybuf} (v : IsValid d) (n : ℕ) where
  pub length-recopied : length (recopied d n) ≡ n
  unfolding recopied
  length-recopied = omega (
    arith,
    length-append {0} (take (min d.capacity n) d.block) (drop (min d.capacity n) (replicate n 0)),
    length-take {0} (min d.capacity n) d.block,
    length-drop {0} {A = ℕ} (min d.capacity n) (replicate n 0),
    length-replicate {0} {A = ℕ} n 0,
    v.block_size,
  )

  pub get_elem?-recopied :
      (i : ℕ) → i < d.capacity → i < n → get_elem? (recopied d n) i ≡ get_elem? d.block i
  unfolding recopied
  get_elem?-recopied i h k =
      get_elem?-overlay_front (min d.capacity n) (replicate n 0) d.block i (omega arith)
        (omega (arith, v.block_size))

  pub mem_copy-recopied : mem_copy (replicate n 0) d.block (min d.capacity n) ≡ some (recopied d n)
  unfolding recopied
  mem_copy-recopied =
      mem_copy-some (replicate n 0) d.block (min d.capacity n)
        (omega (arith, length-replicate {0} {A = ℕ} n 0)) (omega (arith, v.block_size))

  pub resized-IsValid : n < 2 ^ 32 → IsValid (resized d n (recopied d n))
  resized-IsValid h = record {
    block_size = length-recopied;
    uint_range = h;
    limit_le = ground (arith, v.limit_le);
    position_le = ground (arith, v.limit_le, v.position_le);
    mark_le = ground (arith, v.position_le, v.mark_le);
  }

-- What `dyb_set_capacity` does, on every branch.
module _ (m : Malloc) {d : Dybuf} (v : IsValid d) (n : ℕ) where
  pub set_capacity_fixed :
      d.fixed_capacity ≡ true → (n ≡ d.capacity → ⊥) → set_capacity n m d ≡ ok false d
  unfolding set_capacity
  set_capacity_fixed f h = ground arith

  pub set_capacity_same : n ≡ d.capacity → set_capacity n m d ≡ ok true d
  unfolding set_capacity
  set_capacity_same e = ground arith

  pub set_capacity_refused :
      d.fixed_capacity ≡ false
      → (n ≡ d.capacity → ⊥)
      → m (max 16 n) ≡ false
      → 0 < d.capacity
      → set_capacity n m d ≡ fault
  unfolding set_capacity
  set_capacity_refused f h e p = ground arith

  pub set_capacity_met :
      d.fixed_capacity ≡ false
      → (n ≡ d.capacity → ⊥)
      → m (max 16 n) ≡ true
      → set_capacity n m d ≡ ok true (resized d (max 16 n) (recopied d (max 16 n)))
  unfolding set_capacity
  set_capacity_met f h e = ground (arith, mem_copy-recopied v (max 16 n))

-- What `dyb_set_limit` does, on every branch.
module _ (m : Malloc) {d : Dybuf} (v : IsValid d) (n : ℕ) where
  pub set_limit_within : n ≤ d.capacity → set_limit n m d ≡ ok true (limited d n)
  unfolding set_limit limit_to
  set_limit_within h = rw (ltb-false d.capacity n h)

  pub set_limit_fixed : d.fixed_capacity ≡ true → d.capacity < n → set_limit n m d ≡ ok false d
  unfolding set_limit
  set_limit_fixed f h =
      rw (lt→ltb d.capacity n h, set_capacity_fixed m v n f (λ e. absurd (omega arith)))

  -- In a valid buffer that may grow and has a capacity, `dyb_set_limit` past the capacity faults
  -- where `malloc` refuses the new block of at least 16 bytes: the bytes are copied to a null
  -- pointer.
  pub set_limit_refused :
      d.fixed_capacity ≡ false
      → d.capacity < n
      → m (max 16 n) ≡ false
      → 0 < d.capacity
      → set_limit n m d ≡ fault
  unfolding set_limit
  set_limit_refused f h e p =
      rw (lt→ltb d.capacity n h, set_capacity_refused m v n f (λ e. absurd (omega arith)) e p)

  pub set_limit_met :
      d.fixed_capacity ≡ false
      → d.capacity < n
      → m (max 16 n) ≡ true
      → set_limit n m d ≡ ok true (limited (resized d (max 16 n) (recopied d (max 16 n))) n)
  unfolding set_limit limit_to
  set_limit_met f h e =
      rw (lt→ltb d.capacity n h, set_capacity_met m v n f (λ e. absurd (omega arith)) e)

pub limited-IsValid : {d : Dybuf} (n : ℕ) → IsValid d → n ≤ d.capacity → IsValid (limited d n)
limited-IsValid n v h = record {
  block_size = v.block_size;
  uint_range = v.uint_range;
  limit_le = h;
  position_le = ground (arith, v.position_le);
  mark_le = ground (arith, v.mark_le, v.position_le);
}

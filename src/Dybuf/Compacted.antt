-- ===== src/Dybuf/Compacted.antt =====
-- dybuf/dybuf.h: `dyb_compact` keeps the bytes that are still to be read.
use lc_clibs.Base.{
  ℕ, zero, suc, ◌+◌, ◌-◌, ◌≤◌, ◌<◌, ◌≡◌, refl, ◌∙◌, [], ◌∷◌, ◌++◌, arith, length, length-append,
  length-take, length-drop, take, drop, get_elem?, get_elem?-overlay_front, sub32, eq→==, ne→==,
  le→leb,
}
use native.Mathlib.Decide.{ℕ_discrete}
use lc_clibs.Mem.{Mem, Malloc}
use lc_clibs.Dybuf.State.{Dybuf, IsValid, ok}
use lc_clibs.Dybuf.Resize.{compact}

-- The bytes between position and limit stand in the same order at the front of a block of the
-- same size.
pub record Kept (d d' : Dybuf) : Type 0 where
  pub position : d'.position ≡ 0
  pub limit : d'.limit ≡ d.limit - d.position
  pub capacity : d'.capacity ≡ d.capacity
  pub block_size : length d'.block ≡ length d.block
  pub bytes :
      (i : ℕ) → i < d.limit - d.position → get_elem? d'.block i ≡ get_elem? d.block (d.position + i)

get_elem?-drop : (p i j : ℕ) (xs : Mem) → j ≡ p + i → get_elem? (drop p xs) i ≡ get_elem? xs j
get_elem?-drop zero i j xs e = let z : j ≡ i = omega arith in rw z
get_elem?-drop (suc p) i j [] e = refl
get_elem?-drop (suc p) i zero (x ∷ xs) e = absurd (omega arith)
get_elem?-drop (suc p) i (suc j) (x ∷ xs) e = get_elem?-drop p i j xs (omega arith)

-- On a valid buffer `dyb_compact` ends without a fault: the bytes between position and limit
-- stand at the front, in their order, the position is 0 and the limit is behind them.
pub compact_lem :
    (m : Malloc) (d : Dybuf) → IsValid d → (d' : Dybuf) × (compact m d ≡ ok tt d') × Kept d d'
unfolding compact
compact_lem m d v = elim (ℕ_discrete d.position 0) [
  | yes e ↦ (
    d,
    rw (eq→== d.position 0 e),
    record {
      position = e;
      limit = omega arith;
      capacity = refl;
      block_size = refl;
      bytes = λ i h. let z : d.position + i ≡ i = omega arith in rw z;
    },
  )
  | no ne ↦
      let n : ℕ = d.limit - d.position in
      let s : sub32 d.limit d.position ≡ n =
        omega (arith, v.position_le, v.limit_le, v.uint_range) in
      let fits : d.position + n ≤ length d.block =
        omega (arith, v.position_le, v.limit_le, v.block_size) in
      let l = length-drop {0} d.position d.block in
      (
        record d {
          block = take n (drop d.position d.block) ++ drop n d.block;
          limit = n;
          position = 0;
          mark = 0;
        },
        rw (ne→== d.position 0 ne, s, le→leb (d.position + n) (length d.block) fits) (rw s),
        record {
          position = refl;
          limit = refl;
          capacity = refl;
          block_size = omega (
            arith,
            length-append {0} (take n (drop d.position d.block)) (drop n d.block),
            length-take {0} n (drop d.position d.block),
            length-drop {0} n d.block,
            l,
          );
          bytes = λ i h.
              get_elem?-overlay_front n d.block (drop d.position d.block) i h (omega (arith, l))
              ∙ get_elem?-drop d.position i (d.position + i) d.block refl;
        },
      )
]

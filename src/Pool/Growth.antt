-- ===== src/Pool/Growth.antt =====
-- platform/plat_mgn_mem.h: `mgn_mem_alloc`, and `mgn_mem_ralloc` by the sole owner.
use lc_clibs.Base.{
  ℕ, zero, suc, ◌-◌, ◌<◌, ◌≡◌, refl, ◌∙◌, ap, arith, false, not, ◌&&◌, none, some, List, [], ◌∷◌,
  ◌++◌, if◌then◌else◌, ◌==◌, length, eq→==, ne→==, lt→ltb, ltb, ltb-false, take, drop, replicate,
  u32, length-replicate, Bool, true, ◌||◌, ◌^◌,
}
use lc_clibs.Mem.{Mem}
use lc_clibs.Pool.Table.{MgnMemory, Table, lookup, remove}
use lc_clibs.Pool.State.{
  Pool, null, allocate, allocate_entry, copy_block, free_block, regrow, insert, ralloc, alloc,
}
use lc_clibs.Pool.Swept.{lookup-key}

take-length : (xs : Mem) (n : ℕ) → length xs ≡ n → take n xs ≡ xs
take-length [] zero h = refl
take-length [] (suc n) h = refl
take-length (x ∷ xs) zero h = absurd (omega arith)
take-length (x ∷ xs) (suc n) h = ap (λ t. x ∷ t) (take-length xs n (omega arith))

drop-replicate : (s n : ℕ) → drop {A = ℕ} s (replicate n 0) ≡ replicate (n - s) 0
drop-replicate zero n = let z : n - 0 ≡ n = omega arith in rw z
drop-replicate (suc s) zero = let z : 0 - suc s ≡ 0 = omega arith in rw z
drop-replicate (suc s) (suc n) =
    let z : suc n - suc s ≡ n - s = omega arith in rw z (drop-replicate s n)

or-false : (x : Bool) → x || false ≡ x
or-false true = refl
or-false false = refl

module _ {T : Type 0} (tab : Table T) (p : Pool T) where
  -- Where `malloc` answers both calls and null is not in the table, `mgn_mem_alloc` of a size that is
  -- not 0 returns the second answer, owned once and last in the table with that size, and gives
  -- nothing back. The block itself is cleared and has the size modulo 2^32.
  pub alloc_lem :
      (size mgn_m a : ℕ) (gs : List ℕ)
      → (size ≡ 0 → ⊥)
      → (mgn_m ≡ 0 → ⊥)
      → (a ≡ 0 → ⊥)
      → lookup 0 (tab.iter p.table) ≡ none
      → p.grants ≡ mgn_m ∷ a ∷ gs
      → (p' : Pool T) × (alloc tab size p ≡ (a, p'))
        × (tab.iter p'.table
            ≡ tab.iter p.table ++ (record { m = a; s = size; r = 1; cb = none } ∷ []))
        × (p'.contents a ≡ replicate (u32 size) 0)
        × (p'.freed ≡ p.freed)
  unfolding alloc allocate allocate_entry
  alloc_lem size mgn_m a gs s x y l g = (
    record p {
      table = tab.add p.table (record { m = a; s = size; r = 1; cb = none });
      grants = gs;
      contents = λ z. if (z == a) && not (a == null) then replicate (u32 size) 0 else p.contents z;
    },
    rw (
      alloc,
      ralloc,
      insert,
      allocate_entry,
      allocate,
      ne→== size 0 s,
      tab.find_law p.table 0,
      l,
      g,
      ne→== mgn_m 0 x,
      ne→== a 0 y,
    ),
    tab.add_law p.table _,
    rw (eq→== a a refl, ne→== a 0 y),
    refl,
  )

  one_owner :
      (k n : ℕ) (e : MgnMemory)
      → lookup k (tab.iter p.table) ≡ some e
      → e.r ≡ 1
      → e.s < n
      → ralloc tab k n p ≡ regrow tab e n p
  unfolding ralloc
  one_owner k n e l o h = rw (
    ralloc,
    ne→== n 0 (λ z. absurd (omega arith)),
    tab.find_law p.table k,
    l,
    lt→ltb e.s n h,
    eq→== e.r 1 o,
  )

  -- `mgn_mem_ralloc` to a larger size below 2^32 by the sole owner of a known block that is as long
  -- as its element says, where `malloc` answers with another block: its bytes are the old ones with
  -- zeros behind them, the element moves to the end of the table under the new pointer and size,
  -- the old block is given back, and nothing is copied past the end of a block.
  pub ralloc_grown :
      (k n a : ℕ) (gs : List ℕ) (e : MgnMemory)
      → lookup k (tab.iter p.table) ≡ some e
      → e.r ≡ 1
      → e.s < n
      → n < 2 ^ 32
      → length (p.contents e.m) ≡ e.s
      → (a ≡ 0 → ⊥)
      → (e.m ≡ a → ⊥)
      → p.grants ≡ a ∷ gs
      → (p' : Pool T) × (ralloc tab k n p ≡ (a, p'))
        × (tab.iter p'.table ≡ remove k (tab.iter p.table) ++ (record e { m = a; s = n } ∷ []))
        × (p'.contents a ≡ p.contents k ++ replicate (n - e.s) 0)
        × (p'.freed ≡ k ∷ p.freed)
        × (p'.overrun ≡ p.overrun)
  unfolding regrow allocate copy_block free_block
  ralloc_grown k n a gs e l o h w b y ne g =
      let key : e.m ≡ k = lookup-key k (tab.iter p.table) e l in
      let wide : u32 n ≡ n = omega arith in
      let old : u32 e.s ≡ e.s = omega arith in
      let fresh : ℕ → Mem =
        λ x. if (x == a) && not (a == null) then replicate (u32 n) 0 else p.contents x in
      let to : fresh a ≡ replicate n 0 = rw (eq→== a a refl, ne→== a 0 y, wide) in
      let from : fresh e.m ≡ p.contents e.m = rw (ne→== e.m a ne) in
      let room : ltb (length (fresh a)) (u32 e.s) ≡ false =
        ap (λ t. ltb (length t) (u32 e.s)) to
        ∙ rw (length-replicate {A = ℕ} n 0, old) (ltb-false n e.s (omega arith)) in
      let source : ltb (length (fresh e.m)) (u32 e.s) ≡ false =
        ap (λ t. ltb (length t) (u32 e.s)) from ∙ rw (b, old) (ltb-false e.s e.s (omega arith)) in
      (
        record p {
          table = tab.add (tab.del p.table e.m) (record e { m = a; s = n });
          grants = gs;
          contents = λ x.
              if x == a then take (u32 e.s) (fresh e.m) ++ drop (u32 e.s) (fresh a) else fresh x;
          freed = e.m ∷ p.freed;
          overrun =
              p.overrun || (ltb (length (fresh a)) (u32 e.s) || ltb (length (fresh e.m)) (u32 e.s));
        },
        one_owner k n e l o h ∙ rw (regrow, allocate, copy_block, free_block, g, ne→== a 0 y),
        tab.add_law _ _
            ∙ ap (λ t. t ++ (record e { m = a; s = n } ∷ []))
                (tab.del_law p.table e.m ∙ ap (λ x. remove x (tab.iter p.table)) key),
        rw (
          eq→== a a refl,
          ne→== e.m a ne,
          ne→== a 0 y,
          wide,
          old,
          take-length (p.contents e.m) e.s b,
          drop-replicate e.s n,
          key,
        ),
        ap (λ x. x ∷ p.freed) key,
        ap (λ t. p.overrun || (t || ltb (length (fresh e.m)) (u32 e.s))) room
            ∙ ap (λ t. p.overrun || t) source
            ∙ or-false p.overrun,
      )

  -- `mgn_mem_ralloc` to a larger size by the sole owner of a known block, where `malloc` answers
  -- with null, returns null, and the block is no longer in the table, though it was not given back.
  pub ralloc_lost :
      (k n : ℕ) (gs : List ℕ) (e : MgnMemory)
      → lookup k (tab.iter p.table) ≡ some e
      → e.r ≡ 1
      → e.s < n
      → p.grants ≡ 0 ∷ gs
      → (p' : Pool T) × (ralloc tab k n p ≡ (null, p'))
        × (tab.iter p'.table ≡ remove k (tab.iter p.table))
        × (p'.freed ≡ p.freed)
  unfolding regrow allocate
  ralloc_lost k n gs e l o h g =
      let key : e.m ≡ k = lookup-key k (tab.iter p.table) e l in
      (
        record p {
          table = tab.del p.table e.m;
          grants = gs;
          contents = λ x. if (x == null) && false then replicate (u32 n) 0 else p.contents x;
        },
        one_owner k n e l o h ∙ rw (regrow, allocate, g),
        tab.del_law p.table e.m ∙ ap (λ x. remove x (tab.iter p.table)) key,
        refl,
      )

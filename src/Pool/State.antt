-- ===== src/Pool/State.antt =====
-- platform/plat_mgn_mem.h: the pool, the memory it hands out, and the calls that change it.
use lc_clibs.Base.{
  ℕ, ◌-◌, Bool, true, false, not, ◌&&◌, Option, none, some, List, [], ◌∷◌, ◌++◌, if◌then◌else◌,
  ◌==◌, ltb, take, drop, replicate, add64, u32, ◌||◌, length,
}
use lc_clibs.Mem.{Mem}
use lc_clibs.Pool.Table.{MgnMemory, Table}

-- `contents` are the bytes behind each pointer, `grants` what `malloc` will return, one answer for
-- each call and `NULL` behind the last, and `freed` the blocks given back, the latest first;
-- `overrun` tells that a copy has gone past the end of a block.
pub record Pool (T : Type 0) : Type 0 where
  pub table : T
  pub contents : ℕ → Mem
  pub grants : List ℕ
  pub freed : List ℕ
  pub overrun : Bool

abbrev pub null : ℕ
null = 0

-- The next answer of `malloc`.
abbrev pub grant : List ℕ → ℕ × List ℕ
grant [] = (null, [])
grant (a ∷ gs) = (a, gs)

module _ {T : Type 0} where
  -- `plat_mem_allocate` of a block, which takes its size as a `uint`: the block is cleared.
  unfoldable pub allocate : ℕ → Pool T → ℕ × Pool T
  allocate size p =
      let (a, gs) = grant p.grants in
      (
        a,
        record p {
          grants = gs;
          contents =
              λ x. if (x == a) && not (a == null) then replicate (u32 size) 0 else p.contents x;
        },
      )

  -- `plat_mem_allocate(sizeof(*mgn_m))`: the structure is the table's element.
  unfoldable pub allocate_entry : Pool T → ℕ × Pool T
  allocate_entry p = let (a, gs) = grant p.grants in (a, record p { grants = gs })

  -- `plat_mem_copy(to, from, size)`, which takes its size as a `uint`.
  unfoldable pub copy_block : ℕ → ℕ → ℕ → Pool T → Pool T
  copy_block to from size p =
      let n = u32 size in
      let source = p.contents from in
      let block = p.contents to in
      record p {
        contents = λ x. if x == to then take n source ++ drop n block else p.contents x;
        overrun = p.overrun || (ltb (length block) n || ltb (length source) n);
      }

  unfoldable pub free_block : ℕ → Pool T → Pool T
  free_block a p = record p { freed = a ∷ p.freed }

module _ {T : Type 0} (tab : Table T) where
  -- The branch of one owner.
  unfoldable pub regrow : MgnMemory → ℕ → Pool T → ℕ × Pool T
  unfolding allocate copy_block free_block
  regrow e new_size p =
      let (new_m, p1) = allocate new_size (record p { table = tab.del p.table e.m }) in
      if new_m == null
      then (null, p1)
      else (let p2 = free_block e.m (copy_block new_m e.m e.s p1) in
          (new_m, record p2 { table = tab.add p2.table (record e { m = new_m; s = new_size }) }))

  -- A new block with a new structure, and its filling with `old_size` bytes from `origin_mem`.
  unfoldable pub insert : ℕ → Pool T → ℕ × Pool T
  unfolding allocate allocate_entry
  insert new_size p =
      let (mgn_m, p1) = allocate_entry p in
      if mgn_m == null
      then (null, p1)
      else (let (new_m, p2) = allocate new_size p1 in
          if new_m == null then (null, p2) else (
            new_m,
            record p2 {
              table = tab.add p2.table (record { m = new_m; s = new_size; r = 1; cb = none });
            },
          ))

  -- The branch of several owners, or of none.
  unfoldable pub give_up : MgnMemory → ℕ → ℕ → Pool T → ℕ × Pool T
  unfolding insert copy_block
  give_up e origin_mem new_size p =
      let left = if ltb 0 e.r then record e { r = e.r - 1 } else e in
      let (new_m, p1) = insert new_size (record p { table = tab.assign p.table origin_mem left }) in
      if new_m == null then (null, p1) else (new_m, copy_block new_m origin_mem e.s p1)

  unfoldable pub ralloc : ℕ → ℕ → Pool T → ℕ × Pool T
  unfolding regrow give_up insert
  ralloc origin_mem new_size p =
      if new_size == 0 then (null, p) else elim (tab.find p.table origin_mem) [
        | some e ↦
            if ltb e.s new_size
            then (if e.r == 1 then regrow e new_size p else give_up e origin_mem new_size p)
            else (e.m, p)
        | none ↦ if origin_mem == null then insert new_size p else (null, p)
      ]

  unfoldable pub alloc : ℕ → Pool T → ℕ × Pool T
  unfolding ralloc
  alloc new_size p = ralloc null new_size p

  unfoldable pub retain : ℕ → Pool T → ℕ × Pool T
  retain origin_mem p = elim (tab.find p.table origin_mem) [
    | some e ↦
        (e.m, record p { table = tab.assign p.table origin_mem (record e { r = add64 e.r 1 }) })
    | none ↦ (null, p)
  ]

  unfoldable pub retained_count : ℕ → Pool T → ℕ
  retained_count origin_mem p = elim (tab.find p.table origin_mem) [ some e ↦ e.r | none ↦ 0 ]

  unfoldable pub count_of_mem : Pool T → ℕ
  count_of_mem p = tab.count p.table

  module _ (callback : ℕ → ℕ → Pool T → Pool T) where
    -- `if (cb) cb(m);` the callback may do anything to the pool.
    unfoldable pub call : Option ℕ → ℕ → Pool T → Pool T
    call none a p = p
    call (some f) a p = callback f a p

    -- The callback, then the element and its block go.
    unfoldable pub dispose : Option ℕ → ℕ → Pool T → Pool T
    unfolding call free_block
    dispose cb a p = let p1 = call cb a p in free_block a (record p1 { table = tab.del p1.table a })

    unfoldable pub give_back : ℕ → Bool → Option ℕ → Pool T → Pool T
    unfolding dispose
    give_back origin_mem release cb p = elim (tab.find p.table origin_mem) [
      | none ↦ p
      | some e ↦
          if e.r == 0
          then p
          else (let p1 = record p {
            table = tab.assign p.table origin_mem (record e { r = e.r - 1; cb = cb });
          } in
              if (e.r - 1 == 0) && release then dispose cb e.m p1 else p1)
    ]

    unfoldable pub release : ℕ → Pool T → Pool T
    unfolding give_back
    release origin_mem p = give_back origin_mem true none p

    unfoldable pub release_w_cb : ℕ → Option ℕ → Pool T → Pool T
    unfolding give_back
    release_w_cb origin_mem cb p = give_back origin_mem true cb p

    unfoldable pub autorelease : ℕ → Pool T → Pool T
    unfolding give_back
    autorelease origin_mem p = give_back origin_mem false none p

    unfoldable pub autorelease_w_cb : ℕ → Option ℕ → Pool T → Pool T
    unfolding give_back
    autorelease_w_cb origin_mem cb p = give_back origin_mem false cb p

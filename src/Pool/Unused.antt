-- ===== src/Pool/Unused.antt =====
-- platform/plat_mgn_mem.h: `mgn_mem_release_unused` and `mgn_mem_release_all`.
use lc_clibs.Base.{ℕ, zero, suc, none, some, List, [], ◌∷◌, if◌then◌else◌, ◌==◌, leb, length}
use lc_clibs.Pool.Table.{MgnMemory, Table}
use lc_clibs.Pool.State.{Pool, free_block, dispose}

-- `sizeof(free_m) / sizeof(free_m[0])`
abbrev pub batch : ℕ
batch = 16

-- The first loop: the blocks without an owner, at most `n` of them.
abbrev pub unused : ℕ → List MgnMemory → List ℕ
unused zero es = []
unused (suc n) [] = []
unused (suc n) (e ∷ es) = if e.r == 0 then e.m ∷ unused n es else unused (suc n) es

module _ {T : Type 0} (tab : Table T) where
  module _ (callback : ℕ → ℕ → Pool T → Pool T) where
    -- One round of the second loop.
    unfoldable pub sweep_one : ℕ → Pool T → Pool T
    unfolding dispose
    sweep_one a p = elim (tab.find p.table a) [
      | some e ↦ if e.r == 0 then dispose tab callback e.cb e.m p else p
      | none ↦ p
    ]

    unfoldable pub sweep : List ℕ → Pool T → Pool T
    unfolding sweep_one
    sweep [] p = p
    sweep (a ∷ free_m) p = sweep free_m (sweep_one a p)

    -- Each round of the `goto` takes one of the fuel.
    unfoldable pub release_unused : ℕ → Pool T → Pool T
    unfolding sweep
    release_unused zero p = p
    release_unused (suc n) p =
        let free_m = unused batch (tab.iter p.table) in
        let swept = sweep free_m p in
        let again = release_unused n swept in if leb batch (length free_m) then again else swept

  -- No callback is called.
  unfoldable pub release_each : List MgnMemory → Pool T → Pool T
  unfolding free_block
  release_each [] p = p
  release_each (e ∷ es) p =
      release_each es (free_block e.m (record p { table = tab.del p.table e.m }))

  unfoldable pub release_all : Pool T → Pool T
  unfolding release_each
  release_all p = release_each (tab.iter p.table) p

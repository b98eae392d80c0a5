-- ===== src/Pool/Tests.antt =====
-- platform/plat_mgn_mem.h: the laws at a concrete pool, with the list of the elements as table.
use lc_clibs.Base.{ℕ, ◌≡◌, refl, arith, false, none, some, List, [], ◌∷◌, ◌++◌, length, replicate}
use lc_clibs.Mem.{Mem}
use lc_clibs.Pool.Table.{MgnMemory, Table, lookup, remove, replace}
use lc_clibs.Pool.State.{Pool, null, ralloc, alloc, retain, retained_count, release, autorelease}
use lc_clibs.Pool.Unused.{release_unused}
use lc_clibs.Pool.Swept.{owned, release_unused_lem}
use lc_clibs.Pool.Owners.{release_sole, autorelease_sole, release-retain}
use lc_clibs.Pool.Growth.{alloc_lem, ralloc_grown, ralloc_lost}

abbrev listed : Table (List MgnMemory)
listed = record {
  find = λ t k. lookup k t;
  add = λ t e. t ++ (e ∷ []);
  del = λ t k. remove k t;
  assign = λ t k e. replace k e t;
  iter = λ t. t;
  count = λ t. length t;
  find_law = λ t k. refl;
  add_law = λ t e. refl;
  del_law = λ t k. refl;
  assign_law = λ t k e. refl;
  count_law = λ t. refl;
}

abbrev sole : MgnMemory
sole = record { m = 100; s = 2; r = 1; cb = none }

abbrev orphan : MgnMemory
orphan = record { m = 200; s = 1; r = 0; cb = some 7 }

-- What stands behind every pointer.
abbrev pair : Mem
pair = 5 ∷ 6 ∷ []

abbrev granted : List ℕ → Pool (List MgnMemory)
granted gs = record {
  table = sole ∷ orphan ∷ [];
  contents = λ x. pair;
  grants = gs;
  freed = [];
  overrun = false;
}

abbrev idle : ℕ → ℕ → Pool (List MgnMemory) → Pool (List MgnMemory)
idle f a p = p

release_unused_lem_example :
    (release_unused listed idle 3 (granted [])).table ≡ owned (sole ∷ orphan ∷ [])
release_unused_lem_example =
    release_unused_lem listed idle (λ f a p. refl) 3 (granted [])
      (((λ e. absurd (omega (arith, e))), tt), (tt, tt)) (omega arith)

release_sole_example :
    ((release listed idle 100 (granted [])).table ≡ remove 100 (sole ∷ orphan ∷ []))
    × ((release listed idle 100 (granted [])).freed ≡ 100 ∷ [])
release_sole_example = release_sole listed 100 sole (granted []) refl idle refl

autorelease_sole_example :
    (retained_count listed 100 (autorelease listed idle 100 (granted [])) ≡ 0)
    × ((autorelease listed idle 100 (granted [])).table
        ≡ replace 100 (record sole { r = 0; cb = none }) (sole ∷ orphan ∷ []))
    × ((autorelease listed idle 100 (granted [])).freed ≡ [])
autorelease_sole_example = autorelease_sole listed 100 sole (granted []) refl idle refl

release-retain_example :
    ((retain listed 100 (granted [])).0 ≡ 100)
    × ((release listed idle 100 (retain listed 100 (granted [])).1).table
        ≡ replace 100 (record sole { cb = none }) (sole ∷ orphan ∷ []))
    × ((release listed idle 100 (retain listed 100 (granted [])).1).freed ≡ [])
release-retain_example =
    release-retain listed idle 100 sole (granted []) refl (omega arith) (omega arith)

alloc_lem_example :
    (p' : Pool (List MgnMemory)) × (alloc listed 4 (granted (8 ∷ 300 ∷ [])) ≡ (300, p'))
    × (p'.table ≡ (sole ∷ orphan ∷ []) ++ (record { m = 300; s = 4; r = 1; cb = none } ∷ []))
    × (p'.contents 300 ≡ replicate 4 0)
    × (p'.freed ≡ [])
alloc_lem_example =
    alloc_lem listed (granted (8 ∷ 300 ∷ [])) 4 8 300 [] (λ e. absurd (omega (arith, e)))
      (λ e. absurd (omega (arith, e))) (λ e. absurd (omega (arith, e))) refl refl

ralloc_grown_example :
    (p' : Pool (List MgnMemory)) × (ralloc listed 100 4 (granted (300 ∷ [])) ≡ (300, p'))
    × (p'.table ≡ remove 100 (sole ∷ orphan ∷ []) ++ (record sole { m = 300; s = 4 } ∷ []))
    × (p'.contents 300 ≡ pair ++ replicate 2 0)
    × (p'.freed ≡ 100 ∷ [])
    × (p'.overrun ≡ false)
ralloc_grown_example =
    ralloc_grown listed (granted (300 ∷ [])) 100 4 300 [] sole refl refl (omega arith) (omega arith)
      refl (λ e. absurd (omega (arith, e))) (λ e. absurd (omega (arith, e))) refl

ralloc_lost_example :
    (p' : Pool (List MgnMemory)) × (ralloc listed 100 4 (granted (0 ∷ [])) ≡ (null, p'))
    × (p'.table ≡ remove 100 (sole ∷ orphan ∷ []))
    × (p'.freed ≡ [])
ralloc_lost_example =
    ralloc_lost listed (granted (0 ∷ [])) 100 4 [] sole refl refl (omega arith) refl

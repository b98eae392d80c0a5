-- ===== src/Mmo/Tests.antt =====
-- mmo/mmo.h: the laws at a concrete ring.
use lc_clibs.Base.{
  ℕ, zero, suc, ◌<◌, ◌≡◌, refl, arith, Bool, true, false, not, Option, none, some, List, [], ◌∷◌,
  ◌++◌, get_elem?, ◌==◌,
}
use lc_clibs.Mmo.Chain.{StruBase, nowhere, structure, to_class, is_class, is_mmobj_kind_of_oid}
use lc_clibs.Mmo.Cast.{DistinctIds, to_class_found, to_class_absent, is_mmobj_kind_of_oid_lem}
use lc_clibs.Mmo.Compare.{Ref}
use lc_clibs.Mmo.Birth.{release, inits, undone, alloc_class, alloc_class_fails}

abbrev root : StruBase
root = record { oid = 11; name = 82 ∷ [] }

abbrev child : StruBase
child = record { oid = 22; name = 67 ∷ [] }

abbrev family : List StruBase
family = root ∷ child ∷ []

family-DistinctIds : DistinctIds family
family-DistinctIds zero zero a b g h e = refl
family-DistinctIds zero (suc zero) a b g h e = absurd (ground arith)
family-DistinctIds (suc zero) zero a b g h e = absurd (ground arith)
family-DistinctIds (suc zero) (suc zero) a b g h e = refl
family-DistinctIds (suc (suc i)) j a b g h e = absurd (ground arith)
family-DistinctIds zero (suc (suc j)) a b g h e = absurd (ground arith)
family-DistinctIds (suc zero) (suc (suc j)) a b g h e = absurd (ground arith)

family-absent : (k : ℕ) (b : StruBase) → get_elem? family k ≡ some b → 33 ≡ b.oid → ⊥
family-absent zero b g e = absurd (ground arith)
family-absent (suc zero) b g e = absurd (ground arith)
family-absent (suc (suc k)) b g e = absurd (ground arith)

to_class_found_example : to_class 3 family (some 1) 11 ≡ structure 0
to_class_found_example =
    to_class_found family family-DistinctIds 3 1 0 child root refl refl (omega arith) (omega arith)
      (omega arith)

to_class_absent_example : to_class 4 family (some 0) 33 ≡ nowhere
to_class_absent_example =
    to_class_absent family 4 0 33 root refl (omega arith) family-absent (omega arith)

is_mmobj_kind_of_oid_lem_example :
    (is_class 4 family (some 1) 11 ≡ some true)
    × (is_mmobj_kind_of_oid 4 family (some 1) 11 ≡ some false)
    × (is_class 4 family none 11 ≡ some false)
    × (is_mmobj_kind_of_oid 4 family none 11 ≡ some false)
is_mmobj_kind_of_oid_lem_example =
    is_mmobj_kind_of_oid_lem 4 family 1 11 child family-DistinctIds refl (omega arith) (omega arith)

-- Only the structure at 1 fails.
abbrev fails_at_1 : ℕ → Bool
fails_at_1 k = not (k == 1)

before_1 : (k : ℕ) → k < 1 → fails_at_1 k ≡ true
before_1 k h = ground arith

alloc_class_fails_example :
    alloc_class fails_at_1 2 ≡ (false, (inits 1 ++ undone 1) ++ (release ∷ []))
alloc_class_fails_example = alloc_class_fails fails_at_1 2 1 (omega arith) before_1 refl

abbrev one : Option Ref
one = some (record { address = 64; ring = family; place = 0 })

abbrev other : Option Ref
other = some (record { address = 96; ring = family; place = 1 })

abbrev never : List ℕ → List ℕ → ℕ
never a b = 5

abbrev always : Ref → Ref → ℕ
always a b = 0

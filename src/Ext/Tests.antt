-- ===== src/Ext/Tests.antt =====
-- mmo/mmo_ext.h: the laws at concrete containers, with the list of the elements as table.
use lc_clibs.Base.{
  ℕ, ◌≡◌, ◌<◌, ◌^◌, refl, arith, true, none, some, List, [], ◌∷◌, if◌then◌else◌, sub32,
}
use lc_clibs.Ext.Hash.{Hash}
use lc_clibs.Ext.Listed.{listed, bytes_key}
use lc_clibs.Ext.Map.{MmMapItem, MmMap, add_mmmap_item, remove_mmmap_item, get_mmmap_item_value}
use lc_clibs.Ext.MapUpdates.{IsMap, add_mmmap_item_lem, remove_mmmap_item_lem}
use lc_clibs.Ext.Number.{
  compare_for_mmint, compare_for_mmlong, compare_for_mmlong_lem, compare_for_mmint_wraps,
}

-- Keys of one byte, values that are numbers.
abbrev table : Hash (List ℕ) (MmMapItem ℕ ℕ) (List (List ℕ × MmMapItem ℕ ℕ))
table = listed bytes_key

abbrev one_byte : ℕ → List ℕ
one_byte k = k ∷ []

abbrev colours : MmMap (List (List ℕ × MmMapItem ℕ ℕ))
colours = record {
  sorted = true;
  root_item =
      (2 ∷ [], record { key = 2; value = 20 }) ∷ (7 ∷ [], record { key = 7; value = 70 }) ∷ [];
}

add_mmmap_item_lem_example :
    IsMap table one_byte sub32 sub32
      (add_mmmap_item table one_byte sub32 sub32 colours (some 2) (some 21))
    × ((j : ℕ)
        → get_mmmap_item_value table one_byte sub32 sub32
            (add_mmmap_item table one_byte sub32 sub32 colours (some 2) (some 21))
            (some j)
          ≡ (if table.key.same (2 ∷ []) (j ∷ [])
              then some 21
              else get_mmmap_item_value table one_byte sub32 sub32 colours (some j)))
add_mmmap_item_lem_example =
    add_mmmap_item_lem table one_byte sub32 sub32 colours (refl, (refl, tt)) 2 21

remove_mmmap_item_lem_example :
    IsMap table one_byte sub32 sub32 (remove_mmmap_item table one_byte sub32 sub32 colours (some 2))
    × ((j : ℕ)
        → get_mmmap_item_value table one_byte sub32 sub32
            (remove_mmmap_item table one_byte sub32 sub32 colours (some 2))
            (some j)
          ≡ (if table.key.same (2 ∷ []) (j ∷ [])
              then none
              else get_mmmap_item_value table one_byte sub32 sub32 colours (some j)))
remove_mmmap_item_lem_example =
    remove_mmmap_item_lem table one_byte sub32 sub32 colours (refl, (refl, tt)) 2

compare_for_mmlong_lem_example : compare_for_mmlong 0xffffffffffffffff 5 ≡ 0xffffffff
compare_for_mmlong_lem_example =
    compare_for_mmlong_lem 0xffffffffffffffff 5 (omega arith) (omega arith) (omega arith)
      (omega arith)

compare_for_mmint_wraps_example :
    (0 < compare_for_mmint 0x80000000 5) × (compare_for_mmint 0x80000000 5 < 2 ^ 31)
compare_for_mmint_wraps_example =
    compare_for_mmint_wraps 0x80000000 5 (omega arith) (omega arith) (omega arith)

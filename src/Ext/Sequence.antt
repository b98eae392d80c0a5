-- ===== src/Ext/Sequence.antt =====
-- mmo/mmo_ext.h: `MMList`, as the list of its items from the first to the last. The array of
-- platform/utarray.h is that list; its element functions retain and release, which is left out.
use lc_clibs.Base.{
  ℕ, not, Option, none, some, List, [], ◌∷◌, ◌++◌, if◌then◌else◌, ◌==◌, u32, sub32, length,
  get_elem?, take, drop,
}

module _ {O : Type 0} where
  unfoldable pub size_of_mmlist : List O → ℕ
  size_of_mmlist items = u32 (length items)

  unfoldable pub push_mmlist_item : List O → O → List O
  push_mmlist_item items item = items ++ (item ∷ [])

  -- `utarray_back`: null for an empty array, and the pointer is followed, so none is a fault.
  abbrev pub get_last_item_from_mmlist : List O → Option O
  get_last_item_from_mmlist [] = none
  get_last_item_from_mmlist (x ∷ []) = some x
  get_last_item_from_mmlist (x ∷ (y ∷ ys)) = get_last_item_from_mmlist (y ∷ ys)

  -- `utarray_pop_back`
  abbrev pub pop_back : List O → List O
  pop_back [] = []
  pop_back (x ∷ []) = []
  pop_back (x ∷ (y ∷ ys)) = x ∷ pop_back (y ∷ ys)

  -- The item and what is left; none is a fault.
  unfoldable pub pop_mmlist_item : List O → Option (O × List O)
  pop_mmlist_item items = elim (get_last_item_from_mmlist items) [
    | none ↦ none
    | some obj ↦ some (obj, pop_back items)
  ]

  -- `utarray_insert` moves what stands from the index on.
  unfoldable pub insert_mmlist_item : List O → O → ℕ → List O
  insert_mmlist_item items item idx = take idx items ++ (item ∷ drop idx items)

  -- `utarray_eltptr` is null out of range, and the pointer is followed: none is a fault.
  unfoldable pub get_mmlist_item : List O → ℕ → Option O
  get_mmlist_item items idx = get_elem? items idx

  unfoldable pub concat_mmlist : List O → List O → List O
  concat_mmlist dest_list a_list = dest_list ++ a_list

  module _ (compare_o : O → O → ℕ) where
    -- The loop of `compareForMMList`, over arrays of the same size.
    abbrev pub compare_each : List O → List O → ℕ
    compare_each [] those = 0
    compare_each (a ∷ these) [] = 0
    compare_each (a ∷ these) (b ∷ those) =
        let diff = compare_o a b in
        let rest = compare_each these those in if not (diff == 0) then diff else rest

    unfoldable pub compare_for_mmlist : List O → List O → ℕ
    unfolding size_of_mmlist
    compare_for_mmlist this_list that_list =
        let this_size = size_of_mmlist this_list in
        let that_size = size_of_mmlist that_list in
        if not (this_size == that_size)
        then sub32 this_size that_size
        else compare_each this_list that_list

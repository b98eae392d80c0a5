-- ===== src/Ext/Map.antt =====
-- mmo/mmo_ext.h: `MMMap` and `MMMapItem`, as values. Who owns a key or a value is left out: the calls
-- of `retain_mmobj` and `release_mmobj` keep each alive as long as an item refers to it.
use lc_clibs.Base.{
  ℕ, Bool, true, false, not, ◌&&◌, Option, none, some, List, [], ◌∷◌, if◌then◌else◌, ◌==◌, u32,
  sub32, ltb,
}
use lc_clibs.Ext.Hash.{Hash}

-- `P` stands for the pointers to `MMPrimary`, `O` for those to `MMObject`.
pub record MmMapItem (P O : Type 0) : Type 0 where
  pub key : P
  pub value : O

pub record MmMap (T : Type 0) : Type 0 where
  pub sorted : Bool
  pub root_item : T

-- An `int` is its 32 bits.
abbrev pub is_positive : ℕ → Bool
is_positive v = not (v == 0) && ltb v 0x80000000

abbrev pub minus_one : ℕ
minus_one = 0xffffffff

-- `hash_of` is what `hash_of_mmobj` gives for a key: the bytes at the pointer and their number.
module _ {P O T : Type 0} (hash : Hash (List ℕ) (MmMapItem P O) T) (hash_of : P → List ℕ)
    (compare_p : P → P → ℕ) (compare_o : O → O → ℕ) where
  unfoldable pub compare_for_mmmap_item : MmMapItem P O → MmMapItem P O → ℕ
  compare_for_mmmap_item this_mi that_mi =
      let diff = compare_p this_mi.key that_mi.key in
      if not (diff == 0) then diff else compare_o this_mi.value that_mi.value

  -- `allocMMMap` and `allocMMMapSorted`
  abbrev pub alloc_mmmap : MmMap T
  alloc_mmmap = record { sorted = false; root_item = hash.empty }

  abbrev pub alloc_mmmap_sorted : MmMap T
  alloc_mmmap_sorted = record alloc_mmmap { sorted = true }

  unfoldable pub size_of_mmmap : MmMap T → ℕ
  size_of_mmmap map = u32 (hash.count map.root_item)

  -- The insertion at the end of `addMMMapItem`.
  unfoldable pub insert_item : Bool → T → List ℕ → MmMapItem P O → T
  unfolding compare_for_mmmap_item
  insert_item true t k item =
      hash.add_inorder (λ x e. is_positive (compare_for_mmmap_item x.1 e.1)) t k item
  insert_item false t k item = hash.add t k item

  -- `HASH_DEL` of the item found.
  abbrev pub deleted : T → List ℕ → Option (MmMapItem P O) → T
  deleted t k none = t
  deleted t k (some old) = hash.del t k

  unfoldable pub add_mmmap_item : MmMap T → Option P → Option O → MmMap T
  unfolding insert_item
  add_mmmap_item map none value = map
  add_mmmap_item map (some key) none = map
  add_mmmap_item map (some key) (some value) =
      let hash_key = hash_of key in
      let item : MmMapItem P O = record { key = key; value = value } in
      let table = deleted map.root_item hash_key (hash.find map.root_item hash_key) in
      record map { root_item = insert_item map.sorted table hash_key item }

  unfoldable pub get_mmmap_item_value : MmMap T → Option P → Option O
  get_mmmap_item_value map none = none
  get_mmmap_item_value map (some key) = elim (hash.find map.root_item (hash_of key)) [
    | none ↦ none
    | some item ↦ some item.value
  ]

  unfoldable pub remove_mmmap_item : MmMap T → Option P → MmMap T
  remove_mmmap_item map none = map
  remove_mmmap_item map (some key) = elim (hash.find map.root_item (hash_of key)) [
    | none ↦ map
    | some item ↦ record map { root_item = hash.del map.root_item (hash_of key) }
  ]

  -- The loop of `compareForMMMap` and the two tests behind it.
  abbrev pub compare_items : List (List ℕ × MmMapItem P O) → List (List ℕ × MmMapItem P O) → ℕ
  compare_items [] [] = 0
  compare_items [] ((k, that_item) ∷ those) = minus_one
  compare_items ((j, this_item) ∷ these) [] = 1
  compare_items ((j, this_item) ∷ these) ((k, that_item) ∷ those) =
      let diff_key = compare_p this_item.key that_item.key in
      let diff_value = compare_o this_item.value that_item.value in
      let rest = compare_items these those in
      if not (diff_key == 0) then diff_key else if not (diff_value == 0) then diff_value else rest

  unfoldable pub compare_for_mmmap : MmMap T → MmMap T → ℕ
  unfolding size_of_mmmap
  compare_for_mmmap this_map that_map =
      let this_size = size_of_mmmap this_map in
      let that_size = size_of_mmmap that_map in
      if not (this_size == that_size)
      then sub32 this_size that_size
      else compare_items (hash.iter this_map.root_item) (hash.iter that_map.root_item)

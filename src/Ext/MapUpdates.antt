-- ===== src/Ext/MapUpdates.antt =====
-- mmo/mmo_ext.h: `addMMMapItem` and `removeMMMapItem` as changes to `getMMMapItemValue`.
use lc_clibs.Base.{
  ℕ, ◌≡◌, sym, ◌∙◌, ap, Bool, true, false, Option, none, some, List, if◌then◌else◌, Option-cases,
  Bool-cases, inl, inr,
}
use mathlib.Core.Path.{subst}
use lc_clibs.Ext.Hash.{Hash, lookup, remove, insert_inorder}
use lc_clibs.Ext.Map.{
  MmMapItem, MmMap, deleted, is_positive, compare_for_mmmap_item, insert_item, add_mmmap_item,
  get_mmmap_item_value, remove_mmmap_item,
}
use lc_clibs.Ext.MapLaws.{
  DistinctKeys, update, lookup-remove, lookup-insert_inorder, remove-absent, DistinctKeys-remove,
  DistinctKeys-insert_inorder, append-insert_inorder,
}

module _ {P O T : Type 0} (hash : Hash (List ℕ) (MmMapItem P O) T) (hash_of : P → List ℕ)
    (compare_p : P → P → ℕ) (compare_o : O → O → ℕ) where
  -- The map's keys differ.
  abbrev pub IsMap : MmMap T → Type 0
  IsMap map = DistinctKeys hash.key (hash.iter map.root_item)

  abbrev value_of : Option (MmMapItem P O) → Option O
  value_of none = none
  value_of (some item) = some item.value

  get_lem :
      (map : MmMap T) (j : P)
      → get_mmmap_item_value hash hash_of compare_p compare_o map (some j)
        ≡ value_of (lookup hash.key (hash_of j) (hash.iter map.root_item))
  unfolding get_mmmap_item_value
  get_lem map j = elim (Option-cases (lookup hash.key (hash_of j) (hash.iter map.root_item))) [
    | inl n ↦ rw (get_mmmap_item_value, hash.find_law map.root_item (hash_of j), n)
    | inr (v, e) ↦ rw (get_mmmap_item_value, hash.find_law map.root_item (hash_of j), e)
  ]

  abbrev item_after : List ℕ × MmMapItem P O → List ℕ × MmMapItem P O → Bool
  item_after x e = is_positive (compare_for_mmmap_item hash hash_of compare_p compare_o x.1 e.1)

  insert_item_lem :
      (s : Bool) (t : T) (k : List ℕ) (item : MmMapItem P O)
      → (after : List ℕ × MmMapItem P O → List ℕ × MmMapItem P O → Bool) × (hash.iter
            (insert_item hash hash_of compare_p compare_o s t k item)
          ≡ insert_inorder after (k, item) (hash.iter t))
  unfolding insert_item
  insert_item_lem true t k item = (item_after, hash.add_inorder_law item_after t k item)
  insert_item_lem false t k item =
      ((λ x e. false), hash.add_law t k item ∙ append-insert_inorder hash.key k item (hash.iter t))

  iter-deleted :
      (t : T) (k : List ℕ) (o : Option (MmMapItem P O))
      → lookup hash.key k (hash.iter t) ≡ o
      → hash.iter (deleted hash hash_of compare_p compare_o t k o) ≡ remove hash.key k (hash.iter t)
  iter-deleted t k none n = sym (remove-absent hash.key k (hash.iter t) n)
  iter-deleted t k (some old) e = hash.del_law t k

  module _ (map : MmMap T) (distinct : IsMap map) where
    get_removed :
        (k : List ℕ) (j : P)
        → value_of (lookup hash.key (hash_of j) (remove hash.key k (hash.iter map.root_item))) ≡ (
            if hash.key.same k (hash_of j)
            then none
            else get_mmmap_item_value hash hash_of compare_p compare_o map (some j))
    get_removed k j =
        let gone = lookup-remove hash.key k (hash_of j) (hash.iter map.root_item) distinct in
        elim (Bool-cases (hash.key.same k (hash_of j))) [
          | inl e ↦ rw (e, gone, e)
          | inr e ↦ rw (e, gone, e) (sym (get_lem map j))
        ]

    -- In a map, sorted or not, whose keys differ, `addMMMapItem` of a key and a value that are not null
    -- gives a map whose keys differ; `getMMMapItemValue` of a key with the same hash key gives the
    -- new value, and of any other key what it gave before.
    pub add_mmmap_item_lem :
        (key : P) (value : O)
        → IsMap (add_mmmap_item hash hash_of compare_p compare_o map (some key) (some value))
          × ((j : P)
              → get_mmmap_item_value hash hash_of compare_p compare_o
                  (add_mmmap_item hash hash_of compare_p compare_o map (some key) (some value))
                  (some j)
                ≡ (if hash.key.same (hash_of key) (hash_of j)
                    then some value
                    else get_mmmap_item_value hash hash_of compare_p compare_o map (some j)))
    unfolding add_mmmap_item
    add_mmmap_item_lem key value =
        let k : List ℕ = hash_of key in
        let item : MmMapItem P O = record { key = key; value = value } in
        let es : List (List ℕ × MmMapItem P O) = hash.iter map.root_item in
        let t : T =
          deleted hash hash_of compare_p compare_o map.root_item k (hash.find map.root_item k) in
        let (after, put) = insert_item_lem map.sorted t k item in
        let all : hash.iter (insert_item hash hash_of compare_p compare_o map.sorted t k item)
            ≡ insert_inorder after (k, item) (remove hash.key k es) =
          put
          ∙ ap (insert_inorder after (k, item)) (
              iter-deleted map.root_item k (hash.find map.root_item k)
                (sym (hash.find_law map.root_item k))) in
        let absent : lookup hash.key k (remove hash.key k es) ≡ none =
          lookup-remove hash.key k k es distinct ∙ rw (hash.key.same_self k) in
        (
          subst (DistinctKeys hash.key) (sym all) (
              DistinctKeys-insert_inorder hash.key after k item (remove hash.key k es) absent
                (DistinctKeys-remove hash.key k es distinct)),
          λ j.
              get_lem _ j
              ∙ ap (λ x. value_of (lookup hash.key (hash_of j) x)) all
              ∙ ap value_of (
                  lookup-insert_inorder hash.key after k (hash_of j) item (remove hash.key k es)
                    absent)
              ∙ changed item j,
        )
      where
        changed :
            (item : MmMapItem P O) (j : P)
            → value_of (
                update hash.key
                  (λ x. lookup hash.key x (remove hash.key (hash_of key) (hash.iter map.root_item)))
                  (hash_of key)
                  (some item)
                  (hash_of j))
              ≡ (if hash.key.same (hash_of key) (hash_of j)
                  then some item.value
                  else get_mmmap_item_value hash hash_of compare_p compare_o map (some j))
        changed item j = elim (Bool-cases (hash.key.same (hash_of key) (hash_of j))) [
          | inl e ↦ rw e
          | inr e ↦ rw e (get_removed (hash_of key) j ∙ rw e)
        ]

    -- In a map whose keys differ, `removeMMMapItem` of a key that is not null gives a map whose keys
    -- differ; `getMMMapItemValue` of a key with the same hash key gives null, and of any other key
    -- what it gave before.
    pub remove_mmmap_item_lem :
        (key : P)
        → IsMap (remove_mmmap_item hash hash_of compare_p compare_o map (some key))
          × ((j : P)
              → get_mmmap_item_value hash hash_of compare_p compare_o
                  (remove_mmmap_item hash hash_of compare_p compare_o map (some key))
                  (some j)
                ≡ (if hash.key.same (hash_of key) (hash_of j)
                    then none
                    else get_mmmap_item_value hash hash_of compare_p compare_o map (some j)))
    unfolding remove_mmmap_item
    remove_mmmap_item_lem key = (
      subst (DistinctKeys hash.key) (sym all)
          (DistinctKeys-remove hash.key (hash_of key) (hash.iter map.root_item) distinct),
      λ j.
          get_lem _ j
          ∙ ap (λ x. value_of (lookup hash.key (hash_of j) x)) all
          ∙ get_removed (hash_of key) j,
    )
      where
        all :
            hash.iter (remove_mmmap_item hash hash_of compare_p compare_o map (some key)).root_item
            ≡ remove hash.key (hash_of key) (hash.iter map.root_item)
        all = elim (Option-cases (lookup hash.key (hash_of key) (hash.iter map.root_item))) [
          | inl n ↦
              rw (remove_mmmap_item, hash.find_law map.root_item (hash_of key), n)
                (sym (remove-absent hash.key (hash_of key) (hash.iter map.root_item) n))
          | inr (v, e) ↦
              rw (remove_mmmap_item, hash.find_law map.root_item (hash_of key), e)
                (hash.del_law map.root_item (hash_of key))
        ]

-- ===== src/Pack/Unpacker.antt =====
-- mmo/mmo_pack.c: `MMUnpacker` and its stack. The containers that `process` builds are shared by
-- reference: they stand in a heap, and a pointer to one is its place. Allocations are taken to
-- succeed; a null pointer that is followed is a fault.
use lc_clibs.Base.{
  ℕ, Bool, Option, none, some, List, [], ◌∷◌, ◌++◌, if◌then◌else◌, ◌==◌, length, set, get_elem?,
}
use lc_clibs.Mem.{Mem}
use lc_clibs.Dybuf.State.{M, fault, pure, ◌>>=◌}
use lc_clibs.Dybuf.FloatCodec.{float_bytes}
use lc_clibs.Ext.Hash.{Hash}
use lc_clibs.Ext.Map.{MmMapItem, MmMap, alloc_mmmap, add_mmmap_item, get_mmmap_item_value}
use lc_clibs.Ext.Sequence.{push_mmlist_item}

-- The keys in use: `MMInt` by its 32 bits, `MMString` by its characters.
pub data Primary : Type 0 where
  mmint : ℕ → Primary
  mmstring : List ℕ → Primary

-- The bytes that are hashed: those of the `int` as the host keeps it, or the characters.
abbrev pub hash_of : Bool → Primary → List ℕ
hash_of host (mmint v) = float_bytes host v
hash_of host (mmstring chars) = chars

-- `MMObject`: a number, data, a string, a container of the heap, a reference to an unpacked object.
pub data Value : Type 0 where
  mmlong : ℕ → Value
  mmfloat : ℕ → Value
  mmdouble : ℕ → Value
  mmdata : Mem → Value
  mmint_value : ℕ → Value
  mmstring_value : List ℕ → Value
  container : ℕ → Value
  mmreference : ℕ → Value

-- A `TmpContext` is an `MMMap` too.
pub data Node (T : Type 0) : Type 0 where
  map : MmMap T → Node T
  tmp_context : MmMap T → Node T
  list : List Value → Node T

-- The stack's last item is the head of the list. A class name is none where its string was null.
pub record MmUnpacker (T N : Type 0) : Type 0 where
  pub heap : List (Node T)
  pub stack : List ℕ
  pub roots : Option ℕ
  pub objects : MmMap T
  pub last_object_num : Option ℕ
  pub id_to_class_name : N
  pub current_obj : Option ℕ
  pub current_obj_num : ℕ

-- A pointer that is followed.
abbrev pub demand : {A : Type 0} → Option A → M A
demand none = λ m d. fault
demand (some a) = pure a

-- `while (getLastItemFromMMList(unpkr->stack) != current_obj) popMMListItem(unpkr->stack);`
abbrev pub above : ℕ → List ℕ → Option (List ℕ)
above current [] = none
above current (c ∷ rest) = if c == current then some (c ∷ rest) else above current rest

module _ {T N : Type 0} where
  -- `getLastItemFromMMList(unpkr->stack)`
  abbrev pub last_item : MmUnpacker T N → Option ℕ
  last_item u = elim u.stack [ [] ↦ none | ◌∷◌ c rest ↦ some c ]

  unfoldable pub push_container : ℕ → MmUnpacker T N → MmUnpacker T N
  push_container c u = record u { stack = c ∷ u.stack }

  -- `popMMListItem(unpkr->stack)`
  abbrev pub popped : MmUnpacker T N → List ℕ → Option (MmUnpacker T N)
  popped u [] = none
  popped u (c ∷ rest) = some (record u { stack = rest })

  unfoldable pub pop_container : MmUnpacker T N → M (MmUnpacker T N)
  pop_container u = demand (popped u u.stack)

  unfoldable pub pop_to_object : ℕ → MmUnpacker T N → M (MmUnpacker T N)
  pop_to_object current u = do
    stack ← demand (above current u.stack)
    pure (record u { stack = stack })

  unfoldable pub alloc_node : Node T → MmUnpacker T N → ℕ × MmUnpacker T N
  alloc_node n u = (length u.heap, record u { heap = u.heap ++ (n ∷ []) })

module _ {T : Type 0} (hash : Hash (List ℕ) (MmMapItem Primary Value) T) (host : Bool)
    (compare_p : Primary → Primary → ℕ) (compare_o : Value → Value → ℕ) where
  abbrev pub new_map : MmMap T
  new_map = alloc_mmmap hash (hash_of host) compare_p compare_o

  abbrev pub add_item : MmMap T → Primary → Value → MmMap T
  add_item m k v = add_mmmap_item hash (hash_of host) compare_p compare_o m (some k) (some v)

  abbrev pub get_item : MmMap T → Primary → Option Value
  get_item m k = get_mmmap_item_value hash (hash_of host) compare_p compare_o m (some k)

  -- `pushIntoStack` on the container that is last.
  abbrev pub with_value : ℕ → Value → Node T → Node T
  with_value index value (map m) = map (add_item m (mmint index) value)
  with_value index value (tmp_context m) = tmp_context (add_item m (mmint index) value)
  with_value index value (list items) = list (push_mmlist_item items value)

  unfoldable pub push_into_stack : {N : Type 0} → ℕ → Value → MmUnpacker T N → M (MmUnpacker T N)
  push_into_stack index value u = do
    c ← demand (last_item u)
    n ← demand (get_elem? u.heap c)
    pure (record u { heap = set u.heap c (with_value index value n) })

  -- `pushKeyVal`: a list is left as it is.
  abbrev pub with_key_val : List ℕ → Value → Node T → Node T
  with_key_val key value (map m) = map (add_item m (mmstring key) value)
  with_key_val key value (tmp_context m) = tmp_context (add_item m (mmstring key) value)
  with_key_val key value (list items) = list items

  unfoldable pub push_key_val : {N : Type 0} → List ℕ → Value → MmUnpacker T N → M (MmUnpacker T N)
  push_key_val key value u = do
    c ← demand (last_item u)
    n ← demand (get_elem? u.heap c)
    pure (record u { heap = set u.heap c (with_key_val key value n) })

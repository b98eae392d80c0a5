-- ===== src/Pack/Getters.antt =====
-- mmo/mmo_pack.c: what `fn_init` of an object asks of `MMUnpacker`.
use lc_clibs.Base.{ℕ, Bool, Option, none, some, List, [], ◌∷◌, get_elem?}
use lc_clibs.Mem.{Mem}
use lc_clibs.Dybuf.State.{M, fault, pure, ◌>>=◌}
use lc_clibs.Ext.Hash.{Hash}
use lc_clibs.Ext.Map.{MmMapItem, MmMap}
use lc_clibs.Ext.Sequence.{size_of_mmlist, get_mmlist_item}
use lc_clibs.Pack.Codes.{class_name_key}
use lc_clibs.Pack.Unpacker.{
  Primary, mmint, mmstring, Value, mmlong, mmfloat, mmdouble, mmdata, mmint_value, mmstring_value,
  container, mmreference, Node, map, tmp_context, list, MmUnpacker, demand, last_item,
  push_container, pop_container, get_item, add_item,
}
use lc_clibs.Pack.Process.{Round, next, refused, process}

-- The casts of the getters: 0 or null where the object is another.
abbrev pub long_of : Option Value → ℕ
long_of (some (mmlong v)) = v
long_of _ = 0

abbrev pub float_of : Option Value → ℕ
float_of (some (mmfloat v)) = v
float_of _ = 0

abbrev pub double_of : Option Value → ℕ
double_of (some (mmdouble v)) = v
double_of _ = 0

abbrev pub data_in : Option Value → Option Mem
data_in (some (mmdata bytes)) = some bytes
data_in _ = none

-- `toMMInt` of what stands for an object.
abbrev pub number_of : Option Value → Option ℕ
number_of (some (mmint_value v)) = some v
number_of _ = none

abbrev pub container_of : Option Value → Option ℕ
container_of (some (container c)) = some c
container_of _ = none

abbrev pub reference_of : Option Value → Option ℕ
reference_of (some (mmreference r)) = some r
reference_of _ = none

abbrev pub string_of : Option Value → Option (List ℕ)
string_of (some (mmstring_value chars)) = some chars
string_of _ = none

-- `toMMMap`, `toMMList` and `toTmpContext` of a container.
abbrev pub map_of : {T : Type 0} → Node T → Option (MmMap T)
map_of (map m) = some m
map_of (tmp_context m) = some m
map_of (list items) = none

module _ {T N : Type 0} (hash : Hash (List ℕ) (MmMapItem Primary Value) T)
    (names : Hash ℕ (Option (List ℕ)) N) (host : Bool) (compare_p : Primary → Primary → ℕ)
    (compare_o : Value → Value → ℕ) where
  abbrev pub value_at : ℕ → Node T → M (Option Value)
  value_at idx (map m) = pure (get_item hash host compare_p compare_o m (mmint idx))
  value_at idx (tmp_context m) = pure (get_item hash host compare_p compare_o m (mmint idx))
  value_at idx (list items) = do v ← demand (get_mmlist_item items idx); pure (some v)

  unfoldable pub get_by_int_from_stack : MmUnpacker T N → ℕ → M (Option Value)
  get_by_int_from_stack u idx = do
    c ← demand (last_item u)
    n ← demand (get_elem? u.heap c)
    value_at idx n

  abbrev pub value_named : List ℕ → Option (MmMap T) → Option Value
  value_named key none = none
  value_named key (some m) = get_item hash host compare_p compare_o m (mmstring key)

  unfoldable pub get_by_string_from_stack : MmUnpacker T N → List ℕ → M (Option Value)
  get_by_string_from_stack u key = do
    c ← demand (last_item u)
    n ← demand (get_elem? u.heap c)
    pure (value_named key (map_of n))

  -- `while (toTmpContext(getLastItemFromMMList(unpacker->stack))!=null)`
  abbrev pub below_contexts : List (Node T) → List ℕ → Option (List ℕ)
  below_contexts heap [] = none
  below_contexts heap (c ∷ rest) = elim (get_elem? heap c) [
    | some (tmp_context m) ↦ below_contexts heap rest
    | _ ↦ some (c ∷ rest)
  ]

  unfoldable pub pop_context_in_stack : MmUnpacker T N → M (MmUnpacker T N)
  pop_context_in_stack u = do
    stack ← demand (below_contexts u.heap u.stack)
    pure (record u { stack = stack })

  -- `if (unpacker->roots==null) process(unpacker);` what it returns is not looked at.
  abbrev pub state_of : Option (Round (MmUnpacker T N)) → M (MmUnpacker T N)
  state_of none = λ m d. fault
  state_of (some (next u)) = pure u
  state_of (some (refused u)) = pure u

  unfoldable pub ready : ℕ → MmUnpacker T N → M (MmUnpacker T N)
  ready n u = elim u.roots [
    | some roots ↦ pure u
    | none ↦ (do done ← process hash names host compare_p compare_o n u; state_of done)
  ]

  module _ (n : ℕ) where
    unfoldable pub unpack_var_int64 : ℕ → MmUnpacker T N → M (ℕ × MmUnpacker T N)
    unfolding ready get_by_int_from_stack
    unpack_var_int64 key u = do
      v ← ready n u
      obj ← get_by_int_from_stack v key
      pure (long_of obj, v)

    unfoldable pub unpack_float : ℕ → MmUnpacker T N → M (ℕ × MmUnpacker T N)
    unfolding ready get_by_int_from_stack
    unpack_float key u = do v ← ready n u; obj ← get_by_int_from_stack v key; pure (float_of obj, v)

    unfoldable pub unpack_double : ℕ → MmUnpacker T N → M (ℕ × MmUnpacker T N)
    unfolding ready get_by_int_from_stack
    unpack_double key u = do
      v ← ready n u
      obj ← get_by_int_from_stack v key
      pure (double_of obj, v)

    unfoldable pub unpack_data : ℕ → MmUnpacker T N → M (Option Mem × MmUnpacker T N)
    unfolding ready get_by_int_from_stack
    unpack_data key u = do v ← ready n u; obj ← get_by_int_from_stack v key; pure (data_in obj, v)

    -- The list goes on the stack, and its size is returned; 0 where there is no list.
    abbrev pub entered_list : MmUnpacker T N → ℕ → Option (Node T) → ℕ × MmUnpacker T N
    entered_list v c (some (list items)) = (size_of_mmlist items, push_container c v)
    entered_list v c _ = (0, v)

    unfoldable pub unpack_array : ℕ → MmUnpacker T N → M (ℕ × MmUnpacker T N)
    unfolding ready get_by_int_from_stack push_container
    unpack_array key u = do
      v ← ready n u
      obj ← get_by_int_from_stack v key
      pure (elim (container_of obj) [
        | none ↦ (0, v)
        | some c ↦ entered_list v c (get_elem? v.heap c)
      ])

    unfoldable pub unpack_array_end : ℕ → MmUnpacker T N → M (MmUnpacker T N)
    unfolding ready pop_container
    unpack_array_end key u = do v ← ready n u; pop_container v

    -- The object at `stru` takes the place of its properties among the objects, or the last context
    -- is left.
    unfoldable pub settle : ℕ → MmUnpacker T N → M (MmUnpacker T N)
    unfolding pop_context_in_stack
    settle stru v = elim v.last_object_num [
      | some num ↦ pure (record v {
        objects = add_item hash host compare_p compare_o v.objects (mmint num) (mmreference stru);
        last_object_num = none;
      })
      | none ↦ pop_context_in_stack v
    ]

    unfoldable pub unpack_next_context : ℕ → List ℕ → MmUnpacker T N → M (MmUnpacker T N)
    unfolding ready settle get_by_string_from_stack push_container
    unpack_next_context stru name u = do
      v ← ready n u
      settled ← settle stru v
      obj ← get_by_string_from_stack settled name
      pure (elim (container_of obj) [
        | none ↦ settled
        | some c ↦ elim (get_elem? settled.heap c) [
          | some (list items) ↦ settled
          | none ↦ settled
          | some n ↦ push_container c settled
        ]
      ])

    -- `allocators` are the functions that were registered by class name, or none, for the null map,
    -- before the first is; each makes an object, or null, and its `fn_init` may call the unpacker again.
    module _
        (allocators : Option
          (List ℕ → Option (MmUnpacker T N → M (Option ℕ × MmUnpacker T N)))) where
      -- Behind `alloc`: an object that asked for no context takes its place now.
      unfoldable pub finish_object : Option ℕ → MmUnpacker T N → M (Option ℕ × MmUnpacker T N)
      unfolding pop_context_in_stack pop_container
      finish_object ooo v = do
        left ← elim v.last_object_num [
          | some num ↦ pure (record v {
            objects = elim ooo [
              | none ↦ v.objects
              | some p ↦
                  add_item hash host compare_p compare_o v.objects (mmint num) (mmreference p)
            ];
            last_object_num = none;
          })
          | none ↦ pop_context_in_stack v
        ]
        w ← pop_container left
        pure (ooo, w)

      -- By the name of the class that the properties hold; the null map is followed.
      unfoldable pub unpack_class :
          ℕ → ℕ → Option (List ℕ) → MmUnpacker T N → M (Option ℕ × MmUnpacker T N)
      unfolding finish_object push_container
      unpack_class num c none v = pure (none, v)
      unpack_class num c (some name) v =
          let pushed = push_container c v in
          (do
            table ← demand allocators
            elim (table name) [
              | none ↦ pure (none, pushed)
              | some alloc ↦ (do
                made ← alloc (record pushed { last_object_num = some num })
                finish_object made.0 made.1)
            ])

      unfoldable pub unpack_from : ℕ → ℕ → MmUnpacker T N → M (Option ℕ × MmUnpacker T N)
      unfolding unpack_class
      unpack_from num c v = do
        n ← demand (get_elem? v.heap c)
        m ← demand (map_of n)
        unpack_class num c
            (string_of (get_item hash host compare_p compare_o m (mmstring class_name_key))) v

      -- `obj` stands for the object with the number, which is there already or is to be made.
      unfoldable pub unpack_known :
          ℕ → Option Value → MmUnpacker T N → M (Option ℕ × MmUnpacker T N)
      unfolding unpack_from
      unpack_known num obj v = elim (reference_of obj) [
        | some r ↦ pure (some r, v)
        | none ↦ (do c ← demand (container_of obj); unpack_from num c v)
      ]

      unfoldable pub unpack_object : ℕ → MmUnpacker T N → M (Option ℕ × MmUnpacker T N)
      unfolding ready get_by_int_from_stack unpack_known
      unpack_object key u = do
        v ← ready n u
        found ← get_by_int_from_stack v key
        elim found [
          | none ↦ pure (none, v)
          | some value ↦ (do
            num ← demand (number_of (some value))
            unpack_known num (get_item hash host compare_p compare_o v.objects (mmint num)) v)
        ]

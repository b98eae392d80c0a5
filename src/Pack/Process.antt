-- ===== src/Pack/Process.antt =====
-- mmo/mmo_pack.c: `process`, the state machine that reads the packed items.
use lc_clibs.Base.{
  ℕ, zero, suc, Bool, not, Option, none, some, List, [], if◌then◌else◌, ◌==◌, ltb, u32, add32,
}
use lc_clibs.Mem.{Mem}
use lc_clibs.Dybuf.State.{M, fault, pure, ◌>>=◌}
use lc_clibs.Dybuf.Resize.{get_remainder}
use lc_clibs.Dybuf.Typdex.{next_typdex}
use lc_clibs.Dybuf.VarInt.{next_var_u64, next_var_s64}
use lc_clibs.Dybuf.VarBlocks.{next_data_with_var_len, next_cstring_with_var_len, bytes_behind}
use lc_clibs.Dybuf.Float.{next_float, next_double}
use lc_clibs.Dypkt.Field.{chars_of}
use lc_clibs.Ext.Hash.{Hash}
use lc_clibs.Ext.Map.{MmMapItem}
use lc_clibs.Pack.Codes.{
  class_name_key, pkrdex_integer, pkrdex_float, pkrdex_double, pkrdex_raw, pkrdex_array,
  pkrdex_object_ref, pkrdex_object, pkrdex_context, pkrdex_db, pkrdb_class_names, pkrdex_function,
  pkrfn_version,
}
use lc_clibs.Pack.Unpacker.{
  Primary, mmint, Value, mmlong, mmfloat, mmdouble, mmdata, mmint_value, mmstring_value, container,
  map, tmp_context, list, MmUnpacker, demand, push_container, pop_container, pop_to_object,
  alloc_node, new_map, add_item, push_into_stack, push_key_val,
}

-- How a round ends: with the next one, or with `return false`.
pub data Round (U : Type 0) : Type 0 where
  next : U → Round U
  refused : U → Round U

-- `data[size-1]` follows the pointer where the size is not 0.
unfoldable pub read_raw : M Mem
read_raw = do
  p ← next_data_with_var_len
  run ← bytes_behind p.0 p.1
  elim run [ none ↦ (if p.1 == 0 then pure [] else (λ m d. fault)) | some bytes ↦ pure bytes ]

abbrev pub name_in : Option Mem → Option (List ℕ)
name_in none = none
name_in (some bytes) = some (chars_of bytes)

-- The pointer that `HASH_ADD_INT` keeps, by the characters behind it.
unfoldable pub read_name : M (Option (List ℕ))
read_name = do
  p ← next_cstring_with_var_len
  run ← bytes_behind p.0 (add32 p.1 1)
  pure (name_in run)

module _ {T N : Type 0} (hash : Hash (List ℕ) (MmMapItem Primary Value) T)
    (names : Hash ℕ (Option (List ℕ)) N) (host : Bool) (compare_p : Primary → Primary → ℕ)
    (compare_o : Value → Value → ℕ) where
  unfoldable pub put : ℕ → Value → MmUnpacker T N → M (Round (MmUnpacker T N))
  unfolding push_into_stack
  put index value u = do
    v ← push_into_stack hash host compare_p compare_o index value u
    pure (next v)

  -- The start of `process`: the roots' map is first on the stack.
  unfoldable pub start : MmUnpacker T N → MmUnpacker T N
  unfolding alloc_node push_container
  start u =
      let fresh = record u {
        objects = new_map hash host compare_p compare_o;
        stack = [];
        current_obj = none;
        current_obj_num = 0xffffffff;
      } in
      let (roots, u1) = alloc_node (map (new_map hash host compare_p compare_o)) fresh in
      push_container roots (record u1 { roots = some roots })

  unfoldable pub read_array : ℕ → MmUnpacker T N → M (Round (MmUnpacker T N))
  unfolding alloc_node push_into_stack push_container pop_container
  read_array index u = do
    size ← next_var_u64
    if ltb 0 size
        then (let (c, u1) = alloc_node (list []) u in
            do
              u2 ← push_into_stack hash host compare_p compare_o index (container c) u1
              pure (next (push_container c u2)))
        else (do v ← pop_container u; pure (next v))

  -- A new object: its map goes on the stack and among the objects, with the name of its class.
  unfoldable pub begin_object : ℕ → MmUnpacker T N → M (Round (MmUnpacker T N))
  unfolding alloc_node push_container push_key_val
  begin_object index u = do
    num ← next_var_u64
    let (c, u1) =
        alloc_node (map (new_map hash host compare_p compare_o))
          (record u { current_obj_num = index })
    let entered = record u1 { current_obj = some c }
    elim (names.find u.id_to_class_name (u32 num)) [
      | none ↦ pure (refused entered)
      | some name ↦ (do
        let pushed = push_container c entered
        let known = record pushed {
          objects =
              add_item hash host compare_p compare_o pushed.objects (mmint index) (container c);
        }
        chars ← demand name
        named ←
            push_key_val hash host compare_p compare_o class_name_key (mmstring_value chars) known
        pure (next named))
    ]

  unfoldable pub end_object : ℕ → ℕ → MmUnpacker T N → M (Round (MmUnpacker T N))
  unfolding pop_to_object pop_container
  end_object index current u = if not (u.current_obj_num == index) then pure (refused u) else (do
    bare ← pop_to_object current u
    v ← pop_container (record bare { current_obj_num = 0xffffffff; current_obj = none })
    pure (next v))

  unfoldable pub read_context : ℕ → MmUnpacker T N → M (Round (MmUnpacker T N))
  unfolding pop_to_object alloc_node push_key_val push_container
  read_context index u = elim u.current_obj [
    | none ↦ pure (refused u)
    | some current ↦ elim (names.find u.id_to_class_name index) [
      | none ↦ pure (refused u)
      | some name ↦ (do
        bare ← pop_to_object current u
        let (c, u1) = alloc_node (tmp_context (new_map hash host compare_p compare_o)) bare
        chars ← demand name
        named ← push_key_val hash host compare_p compare_o chars (container c) u1
        pure (next (push_container c named)))
    ]
  ]

  unfoldable pub read_class_name : MmUnpacker T N → M (Round (MmUnpacker T N))
  unfolding read_name
  read_class_name u = do
    num ← next_var_u64
    elim (names.find u.id_to_class_name (u32 num)) [
      | some known ↦ pure (refused u)
      | none ↦ (do
        name ← read_name
        pure (next (record u { id_to_class_name = names.add u.id_to_class_name (u32 num) name })))
    ]

  -- The body of the loop, behind `dyb_next_typdex`. Another version than 1 is only reported.
  unfoldable pub process_item : ℕ × ℕ → MmUnpacker T N → M (Round (MmUnpacker T N))
  unfolding put read_raw read_array begin_object end_object read_context read_class_name
  process_item (type, index) u =
      if type == pkrdex_integer
      then (do value ← next_var_s64; put index (mmlong value) u)
      else if type == pkrdex_float
      then (do value ← next_float host; put index (mmfloat value) u)
      else if type == pkrdex_double
      then (do value ← next_double host; put index (mmdouble value) u)
      else if type == pkrdex_raw
      then (do bytes ← read_raw; put index (mmdata bytes) u)
      else if type == pkrdex_array
      then read_array index u
      else if type == pkrdex_object_ref
      then (do num ← next_var_u64; put index (mmint_value (u32 num)) u)
      else if type == pkrdex_object
      then elim u.current_obj [
        | none ↦ begin_object index u
        | some current ↦ end_object index current u
      ]
      else if type == pkrdex_context
      then read_context index u
      else if type == pkrdex_db
      then (if index == pkrdb_class_names then read_class_name u else pure (refused u))
      else if type == pkrdex_function
      then (if index == pkrfn_version
          then (do version ← next_var_u64; pure (next u))
          else pure (refused u))
      else pure (refused u)

  -- `while (dyb_get_remainder(unpkr->dyb))`; none is fuel run out.
  unfoldable pub process_rest : ℕ → MmUnpacker T N → M (Option (Round (MmUnpacker T N)))
  unfolding process_item
  process_rest zero u = pure none
  process_rest (suc n) u =
      let rest = process_rest n in
      (do
        left ← get_remainder
        if left == 0 then pure (some (next u)) else (do
          typdex ← next_typdex
          round ← process_item typdex u
          elim round [ next v ↦ rest v | refused v ↦ pure (some (refused v)) ]))

  unfoldable pub process : ℕ → MmUnpacker T N → M (Option (Round (MmUnpacker T N)))
  unfolding start process_rest
  process n u = process_rest n (start u)

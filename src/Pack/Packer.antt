-- ===== src/Pack/Packer.antt =====
-- mmo/mmo_pack.c: `MMPacker`. The buffer `dyb` is the state of `M`; the allocations of table
-- elements are taken to succeed, and a packer is always what it is cast to.
use lc_clibs.Base.{
  ℕ, zero, suc, ◌+◌, ◌-◌, Bool, Option, none, some, List, [], ◌∷◌, if◌then◌else◌, length, ltb, u32,
  add32,
}
use lc_clibs.Mem.{Mem}
use lc_clibs.Dybuf.State.{M, fault, pure, ◌>>=◌, ◌>>◌}
use lc_clibs.Dybuf.Typdex.{append_typdex}
use lc_clibs.Dybuf.VarInt.{append_var_u64, append_var_s64}
use lc_clibs.Dybuf.VarBlocks.{append_data_with_var_len, append_cstring_with_var_len}
use lc_clibs.Dybuf.VarBlockCodec.{cstring}
use lc_clibs.Dybuf.Float.{append_float, append_double}
use lc_clibs.Ext.Hash.{Hash}
use lc_clibs.Pack.Codes.{
  pkrdex_integer, pkrdex_float, pkrdex_double, pkrdex_raw, pkrdex_array, pkrdex_object_ref,
  pkrdex_object, pkrdex_context, pkrdex_db, pkrdb_class_names, pkrdex_function, pkrfn_version,
  packer_version_v1,
}

unfoldable pub pack_var_int64 : ℕ → ℕ → M (Unit {0})
pack_var_int64 key value = do _ ← append_typdex pkrdex_integer key; append_var_s64 value

unfoldable pub pack_float : Bool → ℕ → ℕ → M (Unit {0})
pack_float host key value = do _ ← append_typdex pkrdex_float key; append_float host value

unfoldable pub pack_double : Bool → ℕ → ℕ → M (Unit {0})
pack_double host key value = do _ ← append_typdex pkrdex_double key; append_double host value

unfoldable pub pack_data : ℕ → Mem → ℕ → M (Unit {0})
pack_data key value len = do _ ← append_typdex pkrdex_raw key; append_data_with_var_len value len

-- `len+1` is a `uint`.
unfoldable pub pack_array : ℕ → ℕ → M (Unit {0})
pack_array key len = do _ ← append_typdex pkrdex_array key; append_var_u64 (add32 len 1)

unfoldable pub pack_array_end : ℕ → M (Unit {0})
pack_array_end key = do _ ← append_typdex pkrdex_array key; append_var_u64 0

-- What `pack` of an object calls, class by class from the root: `packNextContext` with the name of
-- the class, then the calls of its `fn_pack`. An object is its address.
pub data PackCall : Type 0 where
  varint : ℕ → ℕ → PackCall
  float double : ℕ → ℕ → PackCall
  data_of : ℕ → Mem → PackCall
  array : ℕ → ℕ → PackCall
  array_end : ℕ → PackCall
  object : ℕ → Option ℕ → PackCall

pub record Context : Type 0 where
  pub name : List ℕ
  pub calls : List PackCall

-- `name_of_last_mmobj` and what `pack` of the last child calls.
pub record Packable : Type 0 where
  pub name : List ℕ
  pub contexts : List Context

pub record MmPacker (I N : Type 0) : Type 0 where
  pub level : ℕ
  pub obj_to_id : I
  pub id_to_obj : I
  pub class_name_to_id : N

module _ {I N : Type 0} (ids : Hash ℕ ℕ I) (names : Hash (List ℕ) ℕ N) where
  -- `initMMPacker`, behind `dyb_create`: the version comes first.
  unfoldable pub init_mmpacker : M (MmPacker I N)
  init_mmpacker = do
    _ ← append_typdex pkrdex_function pkrfn_version
    append_var_u64 packer_version_v1
    pure (record {
      level = 0;
      obj_to_id = ids.empty;
      id_to_obj = ids.empty;
      class_name_to_id = names.empty;
    })

  unfoldable pub db_save_object_name : List ℕ → MmPacker I N → M (ℕ × MmPacker I N)
  db_save_object_name name packer = elim (names.find packer.class_name_to_id name) [
    | some i ↦ pure (i, packer)
    | none ↦
        (let i = names.count packer.class_name_to_id in
          do
            _ ← append_typdex pkrdex_db pkrdb_class_names
            append_var_u64 i
            append_cstring_with_var_len (cstring name)
            pure (i, record packer { class_name_to_id = names.add packer.class_name_to_id name i }))
  ]

  -- `save object reference`: the number of the object, a new one where it has none.
  unfoldable pub save_object_reference : ℕ → MmPacker I N → ℕ × MmPacker I N
  save_object_reference obj packer = elim (ids.find packer.obj_to_id obj) [
    | some i ↦ (i, packer)
    | none ↦
        (let idx = ids.count packer.obj_to_id in
          (
            idx,
            record packer {
              obj_to_id = ids.add packer.obj_to_id obj idx;
              id_to_obj = ids.add packer.id_to_obj idx obj;
            },
          ))
  ]

  unfoldable pub output_object_reference : ℕ → ℕ → MmPacker I N → M (MmPacker I N)
  unfolding save_object_reference
  output_object_reference key obj packer =
      let (i, packer) = save_object_reference obj packer in
      do _ ← append_typdex pkrdex_object_ref key; append_var_u64 (u32 i); pure packer

  unfoldable pub pack_next_context : List ℕ → MmPacker I N → M (MmPacker I N)
  unfolding db_save_object_name
  pack_next_context name packer = do
    saved ← db_save_object_name name packer
    _ ← append_typdex pkrdex_context saved.0
    pure saved.1

  -- `loop` is the loop over the objects that are waiting.
  module _ (host : Bool) (loop : ℕ → MmPacker I N → M (MmPacker I N)) where
    -- `_packObject_impl` inside the two changes of `level`.
    unfoldable pub pack_object : ℕ → Option ℕ → MmPacker I N → M (MmPacker I N)
    unfolding output_object_reference
    pack_object key none packer = pure packer
    pack_object key (some obj) packer =
        let inside = record packer { level = packer.level + 1 } in
        let processing_i = ids.count packer.obj_to_id in
        do
          referred ← output_object_reference key obj inside
          done ← (if ltb 1 referred.level then pure referred else loop processing_i referred)
          pure (record done { level = done.level - 1 })

    unfoldable pub run_call : PackCall → MmPacker I N → M (MmPacker I N)
    unfolding pack_object pack_var_int64 pack_float pack_double pack_data pack_array pack_array_end
    run_call (varint key value) packer = do pack_var_int64 key value; pure packer
    run_call (float key value) packer = do pack_float host key value; pure packer
    run_call (double key value) packer = do pack_double host key value; pure packer
    run_call (data_of key value) packer = do pack_data key value (length value); pure packer
    run_call (array key len) packer = do pack_array key len; pure packer
    run_call (array_end key) packer = do pack_array_end key; pure packer
    run_call (object key stru) packer = pack_object key stru packer

    unfoldable pub run_calls : List PackCall → MmPacker I N → M (MmPacker I N)
    unfolding run_call
    run_calls [] packer = pure packer
    run_calls (c ∷ cs) packer = do next ← run_call c packer; run_calls cs next

    unfoldable pub run_contexts : List Context → MmPacker I N → M (MmPacker I N)
    unfolding run_calls pack_next_context
    run_contexts [] packer = pure packer
    run_contexts (c ∷ cs) packer = do
      entered ← pack_next_context c.name packer
      next ← run_calls c.calls entered
      run_contexts cs next

  -- The loop of `_packObject_impl`, one object for each of the fuel; without fuel it faults, as where
  -- `id_to_obj` has no such number.
  module _ (host : Bool) (objects : ℕ → Packable) where
    unfoldable pub pack_waiting : ℕ → ℕ → MmPacker I N → M (MmPacker I N)
    unfolding run_contexts db_save_object_name
    pack_waiting zero processing_i packer = λ m d. fault
    pack_waiting (suc n) processing_i packer =
        let rest = pack_waiting n in
        if ltb processing_i (ids.count packer.id_to_obj)
        then elim (ids.find packer.id_to_obj processing_i) [
          | none ↦ pure packer
          | some obj ↦ (do
            saved ← db_save_object_name (objects obj).name packer
            _ ← append_typdex pkrdex_object processing_i
            append_var_u64 saved.0
            packed ← run_contexts host rest (objects obj).contexts saved.1
            _ ← append_typdex pkrdex_object processing_i
            rest (processing_i + 1) packed)
        ]
        else pure packer

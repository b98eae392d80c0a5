-- ===== src/Pack/ObjectCodec.antt =====
-- mmo/mmo_pack.c: `packObject` of an object with one class that packs, as the bytes it writes.
use lc_clibs.Base.{
  ℕ, suc, ◌+◌, ◌^◌, ◌<◌, ◌≤◌, ◌≡◌, sym, ◌∙◌, ap, arith, Bool, true, none, some, List, [], ◌∷◌, ◌++◌,
  All, length, lt→ltb, ltb-false, u32,
}
use mathlib.Core.Path.{subst}
use lc_clibs.Dybuf.State.{M, pure, ◌>>=◌, ◌>>◌}
use lc_clibs.Dybuf.Typdex.{append_typdex}
use lc_clibs.Dybuf.VarInt.{append_var_u64}
use lc_clibs.Dybuf.VarBlocks.{append_cstring_with_var_len}
use lc_clibs.Dybuf.Writes.{Writes, WritesAs, Writes-bind, Writes-pure}
use lc_clibs.Dybuf.VarFormat.{var_bytes}
use lc_clibs.Dybuf.VarCodec.{append_var_u64-Writes}
use lc_clibs.Dybuf.TypdexFormat.{typdex_bytes}
use lc_clibs.Dybuf.TypdexCodec.{append_typdex-Writes}
use lc_clibs.Dybuf.VarBlockCodec.{data_bytes, cstring, append_cstring_with_var_len-Writes}
use lc_clibs.Ext.Hash.{Hash}
use lc_clibs.Pack.Codes.{
  pkrdex_object_ref, pkrdex_object, pkrdex_context, pkrdex_db, pkrdb_class_names,
}
use lc_clibs.Pack.Packer.{
  PackCall, Packable, MmPacker, db_save_object_name, save_object_reference, output_object_reference,
  pack_next_context, run_calls, run_contexts, pack_waiting,
}
use lc_clibs.Pack.CallCodec.{FitsCall, calls_bytes, run_calls-WritesAs, WritesAs-pure, WritesAs-map}

abbrev pub reference_bytes : ℕ → ℕ → List ℕ
reference_bytes key i = typdex_bytes pkrdex_object_ref key ++ var_bytes i

abbrev pub name_bytes : ℕ → List ℕ → List ℕ
name_bytes i name =
    typdex_bytes pkrdex_db pkrdb_class_names ++ (var_bytes i ++ data_bytes (cstring name))

-- A C string's characters, short enough for its length with the terminator.
abbrev pub IsText : List ℕ → Type 0
IsText name = All (λ c. 0 < c) name × (length name + 1 < 2 ^ 32)

-- What the loop writes for one object with the number 0, of a class with the number `i`.
abbrev pub object_bytes : Bool → ℕ → List ℕ → List PackCall → List ℕ
object_bytes host i name cs =
    name_bytes i name
    ++ (typdex_bytes pkrdex_object 0
        ++ (var_bytes i
            ++ ((typdex_bytes pkrdex_context i ++ calls_bytes host cs)
                ++ typdex_bytes pkrdex_object 0)))

-- An object whose only class to pack calls `cs`.
abbrev pub Plain : (ℕ → Packable) → ℕ → List ℕ → List PackCall → Type 0
Plain objects obj name cs =
    objects obj ≡ record { name = name; contexts = record { name = name; calls = cs } ∷ [] }

module _ {I N : Type 0} (ids : Hash ℕ ℕ I) (names : Hash (List ℕ) ℕ N) where
  -- The packer after a new object's number was noted.
  abbrev pub referred : ℕ → MmPacker I N → MmPacker I N
  referred obj p = record p {
    obj_to_id = ids.add p.obj_to_id obj (ids.count p.obj_to_id);
    id_to_obj = ids.add p.id_to_obj (ids.count p.obj_to_id) obj;
  }

  abbrev pub named : List ℕ → MmPacker I N → MmPacker I N
  named name p = record p {
    class_name_to_id = names.add p.class_name_to_id name (names.count p.class_name_to_id);
  }

  saved_new :
      (obj : ℕ) (p : MmPacker I N)
      → ids.find p.obj_to_id obj ≡ none
      → save_object_reference ids names obj p ≡ (ids.count p.obj_to_id, referred obj p)
  unfolding save_object_reference
  saved_new obj p e = rw (save_object_reference, e)

  pub output_object_reference-WritesAs :
      (key obj : ℕ) (p : MmPacker I N)
      → key < 2 ^ 20
      → ids.count p.obj_to_id < 2 ^ 32
      → ids.find p.obj_to_id obj ≡ none
      → WritesAs
          (reference_bytes key (ids.count p.obj_to_id))
          (referred obj p)
          (output_object_reference ids names key obj p)
  unfolding output_object_reference
  output_object_reference-WritesAs key obj p h k e =
      let small : u32 (ids.count p.obj_to_id) ≡ ids.count p.obj_to_id = omega arith in
      subst
        (λ x.
          WritesAs (reference_bytes key (ids.count p.obj_to_id)) (referred obj p)
            (append_typdex pkrdex_object_ref key >>= λ _. (append_var_u64 (u32 x.0) >> pure x.1)))
        (sym (saved_new obj p e))
        (Writes-bind (typdex_bytes pkrdex_object_ref key) (var_bytes (ids.count p.obj_to_id)) _ _
          (append_typdex-Writes pkrdex_object_ref key (omega arith) h)
          (Writes-pure _ _ _ (
            subst (λ x. Writes (var_bytes (ids.count p.obj_to_id)) (append_var_u64 x)) (sym small)
              (append_var_u64-Writes (ids.count p.obj_to_id) (omega arith)))))

  db_save_new :
      (name : List ℕ) (p : MmPacker I N)
      → names.find p.class_name_to_id name ≡ none
      → db_save_object_name ids names name p ≡ (
          append_typdex pkrdex_db pkrdb_class_names >>= λ _.
          (append_var_u64 (names.count p.class_name_to_id)
            >> (append_cstring_with_var_len (cstring name)
                >> pure (names.count p.class_name_to_id, named name p))))
  unfolding db_save_object_name
  db_save_new name p e = rw (db_save_object_name, e)

  pub db_save_known :
      (name : List ℕ) (i : ℕ) (p : MmPacker I N)
      → names.find p.class_name_to_id name ≡ some i
      → db_save_object_name ids names name p ≡ pure (i, p)
  unfolding db_save_object_name
  db_save_known name i p e = rw (db_save_object_name, e)

  pub db_save-WritesAs :
      (name : List ℕ) (p : MmPacker I N)
      → names.count p.class_name_to_id < 2 ^ 32
      → IsText name
      → names.find p.class_name_to_id name ≡ none
      → WritesAs
          (name_bytes (names.count p.class_name_to_id) name)
          (names.count p.class_name_to_id, named name p)
          (db_save_object_name ids names name p)
  db_save-WritesAs name p h t e =
      subst
        (λ op.
          WritesAs (name_bytes (names.count p.class_name_to_id) name)
            (names.count p.class_name_to_id, named name p) op)
        (sym (db_save_new name p e))
        (Writes-bind (typdex_bytes pkrdex_db pkrdb_class_names) _ _ _
          (append_typdex-Writes pkrdex_db pkrdb_class_names (omega arith) (omega arith))
          (Writes-bind (var_bytes (names.count p.class_name_to_id)) (data_bytes (cstring name)) _ _
            (append_var_u64-Writes (names.count p.class_name_to_id) (omega arith))
            (Writes-pure _ _ _ (append_cstring_with_var_len-Writes name t.0 t.1))))

  pub pack_next_context-WritesAs :
      (name : List ℕ) (i : ℕ) (p : MmPacker I N)
      → i < 2 ^ 20
      → names.find p.class_name_to_id name ≡ some i
      → WritesAs (typdex_bytes pkrdex_context i) p (pack_next_context ids names name p)
  unfolding pack_next_context
  pack_next_context-WritesAs name i p h e =
      subst
        (λ op.
          WritesAs (typdex_bytes pkrdex_context i) p
            (op >>= λ saved. (append_typdex pkrdex_context saved.0 >>= λ _. pure saved.1)))
        (sym (db_save_known name i p e))
        (Writes-bind {A = ℕ × MmPacker I N} [] (typdex_bytes pkrdex_context i) (pure (i, p))
          (λ saved. append_typdex pkrdex_context saved.0 >>= λ _. pure saved.1)
          (WritesAs-pure (i, p))
          (WritesAs-map (typdex_bytes pkrdex_context i) true (append_typdex pkrdex_context i)
            (λ _. p) (append_typdex-Writes pkrdex_context i (omega arith) h)))

  module _ (host : Bool) (objects : ℕ → Packable) where
    -- With no number left the loop ends.
    waiting_end :
        (n i : ℕ) (p : MmPacker I N)
        → ids.count p.id_to_obj ≤ i
        → pack_waiting ids names host objects (suc n) i p ≡ pure p
    unfolding pack_waiting
    waiting_end n i p h = rw (pack_waiting, ltb-false i (ids.count p.id_to_obj) h)

    waiting_one :
        (n i obj : ℕ) (name : List ℕ) (cs : List PackCall) (p : MmPacker I N)
        → i < ids.count p.id_to_obj
        → ids.find p.id_to_obj i ≡ some obj
        → Plain objects obj name cs
        → pack_waiting ids names host objects (suc n) i p ≡ (
            db_save_object_name ids names name p >>= λ saved.
            (append_typdex pkrdex_object i >>= λ _.
            (append_var_u64 saved.0
              >> (run_contexts ids names host
                    (pack_waiting ids names host objects n)
                    (record { name = name; calls = cs } ∷ [])
                    saved.1
                  >>= λ packed.
                      (append_typdex pkrdex_object i >>= λ _.
                      pack_waiting ids names host objects n (i + 1) packed)))))
    unfolding pack_waiting
    waiting_one n i obj name cs p h e plain =
        rw (pack_waiting, lt→ltb i (ids.count p.id_to_obj) h, e, plain)

    context-WritesAs :
        (loop : ℕ → MmPacker I N → M (MmPacker I N)) (name : List ℕ) (i : ℕ) (cs : List PackCall)
        (p : MmPacker I N)
        → i < 2 ^ 20
        → names.find p.class_name_to_id name ≡ some i
        → All FitsCall cs
        → WritesAs
            (typdex_bytes pkrdex_context i ++ calls_bytes host cs)
            p
            (run_contexts ids names host loop (record { name = name; calls = cs } ∷ []) p)
    unfolding run_contexts
    context-WritesAs loop name i cs p h e f =
        Writes-bind (typdex_bytes pkrdex_context i) (calls_bytes host cs) _ _
          (pack_next_context-WritesAs name i p h e)
          (WritesAs-map (calls_bytes host cs) p (run_calls ids names host loop cs p) (λ next. next)
            (run_calls-WritesAs ids names host loop cs p f))

    pub waiting-WritesAs :
        (n obj i : ℕ) (name : List ℕ) (cs : List PackCall) (p : MmPacker I N)
        → ids.count p.id_to_obj ≡ 1
        → ids.find p.id_to_obj 0 ≡ some obj
        → names.count p.class_name_to_id ≡ i
        → i < 2 ^ 20
        → names.find p.class_name_to_id name ≡ none
        → names.find (names.add p.class_name_to_id name i) name ≡ some i
        → Plain objects obj name cs
        → IsText name
        → All FitsCall cs
        → WritesAs
            (object_bytes host i name cs)
            (named name p)
            (pack_waiting ids names host objects (suc (suc n)) 0 p)
    waiting-WritesAs n obj i name cs p one e c h new known plain t f =
        let q : MmPacker I N = named name p in
        let again : names.find q.class_name_to_id name ≡ some i =
          ap (λ x. names.find (names.add p.class_name_to_id name x) name) c ∙ known in
        subst (λ op. WritesAs (object_bytes host i name cs) q op)
          (sym (waiting_one (suc n) 0 obj name cs p (omega arith) e plain))
          (Writes-bind (name_bytes i name) _ (db_save_object_name ids names name p) _
            (subst (λ x. WritesAs (name_bytes x name) (x, q) (db_save_object_name ids names name p))
              c (db_save-WritesAs name p (omega arith) t new))
            (Writes-bind (typdex_bytes pkrdex_object 0) _ _ _
              (append_typdex-Writes pkrdex_object 0 (omega arith) (omega arith))
              (Writes-bind (var_bytes i) _ _ _ (append_var_u64-Writes i (omega arith)) (
                Writes-bind (typdex_bytes pkrdex_context i ++ calls_bytes host cs) _ _ _
                  (context-WritesAs (pack_waiting ids names host objects (suc n)) name i cs q h
                    again f)
                  (subst
                    (λ op.
                      WritesAs (typdex_bytes pkrdex_object 0) q
                        (append_typdex pkrdex_object 0 >>= λ _. op))
                    (sym (waiting_end n 1 q (omega arith)))
                    (WritesAs-map (typdex_bytes pkrdex_object 0) true
                      (append_typdex pkrdex_object 0) (λ _. q)
                      (append_typdex-Writes pkrdex_object 0 (omega arith) (omega arith))))))))

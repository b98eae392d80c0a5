-- ===== src/Pack/ObjectRounds.antt =====
-- mmo/mmo_pack.c: the items of an object, round by round.
use lc_clibs.Base.{
  ℕ, ◌^◌, ◌<◌, ◌≡◌, ◌≢◌, refl, ap, arith, Bool, Option, none, some, List, [], ◌∷◌, ◌++◌, length,
  eq→==, ne→==, get_elem?, set, get_elem?-last, get_elem?-front, get_elem?-lt, u32,
}
use lc_clibs.Dybuf.State.{ok}
use lc_clibs.Dybuf.Reads.{Reads, Reads-bind, Reads-assoc_back}
use lc_clibs.Dybuf.VarFormat.{var_bytes}
use lc_clibs.Dybuf.VarCodec.{next_var_u64-Reads}
use lc_clibs.Dybuf.VarBlocks.{next_cstring_with_var_len}
use lc_clibs.Dybuf.VarBlockCodec.{data_bytes, cstring, read_cstring, read_cstring-Reads}
use lc_clibs.Dybuf.TypdexFormat.{typdex_bytes}
use lc_clibs.Dypkt.FieldCodec.{chars_of-cstring, Reads-map}
use lc_clibs.Ext.Hash.{Hash}
use lc_clibs.Ext.Map.{MmMapItem, MmMap}
use lc_clibs.Pack.Codes.{class_name_key, pkrdex_object, pkrdex_context}
use lc_clibs.Pack.Unpacker.{
  Primary, mmint, mmstring, Value, mmint_value, mmstring_value, container, Node, map, tmp_context,
  MmUnpacker, last_item, new_map, add_item, with_value, push_container, pop_container,
  pop_to_object, alloc_node, push_key_val,
}
use lc_clibs.Pack.Process.{
  next, name_in, read_name, begin_object, end_object, read_context, read_class_name, process_item,
}
use lc_clibs.Pack.Rounds.{Rounds, Rounds-item, Rounds-bare}
use lc_clibs.Pack.ItemCodec.{value_read}
use lc_clibs.Pack.ObjectCodec.{reference_bytes, name_bytes, IsText}

read_name-Reads :
    (name : List ℕ) → IsText name → Reads (data_bytes (cstring name)) (some name) read_name
unfolding read_name read_cstring
read_name-Reads name t = Reads-assoc_back _ next_cstring_with_var_len _ _ (
    Reads-map _ _ (some name) read_cstring name_in (ap some (chars_of-cstring name t.0))
      (read_cstring-Reads name))

module _ {T : Type 0} (hash : Hash (List ℕ) (MmMapItem Primary Value) T) (host : Bool)
    (compare_p : Primary → Primary → ℕ) (compare_o : Value → Value → ℕ) where
  -- The unpacker inside a new object.
  abbrev pub object_map : List ℕ → MmMap T
  object_map name =
      add_item hash host compare_p compare_o (new_map hash host compare_p compare_o)
        (mmstring class_name_key) (mmstring_value name)

  abbrev pub entered : {N : Type 0} → List ℕ → MmUnpacker T N → MmUnpacker T N
  entered name u = record u {
    current_obj_num = 0;
    current_obj = some (length u.heap);
    heap =
        set (u.heap ++ (map (new_map hash host compare_p compare_o) ∷ [])) (length u.heap)
          (map (object_map name));
    stack = length u.heap ∷ u.stack;
    objects =
        add_item hash host compare_p compare_o u.objects (mmint 0) (container (length u.heap));
  }

  -- The unpacker inside a new context of the object `c`.
  abbrev pub in_context : {N : Type 0} → List ℕ → ℕ → MmMap T → MmUnpacker T N → MmUnpacker T N
  in_context name c mm u = record u {
    heap = set (u.heap ++ (tmp_context (new_map hash host compare_p compare_o) ∷ [])) c (
        map
          (add_item hash host compare_p compare_o mm (mmstring name) (container (length u.heap))));
    stack = length u.heap ∷ u.stack;
  }

module _ {T N : Type 0} (hash : Hash (List ℕ) (MmMapItem Primary Value) T)
    (names : Hash ℕ (Option (List ℕ)) N) (host : Bool) (compare_p : Primary → Primary → ℕ)
    (compare_o : Value → Value → ℕ) where
  pub reference-Rounds :
      (key c : ℕ) (node : Node T) (u : MmUnpacker T N)
      → key < 2 ^ 20
      → last_item u ≡ some c
      → get_elem? u.heap c ≡ some node
      → Rounds hash names host compare_p compare_o (reference_bytes key 0) 1 u (record u {
        heap = set u.heap c (with_value hash host compare_p compare_o key (mmint_value 0) node);
      })
  unfolding process_item
  reference-Rounds key c node u h s e =
      Rounds-item hash names host compare_p compare_o _ key _ u _ (omega arith) h (
        value_read hash names host compare_p compare_o c node u s e _ 0 key _
          (λ num. mmint_value (u32 num)) (next_var_u64-Reads 0 (omega arith)))

  pub name-Rounds :
      (name : List ℕ) (u : MmUnpacker T N)
      → IsText name
      → names.find u.id_to_class_name 0 ≡ none
      → Rounds hash names host compare_p compare_o
          (name_bytes 0 name)
          1
          u
          (record u { id_to_class_name = names.add u.id_to_class_name 0 (some name) })
  unfolding process_item read_class_name
  name-Rounds name u t e =
      Rounds-item hash names host compare_p compare_o _ _ _ u _ (omega arith) (omega arith) (
        Reads-bind (var_bytes 0) (data_bytes (cstring name)) _ _
          (next_var_u64-Reads 0 (omega arith)) (λ m d h. rw (e, read_name-Reads name t m d h)))

  begin_object_lem :
      (name : List ℕ) (u : MmUnpacker T N)
      → names.find u.id_to_class_name 0 ≡ some (some name)
      → Reads
          (var_bytes 0)
          (next (entered hash host compare_p compare_o name u))
          (begin_object hash names host compare_p compare_o 0 u)
  unfolding begin_object alloc_node push_container push_key_val
  begin_object_lem name u e m d h = rw (
    next_var_u64-Reads 0 (omega arith) m d h,
    e,
    get_elem?-last u.heap (map (new_map hash host compare_p compare_o)),
  )

  pub begin-Rounds :
      (name : List ℕ) (u : MmUnpacker T N)
      → u.current_obj ≡ none
      → names.find u.id_to_class_name 0 ≡ some (some name)
      → Rounds hash names host compare_p compare_o
          (typdex_bytes pkrdex_object 0 ++ var_bytes 0)
          1
          u
          (entered hash host compare_p compare_o name u)
  unfolding process_item
  begin-Rounds name u idle e =
      Rounds-item hash names host compare_p compare_o _ 0 _ u _ (omega arith) (omega arith)
        (λ m d h. rw idle (begin_object_lem name u e m d h))

  pub context-Rounds :
      (name : List ℕ) (c : ℕ) (rest : List ℕ) (mm : MmMap T) (u : MmUnpacker T N)
      → u.current_obj ≡ some c
      → u.stack ≡ c ∷ rest
      → get_elem? u.heap c ≡ some (map mm)
      → names.find u.id_to_class_name 0 ≡ some (some name)
      → Rounds hash names host compare_p compare_o
          (typdex_bytes pkrdex_context 0)
          1
          u
          (in_context hash host compare_p compare_o name c mm u)
  unfolding process_item read_context pop_to_object alloc_node push_key_val push_container
  context-Rounds name c rest mm u current s e known =
      Rounds-bare hash names host compare_p compare_o _ 0 u _ (omega arith) (omega arith) (λ m d.
        rw
          (
            read_context,
            current,
            known,
            s,
            eq→== c c refl,
            get_elem?-front u.heap (tmp_context (new_map hash host compare_p compare_o) ∷ []) c
                (get_elem?-lt u.heap c (map mm) e),
            e,
          )
          (ap
            (λ o.
              ok
                (next
                  (record (in_context hash host compare_p compare_o name c mm
                    (record u { stack = c ∷ rest })) { current_obj = o }))
                d)
            current))

  -- The end of the object `c`, with a context above it.
  pub end-Rounds :
      (c t : ℕ) (rest : List ℕ) (u : MmUnpacker T N)
      → u.current_obj ≡ some c
      → u.current_obj_num ≡ 0
      → u.stack ≡ t ∷ (c ∷ rest)
      → t ≢ c
      → Rounds hash names host compare_p compare_o
          (typdex_bytes pkrdex_object 0)
          1
          u
          (record u { stack = rest; current_obj = none; current_obj_num = 0xffffffff })
  unfolding process_item end_object pop_to_object pop_container
  end-Rounds c t rest u current num s n =
      Rounds-bare hash names host compare_p compare_o _ 0 u _ (omega arith) (omega arith)
        (λ m d. rw (current, num, s, ne→== t c n, eq→== c c refl))

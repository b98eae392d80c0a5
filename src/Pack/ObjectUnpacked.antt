-- ===== src/Pack/ObjectUnpacked.antt =====
-- mmo/mmo_pack.c: one packed object, as `process` leaves it in the unpacker.
use lc_clibs.Base.{
  ℕ, ◌+◌, ◌<◌, ◌≡◌, refl, sym, ◌∙◌, ap, arith, Bool, Option, none, some, List, [], ◌∷◌, ◌++◌, All,
  length, length-append, length-set, get_elem?, get_elem?-last, get_elem?-front, get_elem?-set_self,
  get_elem?-set_ne, append_assoc,
}
use mathlib.Core.Path.{subst}
use lc_clibs.Dybuf.VarFormat.{var_bytes}
use lc_clibs.Dybuf.TypdexFormat.{typdex_bytes}
use lc_clibs.Ext.Hash.{Hash}
use lc_clibs.Ext.Map.{MmMapItem, MmMap}
use lc_clibs.Pack.Codes.{pkrdex_object, pkrdex_context}
use lc_clibs.Pack.Packer.{PackCall}
use lc_clibs.Pack.CallCodec.{FitsCall, calls_bytes}
use lc_clibs.Pack.ObjectCodec.{name_bytes, object_bytes, IsText}
use lc_clibs.Pack.Unpacker.{
  Primary, mmint, mmstring, Value, mmint_value, container, Node, map, tmp_context, MmUnpacker,
  new_map, add_item,
}
use lc_clibs.Pack.Rounds.{Rounds, Rounds-append}
use lc_clibs.Pack.ItemCodec.{calls-Rounds}
use lc_clibs.Pack.Received.{map_received, received-tmp_context}
use lc_clibs.Pack.ObjectRounds.{
  name-Rounds, object_map, entered, begin-Rounds, in_context, context-Rounds, end-Rounds,
}

module _ {T N : Type 0} (hash : Hash (List ℕ) (MmMapItem Primary Value) T)
    (names : Hash ℕ (Option (List ℕ)) N) (host : Bool) (compare_p : Primary → Primary → ℕ)
    (compare_o : Value → Value → ℕ) where
  -- The roots at `r` hold a reference to the object 0, whose map at `c` holds the name of its class
  -- and, under that name, the context at `t` with the values of the calls.
  pub record Unpacked (key : ℕ) (name : List ℕ) (cs : List PackCall) (r c t : ℕ)
      (u : MmUnpacker T N) : Type 0 where
    pub roots : u.roots ≡ some r
    pub stack : u.stack ≡ r ∷ []
    pub objects :
        u.objects
        ≡ add_item hash host compare_p compare_o
            (new_map hash host compare_p compare_o)
            (mmint 0)
            (container c)
    pub root :
        get_elem? u.heap r
        ≡ some (
            map (
              add_item hash host compare_p compare_o
                (new_map hash host compare_p compare_o)
                (mmint key)
                (mmint_value 0)))
    pub properties :
        get_elem? u.heap c
        ≡ some (
            map (
              add_item hash host compare_p compare_o
                (object_map hash host compare_p compare_o name)
                (mmstring name)
                (container t)))
    pub context :
        get_elem? u.heap t
        ≡ some (
            tmp_context (
              map_received hash host compare_p compare_o
                (new_map hash host compare_p compare_o)
                cs))

  object_grouped :
      (name : List ℕ) (cs : List PackCall)
      → name_bytes 0 name
          ++ ((typdex_bytes pkrdex_object 0 ++ var_bytes 0)
              ++ ((typdex_bytes pkrdex_context 0 ++ calls_bytes host cs)
                  ++ typdex_bytes pkrdex_object 0))
        ≡ object_bytes host 0 name cs
  object_grouped name cs =
      ap (λ bs. name_bytes 0 name ++ bs)
        (append_assoc (typdex_bytes pkrdex_object 0) (var_bytes 0) _)

  -- The unpacker behind the items of the object 0, with its heap.
  abbrev pub behind : List ℕ → List (Node T) → MmUnpacker T N → MmUnpacker T N
  behind name heap u = record u {
    heap = heap;
    id_to_class_name = names.add u.id_to_class_name 0 (some name);
    objects =
        add_item hash host compare_p compare_o u.objects (mmint 0) (container (length u.heap));
    current_obj = none;
    current_obj_num = 0xffffffff;
  }

  module _ (name : List ℕ) (cs : List PackCall) (u : MmUnpacker T N) (t : IsText name)
      (f : All FitsCall cs) (idle : u.current_obj ≡ none)
      (unknown : names.find u.id_to_class_name 0 ≡ none)
      (known : names.find (names.add u.id_to_class_name 0 (some name)) 0 ≡ some (some name)) where
    abbrev blank : MmMap T
    blank = new_map hash host compare_p compare_o

    abbrev names_known : MmUnpacker T N
    names_known = record u { id_to_class_name = names.add u.id_to_class_name 0 (some name) }

    abbrev inside : MmUnpacker T N
    inside = entered hash host compare_p compare_o name names_known

    abbrev in_object : MmUnpacker T N
    in_object =
        in_context hash host compare_p compare_o name (length u.heap)
          (object_map hash host compare_p compare_o name) inside

    abbrev object_at : MmMap T
    object_at =
        add_item hash host compare_p compare_o (object_map hash host compare_p compare_o name)
          (mmstring name) (container (length u.heap + 1))

    length-inside : length inside.heap ≡ length u.heap + 1
    length-inside =
        length-set (u.heap ++ (map blank ∷ [])) (length u.heap)
          (map (object_map hash host compare_p compare_o name))
        ∙ omega (arith, length-append u.heap (map blank ∷ []))

    inside_object :
        get_elem? inside.heap (length u.heap)
        ≡ some (map (object_map hash host compare_p compare_o name))
    inside_object =
        get_elem?-set_self (u.heap ++ (map blank ∷ [])) (length u.heap) _
          (omega (arith, length-append u.heap (map blank ∷ [])))

    in_object_context : get_elem? in_object.heap (length u.heap + 1) ≡ some (tmp_context blank)
    in_object_context =
        get_elem?-set_ne (inside.heap ++ (tmp_context blank ∷ [])) (length u.heap)
          (length u.heap + 1) _ (λ e. absurd (omega (arith, e)))
        ∙ ap (get_elem? (inside.heap ++ (tmp_context blank ∷ []))) (sym length-inside)
        ∙ get_elem?-last inside.heap (tmp_context blank)

    in_object_map : get_elem? in_object.heap (length u.heap) ≡ some (map object_at)
    in_object_map =
        get_elem?-set_self (inside.heap ++ (tmp_context blank ∷ [])) (length u.heap) _
          (omega (arith, length-append inside.heap (tmp_context blank ∷ []), length-inside))
        ∙ ap
            (λ l. some (
              map (
                add_item hash host compare_p compare_o
                  (object_map hash host compare_p compare_o name) (mmstring name) (container l))))
            length-inside

    in_object_below : (j : ℕ) → j < length u.heap → get_elem? in_object.heap j ≡ get_elem? u.heap j
    in_object_below j h =
        get_elem?-set_ne (inside.heap ++ (tmp_context blank ∷ [])) (length u.heap) j _
          (λ e. absurd (omega (arith, e)))
        ∙ get_elem?-front inside.heap (tmp_context blank ∷ []) j (omega (arith, length-inside))
        ∙ get_elem?-set_ne (u.heap ++ (map blank ∷ [])) (length u.heap) j _
            (λ e. absurd (omega (arith, e)))
        ∙ get_elem?-front u.heap (map blank ∷ []) j h

    pub object_Rounds :
        (heap : List (Node T)) × Rounds hash names host compare_p compare_o
          (object_bytes host 0 name cs)
          (1 + (1 + ((1 + length cs) + 1)))
          u
          (behind name heap u)
        × (get_elem? heap (length u.heap) ≡ some (map object_at))
        × (get_elem? heap (length u.heap + 1)
            ≡ some (tmp_context (map_received hash host compare_p compare_o blank cs)))
        × ((j : ℕ) → j < length u.heap → get_elem? heap j ≡ get_elem? u.heap j)
    object_Rounds =
        let (heap, rounds, at, others) =
          calls-Rounds hash names host compare_p compare_o cs (length u.heap + 1)
            (tmp_context blank) in_object f (ap some length-inside) in_object_context in
        let filled : MmUnpacker T N = record in_object { heap = heap } in
        let fields =
          Rounds-append hash names host compare_p compare_o (typdex_bytes pkrdex_context 0)
            (calls_bytes host cs) 1 (length cs) inside in_object filled
            (context-Rounds hash names host compare_p compare_o name (length u.heap) u.stack _
              inside refl refl inside_object known)
            rounds in
        let closed =
          Rounds-append hash names host compare_p compare_o
            (typdex_bytes pkrdex_context 0 ++ calls_bytes host cs) (typdex_bytes pkrdex_object 0)
            (1 + length cs) 1 inside filled (behind name heap u) fields
            (end-Rounds hash names host compare_p compare_o (length u.heap) (length inside.heap)
              u.stack filled refl refl refl (λ e. absurd (omega (arith, e, length-inside)))) in
        let opened =
          Rounds-append hash names host compare_p compare_o
            (typdex_bytes pkrdex_object 0 ++ var_bytes 0) _ 1 ((1 + length cs) + 1) names_known
            inside (behind name heap u)
            (begin-Rounds hash names host compare_p compare_o name names_known idle known) closed in
        let all =
          Rounds-append hash names host compare_p compare_o (name_bytes 0 name) _ 1
            (1 + ((1 + length cs) + 1)) u names_known (behind name heap u)
            (name-Rounds hash names host compare_p compare_o name u t unknown) opened in
        (
          heap,
          subst
              (λ bs.
                Rounds hash names host compare_p compare_o bs (1 + (1 + ((1 + length cs) + 1))) u
                  (behind name heap u))
              (object_grouped name cs) all,
          others (length u.heap) (λ e. absurd (omega (arith, e))) ∙ in_object_map,
          at ∙ ap some (received-tmp_context hash host compare_p compare_o cs blank f),
          λ j h. others j (λ e. absurd (omega (arith, e))) ∙ in_object_below j h,
        )

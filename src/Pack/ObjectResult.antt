-- ===== src/Pack/ObjectResult.antt =====
-- mmo/mmo_pack.c: an object that is unpacked is made once, with what was packed.
use lc_clibs.Base.{
  ℕ, ◌+◌, ◌^◌, ◌<◌, ◌≡◌, ◌≢◌, refl, sym, ◌∙◌, ap, arith, Bool, Option, none, some, List, [], ◌∷◌,
  All, length, length-append, length-set, set, get_elem?-last, get_elem?-set_self,
}
use mathlib.Core.Path.{subst}
use lc_clibs.Mem.{Malloc}
use lc_clibs.Dybuf.State.{Dybuf, ok, M, pure, ◌>>=◌}
use lc_clibs.Ext.Hash.{Hash}
use lc_clibs.Ext.Map.{MmMapItem, MmMap}
use lc_clibs.Pack.Codes.{class_name_key}
use lc_clibs.Pack.Packer.{PackCall}
use lc_clibs.Pack.CallCodec.{FitsCall, sent}
use lc_clibs.Pack.ObjectCodec.{reference_bytes, object_bytes, IsText}
use lc_clibs.Pack.ObjectPacked.{packet_of_one, find-empty, find-add_empty}
use lc_clibs.Pack.Unpacker.{
  Primary, mmint, Value, mmint_value, container, mmreference, Node, map, MmUnpacker, new_map,
  add_item, get_item, pop_container,
}
use lc_clibs.Pack.Process.{start}
use lc_clibs.Pack.Getters.{
  below_contexts, pop_context_in_stack, unpack_next_context, finish_object, unpack_known,
  unpack_object,
}
use lc_clibs.Pack.Rounds.{Rounds, Rounds-append}
use lc_clibs.Pack.Received.{IsKeyed, map_received_lem}
use lc_clibs.Pack.RoundTrip.{version_bytes, Answers, answers_lem}
use lc_clibs.Pack.RootTrip.{new_map-IsKeyed, get_item-new_map, version-Rounds}
use lc_clibs.Pack.ObjectRounds.{reference-Rounds}
use lc_clibs.Pack.ObjectUnpacked.{Unpacked, behind, object_Rounds}
use lc_clibs.Pack.ObjectTrip.{
  add_item-IsKeyed, get_added, at_context, enter_lem, call_lem, ready_lem, found_lem,
}

module _ {T N : Type 0} (hash : Hash (List ℕ) (MmMapItem Primary Value) T)
    (names : Hash ℕ (Option (List ℕ)) N) (host : Bool) (compare_p : Primary → Primary → ℕ)
    (compare_o : Value → Value → ℕ) (n : ℕ) where
  -- `alloc` of a class whose `fn_init` enters the context of the class; the getters it calls there
  -- change nothing.
  abbrev pub creating : ℕ → List ℕ → MmUnpacker T N → M (Option ℕ × MmUnpacker T N)
  creating stru name v =
      unpack_next_context hash names host compare_p compare_o n stru name v >>= λ w.
      pure (some stru, w)

  -- The unpacker when the object at `stru` has been made.
  abbrev pub rebuilt : ℕ → MmUnpacker T N → MmUnpacker T N
  rebuilt stru u = record u {
    objects = add_item hash host compare_p compare_o u.objects (mmint 0) (mmreference stru);
    last_object_num = none;
  }

  module _ (key : ℕ) (name : List ℕ) (cs : List PackCall) (r c t : ℕ) (u : MmUnpacker T N)
      (un : Unpacked hash names host compare_p compare_o key name cs r c t u)
      (table : List ℕ → Option (MmUnpacker T N → M (Option ℕ × MmUnpacker T N))) (stru : ℕ)
      (m : Malloc) (d : Dybuf) where
    below_lem :
        below_contexts hash names host compare_p compare_o u.heap (t ∷ (c ∷ u.stack))
        ≡ some (c ∷ u.stack)
    below_lem = rw (below_contexts, un.context, un.properties)

    finish_lem :
        finish_object hash names host compare_p compare_o n
          (some table)
          (some stru)
          (at_context hash names host compare_p compare_o n stru c t u)
          m
          d
        ≡ ok (some stru, rebuilt stru u) d
    unfolding finish_object pop_context_in_stack pop_container
    finish_lem = rw (finish_object, pop_context_in_stack, below_lem)

    pub made_lem :
        name ≢ class_name_key
        → table name ≡ some (creating stru name)
        → unpack_object hash names host compare_p compare_o n (some table) key u m d
          ≡ ok (some stru, rebuilt stru u) d
    made_lem ne a =
        call_lem hash names host compare_p compare_o n key name cs r c t u un table
          (creating stru name) m d ne a
        ∙ rw (enter_lem hash names host compare_p compare_o n key name cs r c t u un stru m d)
            finish_lem

    pub again_lem :
        unpack_object hash names host compare_p compare_o n (some table) key (rebuilt stru u) m d
        ≡ ok (some stru, rebuilt stru u) d
    unfolding unpack_object unpack_known
    again_lem =
        let object : get_item hash host compare_p compare_o (rebuilt stru u).objects (mmint 0)
            ≡ some (mmreference stru) =
          get_added hash host compare_p compare_o u.objects (mmint 0) (mmreference stru) (
            subst (IsKeyed hash host compare_p compare_o) (sym un.objects) (
              add_item-IsKeyed hash host compare_p compare_o _ (mmint 0) (container c)
                (new_map-IsKeyed hash names host compare_p compare_o))) in
        rw
          (
            ready_lem hash names host compare_p compare_o n r (rebuilt stru u) un.roots,
            found_lem hash names host compare_p compare_o n key r (rebuilt stru u) m d un.stack
                un.root,
          )
          (ap
            (λ o.
              unpack_known hash names host compare_p compare_o n (some table) 0 o (rebuilt stru u) m
                d)
            object)

    pub inside_lem :
        All FitsCall cs
        → Answers hash names host compare_p compare_o n cs
            (at_context hash names host compare_p compare_o n stru c t u)
    inside_lem f =
        let (keyed, got) =
          map_received_lem hash host compare_p compare_o cs _ f
            (new_map-IsKeyed hash names host compare_p compare_o) in
        answers_lem hash names host compare_p compare_o n t r cs _ _
          (at_context hash names host compare_p compare_o n stru c t u) un.roots refl un.context
          refl
          (λ i h.
            got i h
            ∙ ap (sent cs i) (get_item-new_map hash names host compare_p compare_o (mmint i)))

  -- The items of one packed object, from the start of `process`.
  pub packet_Rounds :
      (key : ℕ) (name : List ℕ) (cs : List PackCall) (u : MmUnpacker T N)
      → key < 2 ^ 20
      → IsText name
      → All FitsCall cs
      → u.id_to_class_name ≡ names.empty
      → (r c t : ℕ) × (u' : MmUnpacker T N) × Rounds hash names host compare_p compare_o
          (packet_of_one host key name cs)
          (1 + (1 + (1 + (1 + ((1 + length cs) + 1)))))
          (start hash names host compare_p compare_o u)
          u'
        × Unpacked hash names host compare_p compare_o key name cs r c t u'
  unfolding start
  packet_Rounds key name cs u h t f none_known =
      let s0 : MmUnpacker T N = start hash names host compare_p compare_o u in
      let r : ℕ = length u.heap in
      let blank : MmMap T = new_map hash host compare_p compare_o in
      let root : Node T =
        map (add_item hash host compare_p compare_o blank (mmint key) (mmint_value 0)) in
      let s1 : MmUnpacker T N = record s0 { heap = set s0.heap r root } in
      let long : length s1.heap ≡ r + 1 =
        length-set s0.heap r root ∙ omega (arith, length-append u.heap (map blank ∷ [])) in
      let unknown : names.find s1.id_to_class_name 0 ≡ none =
        ap (λ x. names.find x 0) none_known ∙ find-empty names 0 in
      let known : names.find (names.add s1.id_to_class_name 0 (some name)) 0 ≡ some (some name) =
        ap (λ x. names.find (names.add x 0 (some name)) 0) none_known
        ∙ find-add_empty names 0 (some name) in
      let (heap, rounds, at, inner, below) =
        object_Rounds hash names host compare_p compare_o name cs s1 t f refl unknown known in
      let last : MmUnpacker T N = behind hash names host compare_p compare_o name heap s1 in
      let refer =
        reference-Rounds hash names host compare_p compare_o key r (map blank) s0 h refl
          (get_elem?-last u.heap (map blank)) in
      (
        r,
        length s1.heap,
        length s1.heap + 1,
        last,
        Rounds-append hash names host compare_p compare_o version_bytes _ 1 _ s0 s0 last
            (version-Rounds hash names host compare_p compare_o s0)
            (Rounds-append hash names host compare_p compare_o (reference_bytes key 0)
              (object_bytes host 0 name cs) 1 _ s0 s1 last refer rounds),
        record {
          roots = refl;
          stack = refl;
          objects = refl;
          root =
              below r (omega (arith, long))
              ∙ get_elem?-set_self s0.heap r root
                  (omega (arith, length-append u.heap (map blank ∷ [])));
          properties = at;
          context = inner;
        },
      )

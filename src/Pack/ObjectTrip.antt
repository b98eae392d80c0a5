-- ===== src/Pack/ObjectTrip.antt =====
-- mmo/mmo_pack.c: one object, packed, processed and unpacked.
use lc_clibs.Base.{
  ℕ, ◌≡◌, ◌≢◌, refl, ◌∙◌, ap, Bool, Option, none, some, List, [], ◌∷◌, get_elem?, Bool-cases, inl,
  inr,
}
use lc_clibs.Mem.{Malloc}
use lc_clibs.Dybuf.State.{Dybuf, ok, fault, M, pure, ◌>>=◌}
use lc_clibs.Ext.Hash.{Hash}
use lc_clibs.Ext.Map.{MmMapItem, MmMap}
use lc_clibs.Ext.MapUpdates.{add_mmmap_item_lem}
use lc_clibs.Pack.Codes.{class_name_key}
use lc_clibs.Pack.Packer.{PackCall}
use lc_clibs.Pack.Unpacker.{
  Primary, mmint, mmstring, hash_of, Value, mmint_value, mmstring_value, container, mmreference,
  map, MmUnpacker, new_map, add_item, get_item, push_container,
}
use lc_clibs.Pack.Getters.{
  string_of, get_by_int_from_stack, get_by_string_from_stack, ready, settle, unpack_next_context,
  finish_object, unpack_class, unpack_from, unpack_known, unpack_object,
}
use lc_clibs.Pack.Received.{IsKeyed}
use lc_clibs.Pack.RoundTrip.{get_by_int_from_stack_lem}
use lc_clibs.Pack.RootTrip.{new_map-IsKeyed}
use lc_clibs.Pack.ObjectRounds.{object_map}
use lc_clibs.Pack.ObjectUnpacked.{Unpacked}

module _ {T : Type 0} (hash : Hash (List ℕ) (MmMapItem Primary Value) T) (host : Bool)
    (compare_p : Primary → Primary → ℕ) (compare_o : Value → Value → ℕ) where
  pub add_item-IsKeyed :
      (m : MmMap T) (k : Primary) (v : Value)
      → IsKeyed hash host compare_p compare_o m
      → IsKeyed hash host compare_p compare_o (add_item hash host compare_p compare_o m k v)
  add_item-IsKeyed m k v d = (add_mmmap_item_lem hash (hash_of host) compare_p compare_o m d k v).0

  pub get_added :
      (m : MmMap T) (k : Primary) (v : Value)
      → IsKeyed hash host compare_p compare_o m
      → get_item hash host compare_p compare_o (add_item hash host compare_p compare_o m k v) k
        ≡ some v
  get_added m k v d =
      (add_mmmap_item_lem hash (hash_of host) compare_p compare_o m d k v).1 k
      ∙ rw (hash.key.same_self (hash_of host k))

  get_other :
      (m : MmMap T) (name other : List ℕ) (v : Value)
      → IsKeyed hash host compare_p compare_o m
      → name ≢ other
      → get_item hash host compare_p compare_o
          (add_item hash host compare_p compare_o m (mmstring name) v)
          (mmstring other)
        ≡ get_item hash host compare_p compare_o m (mmstring other)
  get_other m name other v d n = elim (Bool-cases (hash.key.same name other)) [
    | inl e ↦ absurd (n (hash.key.same_eq name other e))
    | inr e ↦
        (add_mmmap_item_lem hash (hash_of host) compare_p compare_o m d (mmstring name) v).1
          (mmstring other)
        ∙ rw e
  ]

  -- The map of the object's properties.
  abbrev pub properties_of : List ℕ → ℕ → MmMap T
  properties_of name t =
      add_item hash host compare_p compare_o (object_map hash host compare_p compare_o name)
        (mmstring name) (container t)

module _ {T N : Type 0} (hash : Hash (List ℕ) (MmMapItem Primary Value) T)
    (names : Hash ℕ (Option (List ℕ)) N) (host : Bool) (compare_p : Primary → Primary → ℕ)
    (compare_o : Value → Value → ℕ) where
  object_map-IsKeyed :
      (name : List ℕ)
      → IsKeyed hash host compare_p compare_o (object_map hash host compare_p compare_o name)
  object_map-IsKeyed name =
      add_item-IsKeyed hash host compare_p compare_o _ _ _
        (new_map-IsKeyed hash names host compare_p compare_o)

  class_name_lem :
      (name : List ℕ) (t : ℕ)
      → name ≢ class_name_key
      → get_item hash host compare_p compare_o
          (properties_of hash host compare_p compare_o name t)
          (mmstring class_name_key)
        ≡ some (mmstring_value name)
  class_name_lem name t n =
      get_other hash host compare_p compare_o (object_map hash host compare_p compare_o name) name
        class_name_key (container t) (object_map-IsKeyed name) n
      ∙ get_added hash host compare_p compare_o (new_map hash host compare_p compare_o)
          (mmstring class_name_key) (mmstring_value name)
          (new_map-IsKeyed hash names host compare_p compare_o)

  context_lem :
      (name : List ℕ) (t : ℕ)
      → get_item hash host compare_p compare_o
          (properties_of hash host compare_p compare_o name t)
          (mmstring name)
        ≡ some (container t)
  context_lem name t =
      get_added hash host compare_p compare_o (object_map hash host compare_p compare_o name)
        (mmstring name) (container t) (object_map-IsKeyed name)

module _ {T N : Type 0} (hash : Hash (List ℕ) (MmMapItem Primary Value) T)
    (names : Hash ℕ (Option (List ℕ)) N) (host : Bool) (compare_p : Primary → Primary → ℕ)
    (compare_o : Value → Value → ℕ) (n : ℕ) where
  -- Inside `alloc`, and behind the entry of its context.
  abbrev pub at_alloc : ℕ → MmUnpacker T N → MmUnpacker T N
  at_alloc c u = record u { stack = c ∷ u.stack; last_object_num = some 0 }

  abbrev pub at_context : ℕ → ℕ → ℕ → MmUnpacker T N → MmUnpacker T N
  at_context stru c t u = record u {
    stack = t ∷ (c ∷ u.stack);
    objects = add_item hash host compare_p compare_o u.objects (mmint 0) (mmreference stru);
    last_object_num = none;
  }

  pub ready_lem :
      (r : ℕ) (u : MmUnpacker T N)
      → u.roots ≡ some r
      → ready hash names host compare_p compare_o n u ≡ pure u
  unfolding ready
  ready_lem r u e = rw (ready, e) (ap (λ o. pure (record u { roots = o })) e)

  pub found_lem :
      (key r : ℕ) (u : MmUnpacker T N) (m : Malloc) (d : Dybuf)
      → u.stack ≡ r ∷ []
      → get_elem? u.heap r
        ≡ some (
            map (
              add_item hash host compare_p compare_o
                (new_map hash host compare_p compare_o)
                (mmint key)
                (mmint_value 0)))
      → get_by_int_from_stack hash names host compare_p compare_o u key m d
        ≡ ok (some (mmint_value 0)) d
  found_lem key r u m d s e =
      get_by_int_from_stack_lem hash names host compare_p compare_o r key _ _ u m d (rw s) e refl
      ∙ ap (λ o. ok o d)
          (get_added hash host compare_p compare_o (new_map hash host compare_p compare_o)
            (mmint key) (mmint_value 0) (new_map-IsKeyed hash names host compare_p compare_o))

  module _ (key : ℕ) (name : List ℕ) (cs : List PackCall) (r c t : ℕ) (u : MmUnpacker T N)
      (un : Unpacked hash names host compare_p compare_o key name cs r c t u) where
    pub enter_lem :
        (stru : ℕ) (m : Malloc) (d : Dybuf)
        → unpack_next_context hash names host compare_p compare_o n stru name (at_alloc c u) m d
          ≡ ok (at_context stru c t u) d
    unfolding unpack_next_context ready settle get_by_string_from_stack push_container
    enter_lem stru m d = rw (
      un.roots,
      un.properties,
      context_lem hash names host compare_p compare_o name t,
      un.context,
    )

    object_lem : get_item hash host compare_p compare_o u.objects (mmint 0) ≡ some (container c)
    object_lem =
        ap (λ x. get_item hash host compare_p compare_o x (mmint 0)) un.objects
        ∙ get_added hash host compare_p compare_o (new_map hash host compare_p compare_o) (mmint 0)
            (container c) (new_map-IsKeyed hash names host compare_p compare_o)

    -- The call comes to the properties' class.
    pub class_lem :
        (allocators : Option (List ℕ → Option (MmUnpacker T N → M (Option ℕ × MmUnpacker T N))))
        (m : Malloc) (d : Dybuf)
        → name ≢ class_name_key
        → unpack_object hash names host compare_p compare_o n allocators key u m d
          ≡ unpack_class hash names host compare_p compare_o n allocators 0 c (some name) u m d
    unfolding unpack_object unpack_known unpack_from
    class_lem allocators m d ne =
        rw (ready_lem r u un.roots, found_lem key r u m d un.stack un.root)
          (ap (λ o. unpack_known hash names host compare_p compare_o n allocators 0 o u m d)
              object_lem
            ∙ rw (unpack_from, un.properties)
                (ap
                  (λ o.
                    unpack_class hash names host compare_p compare_o n allocators 0 c (string_of o)
                      u m d)
                  (class_name_lem hash names host compare_p compare_o name t ne)))

    pub call_lem :
        (table : List ℕ → Option (MmUnpacker T N → M (Option ℕ × MmUnpacker T N)))
        (alloc : MmUnpacker T N → M (Option ℕ × MmUnpacker T N)) (m : Malloc) (d : Dybuf)
        → name ≢ class_name_key
        → table name ≡ some alloc
        → unpack_object hash names host compare_p compare_o n (some table) key u m d
          ≡ (alloc (at_alloc c u) >>= λ made.
                finish_object hash names host compare_p compare_o n (some table) made.0 made.1)
              m d
    unfolding unpack_class push_container
    call_lem table alloc m d ne a = class_lem (some table) m d ne ∙ rw (unpack_class, a)

    -- In an unpacker that holds one processed object, the first of its roots, `unpackObject` of an
    -- object whose class was not registered, under a name that is not the key of class names: where
    -- another class was registered it returns null, and the object's properties stay on the stack
    -- above the roots; where none was, it is a fault.
    pub unpack_object_unregistered :
        (table : List ℕ → Option (MmUnpacker T N → M (Option ℕ × MmUnpacker T N))) (m : Malloc)
        (d : Dybuf)
        → name ≢ class_name_key
        → table name ≡ none
        → (unpack_object hash names host compare_p compare_o n (some table) key u m d
            ≡ ok (none, record u { stack = c ∷ (r ∷ []) }) d)
          × (unpack_object hash names host compare_p compare_o n none key u m d ≡ fault)
    unfolding unpack_class push_container
    unpack_object_unregistered table m d ne a = (
      class_lem (some table) m d ne
          ∙ rw (unpack_class, a) (ap (λ l. ok (none, record u { stack = c ∷ l }) d) un.stack),
      class_lem none m d ne,
    )

-- ===== src/Pack/Numbers.antt =====
-- mmo/mmo_pack.c: the numbers that `MMPacker` gives to objects.
use lc_clibs.Base.{
  ℕ, ◌+◌, ◌<◌, ◌≡◌, sym, ◌∙◌, ap, arith, false, none, some, List, [], ◌∷◌, length, length-append,
  if◌then◌else◌, Bool-cases, Option-cases, inl, inr,
}
use mathlib.Core.Path.{subst}
use lc_clibs.Ext.Hash.{Hash, lookup}
use lc_clibs.Ext.MapLaws.{lookup-insert_inorder, append-insert_inorder}
use lc_clibs.Pack.Packer.{MmPacker, save_object_reference}

module _ {K V T : Type 0} (hash : Hash K V T) where
  pub find-add :
      (t : T) (k j : K) (v : V)
      → hash.find t k ≡ none
      → hash.find (hash.add t k v) j ≡ (if hash.key.same k j then some v else hash.find t j)
  find-add t k j v e =
      hash.find_law (hash.add t k v) j
      ∙ ap (lookup hash.key j)
          (hash.add_law t k v ∙ append-insert_inorder hash.key k v (hash.iter t))
      ∙ lookup-insert_inorder hash.key (λ x y. false) k j v (hash.iter t)
          (sym (hash.find_law t k) ∙ e)
      ∙ ap (λ o. if hash.key.same k j then some v else o) (sym (hash.find_law t j))

  pub count-add : (t : T) (k : K) (v : V) → hash.count (hash.add t k v) ≡ hash.count t + 1
  count-add t k v =
      hash.count_law (hash.add t k v)
      ∙ ap length (hash.add_law t k v)
      ∙ length-append (hash.iter t) ((k, v) ∷ [])
      ∙ ap (λ l. l + 1) (sym (hash.count_law t))

module _ {I N : Type 0} (ids : Hash ℕ ℕ I) (names : Hash (List ℕ) ℕ N) where
  -- The two tables are inverse to each other, and their numbers are below their size.
  pub record IsNumbered (p : MmPacker I N) : Type 0 where
    pub size : ids.count p.id_to_obj ≡ ids.count p.obj_to_id
    pub back : (o i : ℕ) → ids.find p.obj_to_id o ≡ some i → ids.find p.id_to_obj i ≡ some o
    pub forth : (i o : ℕ) → ids.find p.id_to_obj i ≡ some o → ids.find p.obj_to_id o ≡ some i
    pub below : (i o : ℕ) → ids.find p.id_to_obj i ≡ some o → i < ids.count p.obj_to_id

  module _ (p : MmPacker I N) (numbered : IsNumbered p) where
    spare : ids.find p.id_to_obj (ids.count p.obj_to_id) ≡ none
    spare = elim (Option-cases (ids.find p.id_to_obj (ids.count p.obj_to_id))) [
      | inl e ↦ e
      | inr (o, e) ↦ absurd (omega (arith, numbered.below (ids.count p.obj_to_id) o e))
    ]

    module _ (obj : ℕ) (e : ids.find p.obj_to_id obj ≡ none) where
      abbrev number : ℕ
      number = ids.count p.obj_to_id

      abbrev registered : MmPacker I N
      registered = record p {
        obj_to_id = ids.add p.obj_to_id obj number;
        id_to_obj = ids.add p.id_to_obj number obj;
      }

      get_id :
          (o : ℕ)
          → ids.find registered.obj_to_id o
            ≡ (if ids.key.same obj o then some number else ids.find p.obj_to_id o)
      get_id o = find-add ids p.obj_to_id obj o number e

      get_obj :
          (i : ℕ)
          → ids.find registered.id_to_obj i
            ≡ (if ids.key.same number i then some obj else ids.find p.id_to_obj i)
      get_obj i = find-add ids p.id_to_obj number i obj spare

      number_other : (i o : ℕ) → ids.find p.id_to_obj i ≡ some o → ids.key.same number i ≡ false
      number_other i o h = elim (Bool-cases (ids.key.same number i)) [
        | inl s ↦ absurd (omega (arith, ids.key.same_eq number i s, numbered.below i o h))
        | inr f ↦ f
      ]

      obj_other : (o i : ℕ) → ids.find p.obj_to_id o ≡ some i → ids.key.same obj o ≡ false
      obj_other o i h = elim (Bool-cases (ids.key.same obj o)) [
        | inl s ↦
            let bad : none ≡ some i =
              sym e ∙ ap (ids.find p.obj_to_id) (ids.key.same_eq obj o s) ∙ h in
            cc
        | inr f ↦ f
      ]

      registered_back :
          (o i : ℕ)
          → ids.find registered.obj_to_id o ≡ some i
          → ids.find registered.id_to_obj i ≡ some o
      registered_back o i h =
          let g : (if ids.key.same obj o then some number else ids.find p.obj_to_id o) ≡ some i =
            sym (get_id o) ∙ h in
          elim (Bool-cases (ids.key.same obj o)) [
            | inl s ↦
                let q : some number ≡ some i = rw s at g in
                let w : number ≡ i = cc in
                get_obj i
                ∙ subst
                    (λ j.
                      (if ids.key.same number j then some obj else ids.find p.id_to_obj j) ≡ some o)
                    w (rw (ids.key.same_self number) (ap some (ids.key.same_eq obj o s)))
            | inr f ↦
                let q : ids.find p.id_to_obj i ≡ some o = numbered.back o i (rw f at g) in
                get_obj i ∙ rw (number_other i o q, q)
          ]

      registered_forth :
          (i o : ℕ)
          → ids.find registered.id_to_obj i ≡ some o
          → ids.find registered.obj_to_id o ≡ some i
      registered_forth i o h =
          let g : (if ids.key.same number i then some obj else ids.find p.id_to_obj i) ≡ some o =
            sym (get_obj i) ∙ h in
          elim (Bool-cases (ids.key.same number i)) [
            | inl s ↦
                let q : some obj ≡ some o = rw s at g in
                let w : obj ≡ o = cc in
                get_id o
                ∙ subst
                    (λ j.
                      (if ids.key.same obj j then some number else ids.find p.obj_to_id j) ≡ some i)
                    w (rw (ids.key.same_self obj) (ap some (ids.key.same_eq number i s)))
            | inr f ↦
                let q : ids.find p.obj_to_id o ≡ some i = numbered.forth i o (rw f at g) in
                get_id o ∙ rw (obj_other o i q, q)
          ]

      registered_below :
          (i o : ℕ) → ids.find registered.id_to_obj i ≡ some o → i < ids.count registered.obj_to_id
      registered_below i o h =
          let g : (if ids.key.same number i then some obj else ids.find p.id_to_obj i) ≡ some o =
            sym (get_obj i) ∙ h in
          elim (Bool-cases (ids.key.same number i)) [
            | inl s ↦
                omega (arith, ids.key.same_eq number i s, count-add ids p.obj_to_id obj number)
            | inr f ↦
                omega (arith, numbered.below i o (rw f at g), count-add ids p.obj_to_id obj number)
          ]

      registered-IsNumbered : IsNumbered registered
      registered-IsNumbered = record {
        size =
            count-add ids p.id_to_obj number obj
            ∙ ap (λ l. l + 1) numbered.size
            ∙ sym (count-add ids p.obj_to_id obj number);
        back = registered_back;
        forth = registered_forth;
        below = registered_below;
      }

    -- In a packer whose two tables are inverse to each other with numbers below their size, the
    -- number of an object, new or not: the tables stay so, the object has the number that is
    -- returned, and every other object has the number, or none, that it had.
    pub save_object_reference_lem :
        (obj : ℕ)
        → IsNumbered (save_object_reference ids names obj p).1
          × ((o : ℕ)
              → ids.find (save_object_reference ids names obj p).1.obj_to_id o ≡ (
                  if ids.key.same obj o
                  then some (save_object_reference ids names obj p).0
                  else ids.find p.obj_to_id o))
    unfolding save_object_reference
    save_object_reference_lem obj = elim (Option-cases (ids.find p.obj_to_id obj)) [
      | inl e ↦ rw (save_object_reference, e) (registered-IsNumbered obj e, get_id obj e)
      | inr (i, e) ↦
          rw (save_object_reference, e)
            (
              numbered,
              λ o. elim (Bool-cases (ids.key.same obj o)) [
                | inl s ↦ rw s (ap (ids.find p.obj_to_id) (sym (ids.key.same_eq obj o s)) ∙ e)
                | inr f ↦ rw f
              ],
            )
    ]

-- ===== src/Pack/ObjectPacked.antt =====
-- mmo/mmo_pack.c: one object, packed by a fresh packer.
use lc_clibs.Base.{
  ℕ, suc, ◌-◌, ◌^◌, ◌<◌, ◌≡◌, sym, ◌∙◌, ap, arith, Bool, none, some, List, ◌++◌, All, if◌then◌else◌,
  ltb,
}
use mathlib.Core.Path.{subst}
use lc_clibs.Dybuf.State.{M, pure, ◌>>=◌}
use lc_clibs.Dybuf.Writes.{WritesAs, Writes-bind}
use lc_clibs.Ext.Hash.{Hash}
use lc_clibs.Pack.Packer.{
  PackCall, Packable, MmPacker, init_mmpacker, output_object_reference, pack_object, pack_waiting,
}
use lc_clibs.Pack.CallCodec.{FitsCall, WritesAs-map}
use lc_clibs.Pack.ObjectCodec.{
  reference_bytes, object_bytes, IsText, Plain, referred, named, output_object_reference-WritesAs,
  waiting-WritesAs,
}
use lc_clibs.Pack.RoundTrip.{version_bytes, init_mmpacker-WritesAs}

module _ {K V T : Type 0} (hash : Hash K V T) where
  pub count-empty : hash.count hash.empty ≡ 0
  count-empty = rw (hash.count_law hash.empty, hash.empty_law)

  pub find-empty : (k : K) → hash.find hash.empty k ≡ none
  find-empty k = rw (hash.find_law hash.empty k, hash.empty_law)

  pub count-add_empty : (k : K) (v : V) → hash.count (hash.add hash.empty k v) ≡ 1
  count-add_empty k v =
      rw (hash.count_law (hash.add hash.empty k v), hash.add_law hash.empty k v, hash.empty_law)

  pub find-add_empty : (k : K) (v : V) → hash.find (hash.add hash.empty k v) k ≡ some v
  find-add_empty k v = rw (
    hash.find_law (hash.add hash.empty k v) k,
    hash.add_law hash.empty k v,
    hash.empty_law,
    hash.key.same_self k,
  )

-- The version, the reference and the object.
abbrev pub packet_of_one : Bool → ℕ → List ℕ → List PackCall → List ℕ
packet_of_one host key name cs =
    version_bytes ++ (reference_bytes key 0 ++ object_bytes host 0 name cs)

module _ {I N : Type 0} (ids : Hash ℕ ℕ I) (names : Hash (List ℕ) ℕ N) where
  abbrev pub fresh : MmPacker I N
  fresh = record {
    level = 0;
    obj_to_id = ids.empty;
    id_to_obj = ids.empty;
    class_name_to_id = names.empty;
  }

  -- The packer after its first object.
  abbrev pub packed_one : ℕ → List ℕ → MmPacker I N
  packed_one obj name = record (named ids names name (referred ids names obj fresh)) { level = 0 }

  abbrev inside : MmPacker I N
  inside = record fresh { level = 1 }

  pub pack_object-WritesAs :
      (host : Bool) (objects : ℕ → Packable) (n key obj : ℕ) (name : List ℕ) (cs : List PackCall)
      → key < 2 ^ 20
      → Plain objects obj name cs
      → IsText name
      → All FitsCall cs
      → WritesAs (reference_bytes key 0 ++ object_bytes host 0 name cs) (packed_one obj name) (
          pack_object ids names host
            (pack_waiting ids names host objects (suc (suc n)))
            key
            (some obj)
            fresh)
  unfolding pack_object
  pack_object-WritesAs host objects n key obj name cs h plain t f =
      let z : ids.count ids.empty ≡ 0 = count-empty ids in
      let q : MmPacker I N = referred ids names obj inside in
      let refer : WritesAs (reference_bytes key 0) q
          (output_object_reference ids names key obj inside) =
        subst
          (λ i.
            WritesAs (reference_bytes key i) q (output_object_reference ids names key obj inside))
          z
          (output_object_reference-WritesAs ids names key obj inside h (omega arith)
            (find-empty ids obj)) in
      let loop : WritesAs (object_bytes host 0 name cs) (named ids names name q)
          (pack_waiting ids names host objects (suc (suc n)) (ids.count ids.empty) q) =
        subst
          (λ i.
            WritesAs (object_bytes host 0 name cs) (named ids names name q)
              (pack_waiting ids names host objects (suc (suc n)) i q))
          (sym z)
          (waiting-WritesAs ids names host objects n obj 0 name cs q
            (count-add_empty ids (ids.count ids.empty) obj)
            (ap (ids.find (ids.add ids.empty (ids.count ids.empty) obj)) (sym z)
              ∙ find-add_empty ids (ids.count ids.empty) obj)
            (count-empty names) (omega arith) (find-empty names name) (find-add_empty names name 0)
            plain t f) in
      let rest : MmPacker I N → M (MmPacker I N) = λ r.
        (if ltb 1 r.level
          then pure r
          else pack_waiting ids names host objects (suc (suc n)) (ids.count ids.empty) r)
        >>= λ done. pure (record done { level = done.level - 1 }) in
      Writes-bind (reference_bytes key 0) (object_bytes host 0 name cs)
        (output_object_reference ids names key obj inside) rest refer
        (WritesAs-map (object_bytes host 0 name cs) (named ids names name q)
          (pack_waiting ids names host objects (suc (suc n)) (ids.count ids.empty) q)
          (λ done. record done { level = done.level - 1 }) loop)

  pub packet_of_one-WritesAs :
      (host : Bool) (objects : ℕ → Packable) (n key obj : ℕ) (name : List ℕ) (cs : List PackCall)
      → key < 2 ^ 20
      → Plain objects obj name cs
      → IsText name
      → All FitsCall cs
      → WritesAs (packet_of_one host key name cs) (packed_one obj name) (
          init_mmpacker ids names
          >>= pack_object ids names host
              (pack_waiting ids names host objects (suc (suc n)))
              key
              (some obj))
  packet_of_one-WritesAs host objects n key obj name cs h plain t f =
      Writes-bind version_bytes (reference_bytes key 0 ++ object_bytes host 0 name cs) _ _
        (init_mmpacker-WritesAs ids names)
        (pack_object-WritesAs host objects n key obj name cs h plain t f)

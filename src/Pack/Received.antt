-- ===== src/Pack/Received.antt =====
-- mmo/mmo_pack.c: what a map of the unpacker gives at a number, after the items of calls.
use lc_clibs.Base.{
  ℕ, ◌+◌, ◌*◌, ◌^◌, ◌<◌, ◌≡◌, refl, sym, ◌∙◌, ap, arith, Bool, true, false, none, some, List, [],
  ◌∷◌, All, if◌then◌else◌, ◌==◌, eq→==, ne→==, Bool-cases, inl, inr,
}
use native.Mathlib.Decide.{ℕ_discrete}
use lc_clibs.Dybuf.FloatCodec.{float_bytes}
use lc_clibs.Ext.Hash.{Hash}
use lc_clibs.Ext.Map.{MmMapItem, MmMap}
use lc_clibs.Ext.MapUpdates.{IsMap, add_mmmap_item_lem}
use lc_clibs.Pack.Packer.{PackCall, varint, float, double, data_of, array, array_end, object}
use lc_clibs.Pack.CallCodec.{FitsCall, key_of, value_of, sent}
use lc_clibs.Pack.Unpacker.{
  Primary, mmint, hash_of, Value, mmlong, mmfloat, mmdouble, mmdata, map, tmp_context, add_item,
  get_item,
}
use lc_clibs.Pack.ItemCodec.{with_call, received}

-- The number whose bytes the host keeps.
abbrev from_le : List ℕ → ℕ
from_le [] = 0
from_le (b ∷ bs) = b + 256 * from_le bs

abbrev from_be : ℕ → List ℕ → ℕ
from_be a [] = a
from_be a (b ∷ bs) = from_be (256 * a + b) bs

abbrev from_host : Bool → List ℕ → ℕ
from_host true bs = from_le bs
from_host false bs = from_be 0 bs

from_host-float_bytes : (host : Bool) (v : ℕ) → v < 2 ^ 32 → from_host host (float_bytes host v) ≡ v
unfolding float_bytes
from_host-float_bytes true v h = omega arith
from_host-float_bytes false v h = omega arith

pub fits_value : (k : PackCall) → FitsCall k → (v : Value) × (value_of k ≡ some v)
fits_value (varint key value) h = (mmlong value, refl)
fits_value (float key value) h = (mmfloat value, refl)
fits_value (double key value) h = (mmdouble value, refl)
fits_value (data_of key value) h = (mmdata value, refl)
fits_value (array key len) h = absurd h
fits_value (array_end key) h = absurd h
fits_value (object key stru) h = absurd h

fits_key : (k : PackCall) → FitsCall k → key_of k < 2 ^ 32
fits_key (varint key value) h = omega (arith, h.0)
fits_key (float key value) h = omega (arith, h.0)
fits_key (double key value) h = omega (arith, h.0)
fits_key (data_of key value) h = omega (arith, h.0)
fits_key (array key len) h = absurd h
fits_key (array_end key) h = absurd h
fits_key (object key stru) h = absurd h

module _ {T : Type 0} (hash : Hash (List ℕ) (MmMapItem Primary Value) T) (host : Bool)
    (compare_p : Primary → Primary → ℕ) (compare_o : Value → Value → ℕ) where
  -- Different numbers have different bytes.
  same-mmint :
      (i j : ℕ)
      → i < 2 ^ 32
      → j < 2 ^ 32
      → hash.key.same (hash_of host (mmint i)) (hash_of host (mmint j)) ≡ (i == j)
  same-mmint i j h k = elim (ℕ_discrete i j) [
    | yes e ↦ rw (eq→== i j e) (
        ap (λ x. hash.key.same (hash_of host (mmint i)) (hash_of host (mmint x))) (sym e)
        ∙ hash.key.same_self _)
    | no n ↦ elim (Bool-cases (hash.key.same (hash_of host (mmint i)) (hash_of host (mmint j)))) [
      | inl t ↦ absurd (
          n (
            sym (from_host-float_bytes host i h)
            ∙ ap (from_host host) (hash.key.same_eq _ _ t)
            ∙ from_host-float_bytes host j k))
      | inr f ↦ rw (f, ne→== i j n)
    ]
  ]

  abbrev pub IsKeyed : MmMap T → Type 0
  IsKeyed m = IsMap hash (hash_of host) compare_p compare_o m

  get_item-add_item :
      (m : MmMap T) (i j : ℕ) (v : Value)
      → IsKeyed m
      → i < 2 ^ 32
      → j < 2 ^ 32
      → get_item hash host compare_p compare_o
          (add_item hash host compare_p compare_o m (mmint i) v)
          (mmint j)
        ≡ (if i == j then some v else get_item hash host compare_p compare_o m (mmint j))
  get_item-add_item m i j v d h k =
      (add_mmmap_item_lem hash (hash_of host) compare_p compare_o m d (mmint i) v).1 (mmint j)
      ∙ ap (λ b. if b then some v else get_item hash host compare_p compare_o m (mmint j))
          (same-mmint i j h k)

  abbrev pub item_added : MmMap T → PackCall → MmMap T
  item_added m k = elim (value_of k) [
    | none ↦ m
    | some v ↦ add_item hash host compare_p compare_o m (mmint (key_of k)) v
  ]

  -- The map that the calls leave.
  abbrev pub map_received : MmMap T → List PackCall → MmMap T
  map_received m [] = m
  map_received m (k ∷ ks) = map_received (item_added m k) ks

  item_added_lem :
      (k : PackCall) (m : MmMap T)
      → FitsCall k
      → IsKeyed m
      → IsKeyed (item_added m k)
        × ((i : ℕ)
            → i < 2 ^ 32
            → get_item hash host compare_p compare_o (item_added m k) (mmint i) ≡ (
                if key_of k == i
                then value_of k
                else get_item hash host compare_p compare_o m (mmint i)))
  item_added_lem k m f d =
      let (v, e) = fits_value k f in
      rw (item_added, e)
        (
          (add_mmmap_item_lem hash (hash_of host) compare_p compare_o m d (mmint (key_of k)) v).0,
          λ i h. get_item-add_item m (key_of k) i v d (fits_key k f) h,
        )

  pub map_received_lem :
      (ks : List PackCall) (m : MmMap T)
      → All FitsCall ks
      → IsKeyed m
      → IsKeyed (map_received m ks)
        × ((i : ℕ)
            → i < 2 ^ 32
            → get_item hash host compare_p compare_o (map_received m ks) (mmint i)
              ≡ sent ks i (get_item hash host compare_p compare_o m (mmint i)))
  map_received_lem [] m f d = (d, λ i h. refl)
  map_received_lem (k ∷ ks) m f d =
      let (d1, one) = item_added_lem k m f.0 d in
      let (keyed, got) = map_received_lem ks (item_added m k) f.1 d1 in
      (keyed, λ i h. got i h ∙ ap (sent ks i) (one i h))

  with_call-map :
      (k : PackCall) (m : MmMap T)
      → FitsCall k
      → with_call hash host compare_p compare_o (map m) k ≡ map (item_added m k)
  with_call-map k m f = let (v, e) = fits_value k f in rw (with_call, item_added, e)

  pub received-map :
      (ks : List PackCall) (m : MmMap T)
      → All FitsCall ks
      → received hash host compare_p compare_o (map m) ks ≡ map (map_received m ks)
  received-map [] m f = refl
  received-map (k ∷ ks) m f = rw (with_call-map k m f.0) (received-map ks (item_added m k) f.1)

  with_call-tmp_context :
      (k : PackCall) (m : MmMap T)
      → FitsCall k
      → with_call hash host compare_p compare_o (tmp_context m) k ≡ tmp_context (item_added m k)
  with_call-tmp_context k m f = let (v, e) = fits_value k f in rw (with_call, item_added, e)

  pub received-tmp_context :
      (ks : List PackCall) (m : MmMap T)
      → All FitsCall ks
      → received hash host compare_p compare_o (tmp_context m) ks ≡ tmp_context (map_received m ks)
  received-tmp_context [] m f = refl
  received-tmp_context (k ∷ ks) m f =
      rw (with_call-tmp_context k m f.0) (received-tmp_context ks (item_added m k) f.1)

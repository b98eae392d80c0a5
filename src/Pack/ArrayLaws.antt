-- ===== src/Pack/ArrayLaws.antt =====
-- mmo/mmo_pack.c: an array of numbers and data, packed at the root and got back.
use lc_clibs.Base.{
  ℕ, zero, suc, ◌+◌, ◌^◌, ◌<◌, ◌≡◌, refl, sym, ◌∙◌, ap, arith, Bool, Option, none, some, List, [],
  ◌∷◌, ◌++◌, All, length, get_elem?, get_elem?-last, add32, u32,
}
use mathlib.Core.Path.{subst}
use lc_clibs.Mem.{Malloc}
use lc_clibs.Dybuf.State.{Dybuf, IsValid, ok, fault, M, ◌>>=◌, ◌>>◌}
use lc_clibs.Dybuf.Resize.{flip}
use lc_clibs.Dybuf.Writes.{Writes, Writes-bind, RoomTo}
use lc_clibs.Dybuf.VarFormat.{var_bytes}
use lc_clibs.Dybuf.VarInt.{append_var_u64}
use lc_clibs.Dybuf.VarCodec.{append_var_u64-Writes}
use lc_clibs.Dybuf.TypdexFormat.{typdex_bytes}
use lc_clibs.Dypkt.FieldCodec.{headed}
use lc_clibs.Ext.Hash.{Hash}
use lc_clibs.Ext.Map.{MmMapItem}
use lc_clibs.Ext.Sequence.{size_of_mmlist, get_mmlist_item}
use lc_clibs.Pack.Codes.{pkrdex_array}
use lc_clibs.Pack.Packer.{PackCall, MmPacker, init_mmpacker, pack_array, pack_array_end, run_calls}
use lc_clibs.Pack.CallCodec.{FitsCall, value_of, calls_bytes, run_calls-WritesAs}
use lc_clibs.Pack.Unpacker.{
  Primary, mmint, Value, container, map, list, MmUnpacker, last_item, new_map, add_item,
  push_container, pop_container,
}
use lc_clibs.Pack.Process.{start}
use lc_clibs.Pack.Getters.{
  long_of, float_of, double_of, data_in, get_by_int_from_stack, ready, unpack_var_int64,
  unpack_float, unpack_double, unpack_data, unpack_array, unpack_array_end,
}
use lc_clibs.Pack.Rounds.{Rounds-append}
use lc_clibs.Pack.RoundTrip.{
  version_bytes, init_mmpacker-WritesAs, flip-Rounds, get_by_int_from_stack_lem,
}
use lc_clibs.Pack.RootTrip.{new_map-IsKeyed, version-Rounds}
use lc_clibs.Pack.ObjectTrip.{get_added, ready_lem}
use lc_clibs.Pack.Received.{fits_value}
use lc_clibs.Pack.ArrayRounds.{
  values, length-values, get_elem?-values, get_elem?-values-none, array_bytes, array_Rounds,
}

module _ {I L : Type 0} (ids : Hash ℕ ℕ I) (class_names : Hash (List ℕ) ℕ L) (host : Bool)
    (loop : ℕ → MmPacker I L → M (MmPacker I L)) where
  -- `packArray`, the values and `packArrayEnd`.
  abbrev pub pack_values : ℕ → List PackCall → MmPacker I L → M (Unit {0})
  pack_values key ks p =
      pack_array key (length ks)
      >> (run_calls ids class_names host loop ks p >>= λ _. pack_array_end key)

  pub pack_values-Writes :
      (key : ℕ) (ks : List PackCall) (p : MmPacker I L)
      → key < 2 ^ 20
      → length ks + 1 < 2 ^ 32
      → All FitsCall ks
      → Writes (array_bytes host key ks) (pack_values key ks p)
  unfolding pack_array pack_array_end
  pack_values-Writes key ks p h long f =
      let plus : add32 (length ks) 1 ≡ length ks + 1 = omega arith in
      Writes-bind (typdex_bytes pkrdex_array key ++ var_bytes (length ks + 1)) _ _ _
        (headed pkrdex_array key _ _ (omega arith) h (
          subst (λ x. Writes (var_bytes (length ks + 1)) (append_var_u64 x)) (sym plus)
            (append_var_u64-Writes (length ks + 1) (omega arith))))
        (Writes-bind (calls_bytes host ks) _ _ _
          (run_calls-WritesAs ids class_names host loop ks p f)
          (headed pkrdex_array key _ _ (omega arith) h (append_var_u64-Writes 0 (omega arith))))

fits_at :
    (ks : List PackCall) (i : ℕ) (k : PackCall)
    → All FitsCall ks
    → get_elem? ks i ≡ some k
    → FitsCall k
fits_at [] i k f h = let bad : none ≡ some k = h in absurd (cc)
fits_at (j ∷ ks) zero k f h = let same : j ≡ k = cc in subst FitsCall same f.0
fits_at (j ∷ ks) (suc i) k f h = fits_at ks i k f.1 h

module _ {T N : Type 0} (hash : Hash (List ℕ) (MmMapItem Primary Value) T)
    (names : Hash ℕ (Option (List ℕ)) N) (host : Bool) (compare_p : Primary → Primary → ℕ)
    (compare_o : Value → Value → ℕ) where
  in_list_lem :
      (l i : ℕ) (items : List Value) (v : Value) (u : MmUnpacker T N) (m : Malloc) (d : Dybuf)
      → last_item u ≡ some l
      → get_elem? u.heap l ≡ some (list items)
      → get_elem? items i ≡ some v
      → get_by_int_from_stack hash names host compare_p compare_o u i m d ≡ ok (some v) d
  unfolding get_by_int_from_stack get_mmlist_item
  in_list_lem l i items v u m d s e h = rw (s, e, h)

  beyond_list_lem :
      (l i : ℕ) (items : List Value) (u : MmUnpacker T N) (m : Malloc) (d : Dybuf)
      → last_item u ≡ some l
      → get_elem? u.heap l ≡ some (list items)
      → get_elem? items i ≡ none
      → get_by_int_from_stack hash names host compare_p compare_o u i m d ≡ fault
  unfolding get_by_int_from_stack get_mmlist_item
  beyond_list_lem l i items u m d s e h = rw (s, e, h)

  entered_lem :
      (n key c l : ℕ) (items : List Value) (u : MmUnpacker T N) (m : Malloc) (d : Dybuf)
      → u.roots ≡ some c
      → last_item u ≡ some c
      → get_elem? u.heap c
        ≡ some (
            map (
              add_item hash host compare_p compare_o
                (new_map hash host compare_p compare_o)
                (mmint key)
                (container l)))
      → get_elem? u.heap l ≡ some (list items)
      → unpack_array hash names host compare_p compare_o n key u m d
        ≡ ok (u32 (length items), record u { stack = l ∷ u.stack }) d
  unfolding unpack_array size_of_mmlist push_container
  entered_lem n key c l items u m d r s e h =
      let found =
        get_by_int_from_stack_lem hash names host compare_p compare_o c key _ _ u m d s e refl
        ∙ ap (λ o. ok o d)
            (get_added hash host compare_p compare_o (new_map hash host compare_p compare_o)
              (mmint key) (container l) (new_map-IsKeyed hash names host compare_p compare_o)) in
      rw (unpack_array, ready_lem hash names host compare_p compare_o n c u r, found, h)

  -- What the getters give at an index of a list, where the call was packed or none was.
  abbrev pub Element : ℕ → ℕ → Option PackCall → MmUnpacker T N → Malloc → Dybuf → Type 0
  Element n i (some k) u m d =
      (unpack_var_int64 hash names host compare_p compare_o n i u m d
        ≡ ok (long_of (value_of k), u) d)
      × (unpack_float hash names host compare_p compare_o n i u m d
          ≡ ok (float_of (value_of k), u) d)
      × (unpack_double hash names host compare_p compare_o n i u m d
          ≡ ok (double_of (value_of k), u) d)
      × (unpack_data hash names host compare_p compare_o n i u m d ≡ ok (data_in (value_of k), u) d)
  Element n i none u m d =
      (unpack_var_int64 hash names host compare_p compare_o n i u m d ≡ fault)
      × (unpack_float hash names host compare_p compare_o n i u m d ≡ fault)
      × (unpack_double hash names host compare_p compare_o n i u m d ≡ fault)
      × (unpack_data hash names host compare_p compare_o n i u m d ≡ fault)

  element_lem :
      (n c l i : ℕ) (ks : List PackCall) (o : Option PackCall) (rest : List ℕ) (u : MmUnpacker T N)
      (m : Malloc) (d : Dybuf)
      → All FitsCall ks
      → u.roots ≡ some c
      → u.stack ≡ l ∷ rest
      → get_elem? u.heap l ≡ some (list (values ks))
      → get_elem? ks i ≡ o
      → Element n i o u m d
  unfolding unpack_var_int64 unpack_float unpack_double unpack_data
  element_lem n c l i ks none rest u m d f r s e at =
      let got = beyond_list_lem l i (values ks) u m d (rw s) e (get_elem?-values-none ks i f at) in
      let here = ready_lem hash names host compare_p compare_o n c u r in
      (rw (here, got), rw (here, got), rw (here, got), rw (here, got))
  element_lem n c l i ks (some k) rest u m d f r s e at =
      let (x, is) = fits_value k (fits_at ks i k f at) in
      let got = in_list_lem l i (values ks) x u m d (rw s) e (get_elem?-values ks i k f at ∙ is) in
      let here = ready_lem hash names host compare_p compare_o n c u r in
      rw is (rw (here, got), rw (here, got), rw (here, got), rw (here, got))

  end_lem :
      (n key c l : ℕ) (rest : List ℕ) (u : MmUnpacker T N) (m : Malloc) (d : Dybuf)
      → u.roots ≡ some c
      → u.stack ≡ l ∷ rest
      → unpack_array_end hash names host compare_p compare_o n key u m d
        ≡ ok (record u { stack = rest }) d
  unfolding unpack_array_end pop_container
  end_lem n key c l rest u m d r s =
      let here = ready_lem hash names host compare_p compare_o n c u r in rw (here, s)

  -- An array packed behind `initMMPacker` under a key below 2^20: fewer than 2^32 - 1 calls that pack
  -- numbers and data that fit, between `packArray` with their number and `packArrayEnd`, on a valid
  -- buffer at its start with room for the bytes; then `dyb_flip`, and the first call of an unpacker
  -- whose roots are null, with a round for each call and four more. `unpackArray` of the key gives
  -- the number of the calls, which may be 0; inside, each getter at every `uint` index below it gives
  -- the value of the call there, or 0 or null where that is of another type, and is a fault from
  -- there on; `unpackArrayEnd` leads back.
  pub unpack_array-pack_array :
      {I L : Type 0} (ids : Hash ℕ ℕ I) (class_names : Hash (List ℕ) ℕ L)
      (loop : ℕ → MmPacker I L → M (MmPacker I L)) (key n : ℕ) (ks : List PackCall)
      (u : MmUnpacker T N) (m : Malloc) (d : Dybuf)
      → key < 2 ^ 20
      → length ks + 1 < 2 ^ 32
      → All FitsCall ks
      → length ks + 3 < n
      → u.roots ≡ none
      → IsValid d
      → d.position ≡ 0
      → RoomTo m (length (version_bytes ++ array_bytes host key ks)) d
      → (u1 u2 : MmUnpacker T N) × (d' : Dybuf) × (((init_mmpacker ids class_names
                >>= pack_values ids class_names host loop key ks)
              >>= λ _. (flip >> ready hash names host compare_p compare_o n u))
            m d
          ≡ ok u1 d')
        × (d'.limit ≡ d'.position)
        × (unpack_array hash names host compare_p compare_o n key u1 m d' ≡ ok (length ks, u2) d')
        × ((i : ℕ) → Element n (u32 i) (get_elem? ks (u32 i)) u2 m d')
        × (unpack_array_end hash names host compare_p compare_o n key u2 m d' ≡ ok u1 d')
  unfolding start
  unpack_array-pack_array ids class_names loop key n ks u m d h long f fuel idle v z room =
      let s0 : MmUnpacker T N = start hash names host compare_p compare_o u in
      let c : ℕ = length u.heap in
      let (heap, rounds, there, inner) =
        array_Rounds hash names host compare_p compare_o key c ks
          (map (new_map hash host compare_p compare_o)) s0 h long f refl
          (get_elem?-last u.heap (map (new_map hash host compare_p compare_o))) in
      let u1 : MmUnpacker T N = record s0 { heap = heap } in
      let u2 : MmUnpacker T N = record u1 { stack = length s0.heap ∷ u1.stack } in
      let enough : 1 + (1 + (length ks + 1)) < n = omega arith in
      let count : u32 (length (values ks)) ≡ length ks = omega (arith, length-values ks f) in
      let (d', run, end, full) =
        flip-Rounds hash names host compare_p compare_o _ _ _ (1 + (1 + (length ks + 1))) n u u1 m d
          (Writes-bind version_bytes (array_bytes host key ks) _ _
            (init_mmpacker-WritesAs ids class_names)
            (pack_values-Writes ids class_names host loop key ks _ h long f))
          (Rounds-append hash names host compare_p compare_o version_bytes (array_bytes host key ks)
            1 _ s0 s0 u1 (version-Rounds hash names host compare_p compare_o s0) rounds)
          enough v z room idle in
      (
        u1,
        u2,
        d',
        run,
        full,
        entered_lem n key c (length s0.heap) (values ks) u1 m d' refl refl there inner
            ∙ ap (λ l. ok (l, u2) d') count,
        λ i.
            element_lem n c (length s0.heap) (u32 i) ks (get_elem? ks (u32 i)) (c ∷ []) u2 m d' f
              refl refl inner refl,
        end_lem n key c (length s0.heap) (c ∷ []) u2 m d' refl refl,
      )

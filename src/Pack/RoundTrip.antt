-- ===== src/Pack/RoundTrip.antt =====
-- mmo/mmo_pack.c: what is packed at the root of a packer, unpacked.
use lc_clibs.Base.{
  ℕ, suc, ◌+◌, ◌-◌, ◌^◌, ◌<◌, ◌≡◌, arith, Bool, Option, none, some, List, ◌++◌, length, get_elem?,
  u32,
}
use mathlib.Core.Path.{subst}
use lc_clibs.Mem.{Malloc}
use lc_clibs.Dybuf.State.{Dybuf, IsValid, ok, M, ◌>>=◌, ◌>>◌}
use lc_clibs.Dybuf.Resize.{flip}
use lc_clibs.Dybuf.Reads.{Holds, HoldsAt, advance}
use lc_clibs.Dybuf.Writes.{WritesAs, Writes-bind, Writes-pure, RoomTo}
use lc_clibs.Dybuf.TypdexCodec.{append_typdex-Writes}
use lc_clibs.Dybuf.VarFormat.{var_bytes}
use lc_clibs.Dybuf.VarCodec.{append_var_u64-Writes}
use lc_clibs.Dybuf.TypdexFormat.{typdex_bytes}
use lc_clibs.Ext.Hash.{Hash}
use lc_clibs.Ext.Map.{MmMapItem, MmMap}
use lc_clibs.Pack.Codes.{pkrdex_function, pkrfn_version, packer_version_v1}
use lc_clibs.Pack.Packer.{PackCall, init_mmpacker}
use lc_clibs.Pack.CallCodec.{sent}
use lc_clibs.Pack.Unpacker.{
  Primary, mmint, Value, Node, map, tmp_context, list, MmUnpacker, last_item, get_item,
}
use lc_clibs.Pack.Process.{start, process}
use lc_clibs.Pack.Getters.{
  long_of, float_of, double_of, data_in, map_of, get_by_int_from_stack, ready, unpack_var_int64,
  unpack_float, unpack_double, unpack_data,
}
use lc_clibs.Pack.Rounds.{Rounds, Rounds-end}

-- `initMMPacker` writes the version.
abbrev pub version_bytes : List ℕ
version_bytes = typdex_bytes pkrdex_function pkrfn_version ++ var_bytes packer_version_v1

module _ {I N : Type 0} (ids : Hash ℕ ℕ I) (names : Hash (List ℕ) ℕ N) where
  pub init_mmpacker-WritesAs :
      WritesAs version_bytes
        (record {
          level = 0;
          obj_to_id = ids.empty;
          id_to_obj = ids.empty;
          class_name_to_id = names.empty;
        })
        (init_mmpacker ids names)
  unfolding init_mmpacker
  init_mmpacker-WritesAs =
      Writes-bind (typdex_bytes pkrdex_function pkrfn_version) (var_bytes packer_version_v1) _ _
        (append_typdex-Writes pkrdex_function pkrfn_version (omega arith) (omega arith))
        (Writes-pure _ _ _ (append_var_u64-Writes packer_version_v1 (omega arith)))

module _ {T N : Type 0} (hash : Hash (List ℕ) (MmMapItem Primary Value) T)
    (names : Hash ℕ (Option (List ℕ)) N) (host : Bool) (compare_p : Primary → Primary → ℕ)
    (compare_o : Value → Value → ℕ) where
  -- Every getter of a number or data gives, at each `uint`, what was sent there; 0 or null where
  -- nothing of its type was.
  abbrev pub Answers : ℕ → List PackCall → MmUnpacker T N → Type 0
  Answers n cs u =
      (i : ℕ) (m : Malloc) (d : Dybuf)
      → (unpack_var_int64 hash names host compare_p compare_o n (u32 i) u m d
          ≡ ok (long_of (sent cs (u32 i) none), u) d)
        × (unpack_float hash names host compare_p compare_o n (u32 i) u m d
            ≡ ok (float_of (sent cs (u32 i) none), u) d)
        × (unpack_double hash names host compare_p compare_o n (u32 i) u m d
            ≡ ok (double_of (sent cs (u32 i) none), u) d)
        × (unpack_data hash names host compare_p compare_o n (u32 i) u m d
            ≡ ok (data_in (sent cs (u32 i) none), u) d)

  pub get_by_int_from_stack_lem :
      (c i : ℕ) (node : Node T) (mm : MmMap T) (u : MmUnpacker T N) (m : Malloc) (d : Dybuf)
      → last_item u ≡ some c
      → get_elem? u.heap c ≡ some node
      → map_of node ≡ some mm
      → get_by_int_from_stack hash names host compare_p compare_o u i m d
        ≡ ok (get_item hash host compare_p compare_o mm (mmint i)) d
  unfolding get_by_int_from_stack
  get_by_int_from_stack_lem c i (map m0) mm u m d s e h = let q : m0 ≡ mm = cc in rw (s, e, q)
  get_by_int_from_stack_lem c i (tmp_context m0) mm u m d s e h =
      let q : m0 ≡ mm = cc in rw (s, e, q)
  get_by_int_from_stack_lem c i (list items) mm u m d s e h = let bad : none ≡ some mm = h in cc

  pub answers_lem :
      (n c r : ℕ) (cs : List PackCall) (node : Node T) (mm : MmMap T) (u : MmUnpacker T N)
      → u.roots ≡ some r
      → last_item u ≡ some c
      → get_elem? u.heap c ≡ some node
      → map_of node ≡ some mm
      → ((i : ℕ)
          → i < 2 ^ 32
          → get_item hash host compare_p compare_o mm (mmint i) ≡ sent cs i none)
      → Answers n cs u
  unfolding ready unpack_var_int64 unpack_float unpack_double unpack_data
  answers_lem n c r cs node mm u k s e h got i m d =
      let g = get_by_int_from_stack_lem c (u32 i) node mm u m d s e h in
      let at = got (u32 i) (omega arith) in
      (rw (k, g, at), rw (k, g, at), rw (k, g, at), rw (k, g, at))

  -- What is written into a valid buffer at its start, then flipped and processed.
  pub flip-Rounds :
      {A : Type 0} (a : A) (bs : List ℕ) (op : M A) (k n : ℕ) (u u' : MmUnpacker T N) (m : Malloc)
      (d : Dybuf)
      → WritesAs bs a op
      → Rounds hash names host compare_p compare_o bs k
          (start hash names host compare_p compare_o u)
          u'
      → k < n
      → IsValid d
      → d.position ≡ 0
      → RoomTo m (length bs) d
      → u.roots ≡ none
      → (d' : Dybuf) × ((op >>= λ _. (flip >> ready hash names host compare_p compare_o n u)) m d
          ≡ ok u' d')
        × (d'.position ≡ length bs)
        × (d'.limit ≡ d'.position)
  unfolding flip ready process
  flip-Rounds a bs op k n u u' m d w r l v z room none_yet =
      let e : length bs ≡ d.position + length bs = omega arith in
      let (d1, run, done) = w m d v (rw e at room) in
      let begun : Dybuf = record d1 { limit = d1.position; position = 0; mark = 0 } in
      let held : Holds begun bs = record {
        bytes = subst (λ p. HoldsAt d1.block p bs) z done.bytes;
        within = omega (arith, done.position);
        uint_range = omega (
          arith, done.grown.valid.position_le, done.grown.valid.limit_le,
          done.grown.valid.uint_range,
        );
      } in
      let fuel : n ≡ k + suc (n - k - 1) = omega arith in
      let last =
        Rounds-end hash names host compare_p compare_o (n - k - 1) u' m (advance (length bs) begun)
          (omega (arith, done.position)) held.uint_range in
      (
        advance (length bs) begun,
        rw (run, none_yet, fuel, r (suc (n - k - 1)) m begun held, last),
        omega arith,
        omega (arith, done.position),
      )

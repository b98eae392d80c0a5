-- ===== src/Pack/RootTrip.antt =====
-- mmo/mmo_pack.c: numbers and data packed without an object, and got back.
use lc_clibs.Base.{
  ℕ, ◌+◌, ◌<◌, ◌≡◌, refl, ◌∙◌, ap, arith, Bool, Option, none, some, List, ◌++◌, All, length,
  get_elem?-last,
}
use lc_clibs.Mem.{Malloc}
use lc_clibs.Dybuf.State.{Dybuf, IsValid, ok, M, ◌>>=◌, ◌>>◌}
use lc_clibs.Dybuf.Resize.{flip}
use lc_clibs.Dybuf.Writes.{Writes-bind, RoomTo}
use lc_clibs.Dybuf.VarCodec.{next_var_u64-Reads}
use lc_clibs.Dypkt.FieldCodec.{Reads-map}
use lc_clibs.Ext.Hash.{Hash}
use lc_clibs.Ext.Map.{MmMapItem, MmMap, get_mmmap_item_value}
use lc_clibs.Pack.Codes.{packer_version_v1}
use lc_clibs.Pack.Packer.{PackCall, MmPacker, init_mmpacker, run_calls}
use lc_clibs.Pack.CallCodec.{FitsCall, sent, calls_bytes, run_calls-WritesAs}
use lc_clibs.Pack.Unpacker.{Primary, hash_of, mmint, Value, map, MmUnpacker, new_map, get_item}
use lc_clibs.Pack.Process.{next, process_item, start}
use lc_clibs.Pack.Getters.{ready}
use lc_clibs.Pack.Rounds.{Rounds, Rounds-item, Rounds-append}
use lc_clibs.Pack.ItemCodec.{calls-Rounds}
use lc_clibs.Pack.Received.{IsKeyed, map_received, map_received_lem, received-map}
use lc_clibs.Pack.RoundTrip.{
  version_bytes, init_mmpacker-WritesAs, Answers, answers_lem, flip-Rounds,
}

module _ {T N : Type 0} (hash : Hash (List ℕ) (MmMapItem Primary Value) T)
    (names : Hash ℕ (Option (List ℕ)) N) (host : Bool) (compare_p : Primary → Primary → ℕ)
    (compare_o : Value → Value → ℕ) where
  pub new_map-IsKeyed :
      IsKeyed hash host compare_p compare_o (new_map hash host compare_p compare_o)
  new_map-IsKeyed = rw hash.empty_law tt

  pub get_item-new_map :
      (k : Primary)
      → get_item hash host compare_p compare_o (new_map hash host compare_p compare_o) k ≡ none
  unfolding get_mmmap_item_value
  get_item-new_map k =
      rw (get_mmmap_item_value, hash.find_law hash.empty (hash_of host k), hash.empty_law)

  pub version-Rounds :
      (u : MmUnpacker T N) → Rounds hash names host compare_p compare_o version_bytes 1 u u
  unfolding process_item
  version-Rounds u =
      Rounds-item hash names host compare_p compare_o _ _ _ u u (omega arith) (omega arith) (
        Reads-map _ packer_version_v1 _ _ (λ _. next u) refl
          (next_var_u64-Reads packer_version_v1 (omega arith)))

  -- Calls that pack numbers and data, each fitting its type under a key below 2^20, made behind
  -- `initMMPacker` on a valid buffer at its start with room for the bytes; then `dyb_flip`, and the
  -- first getter of an unpacker whose roots are null. With a round for each call and two more, the
  -- getter's `process` ends at the limit, and from then on every getter gives at every number the
  -- value of the last call with that key, or 0 or null where there is none of the getter's type.
  pub unpack-run_calls :
      {I L : Type 0} (ids : Hash ℕ ℕ I) (class_names : Hash (List ℕ) ℕ L)
      (loop : ℕ → MmPacker I L → M (MmPacker I L)) (cs : List PackCall) (n : ℕ) (u : MmUnpacker T N)
      (m : Malloc) (d : Dybuf)
      → All FitsCall cs
      → length cs + 1 < n
      → u.roots ≡ none
      → IsValid d
      → d.position ≡ 0
      → RoomTo m (length (version_bytes ++ calls_bytes host cs)) d
      → (u' : MmUnpacker T N) × (d' : Dybuf) × (((init_mmpacker ids class_names
                >>= run_calls ids class_names host loop cs)
              >>= λ _. (flip >> ready hash names host compare_p compare_o n u))
            m d
          ≡ ok u' d')
        × (d'.limit ≡ d'.position)
        × Answers hash names host compare_p compare_o n cs u'
  unfolding start
  unpack-run_calls ids class_names loop cs n u m d f fuel empty v z room =
      let begun : MmUnpacker T N = start hash names host compare_p compare_o u in
      let first : MmMap T = new_map hash host compare_p compare_o in
      let (heap, rounds, at, others) =
        calls-Rounds hash names host compare_p compare_o cs (length u.heap) (map first) begun f refl
          (get_elem?-last u.heap (map first)) in
      let (keyed, got) =
        map_received_lem hash host compare_p compare_o cs first f new_map-IsKeyed in
      let u' : MmUnpacker T N = record begun { heap = heap } in
      let (d', run, there, full) =
        flip-Rounds hash names host compare_p compare_o _ _ _ (1 + length cs) n u u' m d
          (Writes-bind version_bytes (calls_bytes host cs) _ _
            (init_mmpacker-WritesAs ids class_names)
            (run_calls-WritesAs ids class_names host loop cs _ f))
          (Rounds-append hash names host compare_p compare_o version_bytes (calls_bytes host cs) 1
            (length cs) begun begun u' (version-Rounds begun) rounds)
          (omega arith) v z room empty in
      (
        u',
        d',
        run,
        full,
        answers_lem hash names host compare_p compare_o n (length u.heap) (length u.heap) cs
            (map (map_received hash host compare_p compare_o first cs)) _ u' refl refl
            (at ∙ ap some (received-map hash host compare_p compare_o cs first f)) refl
            (λ i h. got i h ∙ ap (sent cs i) (get_item-new_map (mmint i))),
      )

-- ===== src/Pack/ObjectLaws.antt =====
-- mmo/mmo_pack.c: `packObject` and `unpackObject` of one object.
use lc_clibs.Base.{
  ℕ, suc, ◌+◌, ◌^◌, ◌<◌, ◌≡◌, ◌≢◌, arith, Bool, Option, none, some, List, All, length,
}
use lc_clibs.Mem.{Malloc}
use lc_clibs.Dybuf.State.{Dybuf, IsValid, ok, M, ◌>>=◌, ◌>>◌}
use lc_clibs.Dybuf.Resize.{flip}
use lc_clibs.Dybuf.Writes.{RoomTo}
use lc_clibs.Ext.Hash.{Hash}
use lc_clibs.Ext.Map.{MmMapItem}
use lc_clibs.Pack.Codes.{class_name_key}
use lc_clibs.Pack.Packer.{PackCall, Packable, init_mmpacker, pack_object, pack_waiting}
use lc_clibs.Pack.CallCodec.{FitsCall}
use lc_clibs.Pack.ObjectCodec.{IsText, Plain}
use lc_clibs.Pack.ObjectPacked.{packet_of_one, packet_of_one-WritesAs}
use lc_clibs.Pack.Unpacker.{Primary, Value, MmUnpacker}
use lc_clibs.Pack.Getters.{ready, unpack_next_context, finish_object, unpack_object}
use lc_clibs.Pack.RoundTrip.{Answers, flip-Rounds}
use lc_clibs.Pack.ObjectTrip.{at_alloc, at_context, enter_lem, call_lem}
use lc_clibs.Pack.ObjectResult.{creating, rebuilt, made_lem, again_lem, inside_lem, packet_Rounds}

module _ {T N : Type 0} (hash : Hash (List ℕ) (MmMapItem Primary Value) T)
    (names : Hash ℕ (Option (List ℕ)) N) (host : Bool) (compare_p : Primary → Primary → ℕ)
    (compare_o : Value → Value → ℕ) where
  -- An object of one class whose `fn_pack` packs numbers and data that fit, each under a key below
  -- 2^20, packed under a key below 2^20 by a fresh packer, with fuel for two rounds of its loop, on
  -- a valid buffer at its start with room for the bytes; its class name is text and not the key of
  -- class names. Then `dyb_flip`, and the first call of an unpacker without roots or class names,
  -- with a round for each packed call and seven more; the allocator of that class enters the
  -- context of the class and returns `stru`. The first `unpackObject` of the key returns `stru`,
  -- having called the allocator on an unpacker in which, behind the entry, every getter gives at
  -- every `uint` what was packed there last, or 0 or null; a second one returns the same object, from the table.
  pub unpack_object-pack_object :
      {I L : Type 0} (ids : Hash ℕ ℕ I) (class_names : Hash (List ℕ) ℕ L) (objects : ℕ → Packable)
      (more key obj stru n : ℕ) (name : List ℕ) (cs : List PackCall)
      (table : List ℕ → Option (MmUnpacker T N → M (Option ℕ × MmUnpacker T N)))
      (u : MmUnpacker T N) (m : Malloc) (d : Dybuf)
      → key < 2 ^ 20
      → Plain objects obj name cs
      → IsText name
      → name ≢ class_name_key
      → All FitsCall cs
      → table name ≡ some (creating hash names host compare_p compare_o n stru name)
      → u.roots ≡ none
      → u.id_to_class_name ≡ names.empty
      → length cs + 6 < n
      → IsValid d
      → d.position ≡ 0
      → RoomTo m (length (packet_of_one host key name cs)) d
      → (u1 u2 inside v : MmUnpacker T N) × (d' : Dybuf) × (((init_mmpacker ids class_names
                >>= pack_object ids class_names host
                    (pack_waiting ids class_names host objects (suc (suc more)))
                    key
                    (some obj))
              >>= λ _. (flip >> ready hash names host compare_p compare_o n u))
            m d
          ≡ ok u1 d')
        × (d'.limit ≡ d'.position)
        × (unpack_object hash names host compare_p compare_o n (some table) key u1 m d'
            ≡ ok (some stru, u2) d')
        × (unpack_object hash names host compare_p compare_o n (some table) key u1 m d'
            ≡ (creating hash names host compare_p compare_o n stru name v >>= λ made.
                  finish_object hash names host compare_p compare_o n (some table) made.0 made.1)
                m d')
        × (unpack_next_context hash names host compare_p compare_o n stru name v m d'
            ≡ ok inside d')
        × Answers hash names host compare_p compare_o n cs inside
        × (unpack_object hash names host compare_p compare_o n (some table) key u2 m d'
            ≡ ok (some stru, u2) d')
  unpack_object-pack_object ids class_names objects more key obj stru n name cs table u m d h plain
        t ne f a idle nameless fuel valid z room =
      let (r, c, x, u1, rounds, un) =
        packet_Rounds hash names host compare_p compare_o n key name cs u h t f nameless in
      let (d', run, there, full) =
        flip-Rounds hash names host compare_p compare_o _ _ _ _ n u u1 m d
          (packet_of_one-WritesAs ids class_names host objects more key obj name cs h plain t f)
          rounds (omega arith) valid z room idle in
      (
        u1,
        rebuilt hash names host compare_p compare_o n stru u1,
        at_context hash names host compare_p compare_o n stru c x u1,
        at_alloc hash names host compare_p compare_o n c u1,
        d',
        run,
        full,
        made_lem hash names host compare_p compare_o n key name cs r c x u1 un table stru m d' ne a,
        call_lem hash names host compare_p compare_o n key name cs r c x u1 un table _ m d' ne a,
        enter_lem hash names host compare_p compare_o n key name cs r c x u1 un stru m d',
        inside_lem hash names host compare_p compare_o n key name cs r c x u1 un table stru m d' f,
        again_lem hash names host compare_p compare_o n key name cs r c x u1 un table stru m d',
      )

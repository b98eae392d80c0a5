-- ===== src/Pack/Malformed.antt =====
-- mmo/mmo_pack.c: `process` on items that no packer writes.
use lc_clibs.Base.{
  ℕ, suc, ◌+◌, ◌^◌, ◌<◌, ◌≡◌, refl, ◌∙◌, arith, Bool, Option, List, [], ◌∷◌, ◌++◌, length,
  length-append, ne→==, sub32,
}
use lc_clibs.Mem.{Malloc}
use lc_clibs.Dybuf.State.{Dybuf, fault}
use lc_clibs.Dybuf.Resize.{get_remainder}
use lc_clibs.Dybuf.Reads.{Holds, Holds-split, advance}
use lc_clibs.Dybuf.VarFormat.{var_bytes}
use lc_clibs.Dybuf.SignedCodec.{folded, next_var_s64-Reads}
use lc_clibs.Dybuf.TypdexFormat.{typdex_bytes}
use lc_clibs.Dybuf.TypdexCodec.{next_typdex-Reads}
use lc_clibs.Dypkt.Packet.{typdex_bytes-pos}
use lc_clibs.Ext.Hash.{Hash}
use lc_clibs.Ext.Map.{MmMapItem}
use lc_clibs.Pack.Codes.{pkrdex_integer, pkrdex_array}
use lc_clibs.Pack.Unpacker.{Primary, Value, MmUnpacker, push_into_stack}
use lc_clibs.Pack.Process.{put, process_item, process_rest}
use lc_clibs.Pack.ArrayRounds.{array_end-Rounds}

module _ {T N : Type 0} (hash : Hash (List ℕ) (MmMapItem Primary Value) T)
    (names : Hash ℕ (Option (List ℕ)) N) (host : Bool) (compare_p : Primary → Primary → ℕ)
    (compare_o : Value → Value → ℕ) where
  orphan_value :
      (i v n : ℕ) (u : MmUnpacker T N) (m : Malloc) (d : Dybuf)
      → i < 2 ^ 20
      → v < 2 ^ 64
      → u.stack ≡ []
      → Holds d (typdex_bytes pkrdex_integer i ++ var_bytes (folded v))
      → process_rest hash names host compare_p compare_o (suc n) u m d ≡ fault
  unfolding process_rest get_remainder process_item put push_into_stack
  orphan_value i v n u m d h k s b =
      let e = length-append (typdex_bytes pkrdex_integer i) (var_bytes (folded v)) in
      let (p, q) = Holds-split (typdex_bytes pkrdex_integer i) (var_bytes (folded v)) b in
      let more : sub32 d.limit d.position ≡ 0 → ⊥ =
        λ z. absurd (omega (arith, b.within, b.uint_range, e, typdex_bytes-pos pkrdex_integer i)) in
      rw (
        ne→== (sub32 d.limit d.position) 0 more,
        next_typdex-Reads pkrdex_integer i (omega arith) h m d p,
        next_var_s64-Reads v k m (advance (length (typdex_bytes pkrdex_integer i)) d) q,
        s,
      )

  -- From an unpacker with the roots alone on the stack, the end of an array that was not begun, with
  -- an integer behind it, their keys below 2^20: the loop of `process` faults at the integer, since
  -- nothing is left on the stack to put it into.
  pub process-unmatched_array_end :
      (i j v r n : ℕ) (u : MmUnpacker T N) (m : Malloc) (d : Dybuf)
      → i < 2 ^ 20
      → j < 2 ^ 20
      → v < 2 ^ 64
      → u.stack ≡ r ∷ []
      → Holds d (
          (typdex_bytes pkrdex_array i ++ var_bytes 0)
          ++ (typdex_bytes pkrdex_integer j ++ var_bytes (folded v)))
      → process_rest hash names host compare_p compare_o (1 + suc n) u m d ≡ fault
  process-unmatched_array_end i j v r n u m d h k l s b =
      let (p, q) =
        Holds-split (typdex_bytes pkrdex_array i ++ var_bytes 0)
          (typdex_bytes pkrdex_integer j ++ var_bytes (folded v)) b in
      array_end-Rounds hash names host compare_p compare_o i r [] u h s (suc n) m d p
      ∙ orphan_value j v n (record u { stack = [] }) m _ k l refl q

-- ===== src/Pack/Rounds.antt =====
-- mmo/mmo_pack.c: the loop of `process`, item by item.
use lc_clibs.Base.{
  ℕ, suc, ◌+◌, ◌<◌, ◌^◌, ◌≡◌, sym, ◌∙◌, ap, arith, Bool, Option, some, List, [], ◌++◌, length,
  length-append, append-nil, eq→==, ne→==, sub32,
}
use mathlib.Core.Path.{subst}
use lc_clibs.Mem.{Malloc}
use lc_clibs.Dybuf.State.{Dybuf, ok}
use lc_clibs.Dybuf.Resize.{get_remainder}
use lc_clibs.Dybuf.Reads.{Holds, Holds-split, Reads, advance, advance-advance}
use lc_clibs.Dybuf.TypdexFormat.{typdex_bytes}
use lc_clibs.Dybuf.TypdexCodec.{next_typdex-Reads}
use lc_clibs.Dypkt.Packet.{typdex_bytes-pos}
use lc_clibs.Ext.Hash.{Hash}
use lc_clibs.Ext.Map.{MmMapItem}
use lc_clibs.Pack.Unpacker.{Primary, Value, MmUnpacker}
use lc_clibs.Pack.Process.{next, process_item, process_rest}

module _ {T N : Type 0} (hash : Hash (List ℕ) (MmMapItem Primary Value) T)
    (names : Hash ℕ (Option (List ℕ)) N) (host : Bool) (compare_p : Primary → Primary → ℕ)
    (compare_o : Value → Value → ℕ) where
  -- Where the bytes stand next, `k` rounds of the loop read them and take `u` to `u'`.
  abbrev pub Rounds : List ℕ → ℕ → MmUnpacker T N → MmUnpacker T N → Type 0
  Rounds bs k u u' =
      (n : ℕ) (m : Malloc) (d : Dybuf)
      → Holds d bs
      → process_rest hash names host compare_p compare_o (k + n) u m d
        ≡ process_rest hash names host compare_p compare_o n u' m (advance (length bs) d)

  one_round :
      (t i : ℕ) (bs : List ℕ) (u u' : MmUnpacker T N)
      → t < 256
      → i < 2 ^ 20
      → Reads bs (next u') (process_item hash names host compare_p compare_o (t, i) u)
      → (n : ℕ) (m : Malloc) (d : Dybuf) → Holds d (typdex_bytes t i ++ bs)
      → process_rest hash names host compare_p compare_o (suc n) u m d
        ≡ process_rest hash names host compare_p compare_o n u' m
            (advance (length (typdex_bytes t i ++ bs)) d)
  unfolding process_rest get_remainder
  one_round t i bs u u' ht hi r n m d h =
      let e = length-append (typdex_bytes t i) bs in
      let (p, q) = Holds-split (typdex_bytes t i) bs h in
      let more : sub32 d.limit d.position ≡ 0 → ⊥ =
        λ z. absurd (omega (arith, h.within, h.uint_range, e, typdex_bytes-pos t i)) in
      rw
        (
          ne→== (sub32 d.limit d.position) 0 more,
          next_typdex-Reads t i ht hi m d p,
          r m (advance (length (typdex_bytes t i)) d) q,
        )
        (ap (process_rest hash names host compare_p compare_o n u' m)
          (advance-advance d (length (typdex_bytes t i)) (length bs) _ (sym e)))

  pub Rounds-item :
      (t i : ℕ) (bs : List ℕ) (u u' : MmUnpacker T N)
      → t < 256
      → i < 2 ^ 20
      → Reads bs (next u') (process_item hash names host compare_p compare_o (t, i) u)
      → Rounds (typdex_bytes t i ++ bs) 1 u u'
  Rounds-item t i bs u u' ht hi r n m d h =
      let e : 1 + n ≡ suc n = omega arith in rw e (one_round t i bs u u' ht hi r n m d h)

  -- An item that is its header alone.
  pub Rounds-bare :
      (t i : ℕ) (u u' : MmUnpacker T N)
      → t < 256
      → i < 2 ^ 20
      → ((m : Malloc) (d : Dybuf)
          → process_item hash names host compare_p compare_o (t, i) u m d ≡ ok (next u') d)
      → Rounds (typdex_bytes t i) 1 u u'
  Rounds-bare t i u u' ht hi r =
      subst (λ bs. Rounds bs 1 u u') (append-nil (typdex_bytes t i))
        (Rounds-item t i [] u u' ht hi (λ m d h.
          let z : d.position ≡ d.position + 0 = omega arith in
          r m d ∙ ap (λ p. ok (next u') (record d { position = p })) z))

  pub Rounds-none : (u : MmUnpacker T N) → Rounds [] 0 u u
  Rounds-none u n m d h =
      let e : 0 + n ≡ n = omega arith in
      let z : d.position ≡ d.position + 0 = omega arith in
      rw e (
        ap (λ p. process_rest hash names host compare_p compare_o n u m (record d { position = p }))
          z)

  pub Rounds-append :
      (bs cs : List ℕ) (k l : ℕ) (u v w : MmUnpacker T N)
      → Rounds bs k u v
      → Rounds cs l v w
      → Rounds (bs ++ cs) (k + l) u w
  Rounds-append bs cs k l u v w f g n m d h =
      let (p, q) = Holds-split bs cs h in
      let e : k + l + n ≡ k + (l + n) = omega arith in
      rw e (
        f (l + n) m d p
        ∙ g n m (advance (length bs) d) q
        ∙ ap (process_rest hash names host compare_p compare_o n w m)
            (advance-advance d (length bs) (length cs) _ (sym (length-append bs cs))))

  -- At the limit the loop ends.
  pub Rounds-end :
      (n : ℕ) (u : MmUnpacker T N) (m : Malloc) (d : Dybuf)
      → d.limit ≡ d.position
      → d.limit < 2 ^ 32
      → process_rest hash names host compare_p compare_o (suc n) u m d ≡ ok (some (next u)) d
  unfolding process_rest get_remainder
  Rounds-end n u m d e h =
      let z : sub32 d.limit d.position ≡ 0 = omega arith in
      rw (eq→== (sub32 d.limit d.position) 0 z)

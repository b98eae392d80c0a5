-- ===== src/Dypkt/Packet.antt =====
-- dybuf/dypkt.h: a whole packet, packed and unpacked.
use lc_clibs.Base.{
  ℕ, zero, suc, ◌+◌, ◌<◌, ◌≡◌, Bool, Option, none, some, List, [], ◌∷◌, ◌++◌, arith, All, length,
  length-append, if◌then◌else◌, ◌==◌, eq→==, ne→==, sub32,
}
use mathlib.Core.Path.{subst}
use lc_clibs.Mem.{Malloc}
use lc_clibs.Dybuf.State.{Dybuf, IsValid, ok, M, pure, ◌>>=◌, ◌>>◌}
use lc_clibs.Dybuf.Resize.{get_remainder, flip}
use lc_clibs.Dybuf.Reads.{Holds, HoldsAt, Holds-split, advance}
use lc_clibs.Dybuf.Writes.{Writes, Writes-then, RoomTo}
use lc_clibs.Dybuf.TypdexFormat.{typdex_bytes}
use lc_clibs.Dypkt.Field.{
  Field, Fits, type_of, index_of, value_bytes, field_bytes, append_field, next_field,
}
use lc_clibs.Dypkt.FieldCodec.{Writes-done, append_field-Writes, next_field-Reads}

-- One field, then the others.
unfoldable pub field_then : M (Option Field) → M (Option (List Field)) → M (Option (List Field))
field_then one more = do
  got ← one
  elim got [
    | none ↦ pure none
    | some fl ↦ (do rest ← more; pure (elim rest [ none ↦ none | some fs ↦ some (fl ∷ fs) ]))
  ]

module _ (host : Bool) where
  abbrev pub packet_bytes : List Field → List ℕ
  packet_bytes [] = []
  packet_bytes (fl ∷ fs) = field_bytes host fl ++ packet_bytes fs

  unfoldable pub append_fields : List Field → M (Unit {0})
  append_fields [] = pure tt
  append_fields (fl ∷ fs) = append_field host fl >> append_fields fs

  -- `while (dyp_get_remainder(dyp) > 0)`; none is a field of an unknown type, or fuel run out.
  unfoldable pub next_fields : ℕ → M (Option (List Field))
  unfolding field_then
  next_fields zero = pure none
  next_fields (suc n) =
      let more = next_fields n in
      (do
        left ← get_remainder
        if left == 0 then pure (some []) else field_then (next_field host) more)

append_fields-Writes :
    (host : Bool) (fs : List Field)
    → All Fits fs
    → Writes (packet_bytes host fs) (append_fields host fs)
unfolding append_fields
append_fields-Writes host [] h = Writes-done
append_fields-Writes host (fl ∷ fs) h =
    Writes-then (field_bytes host fl) (packet_bytes host fs) _ _ (append_field-Writes host fl h.0)
      (append_fields-Writes host fs h.1)

pub typdex_bytes-pos : (t i : ℕ) → 0 < length (typdex_bytes t i)
unfolding typdex_bytes
typdex_bytes-pos t i = ground arith

field_bytes-pos : (host : Bool) (fl : Field) → 0 < length (field_bytes host fl)
field_bytes-pos host fl = omega (
  arith,
  typdex_bytes-pos (type_of fl) (index_of fl),
  length-append (typdex_bytes (type_of fl) (index_of fl)) (value_bytes host fl),
)

-- With a round for each field and one more, the loop reads every field up to the limit.
next_fields_lem :
    (host : Bool) (fs : List Field) (n : ℕ) (m : Malloc) (d : Dybuf)
    → length fs < n
    → All Fits fs
    → Holds d (packet_bytes host fs)
    → d.limit ≡ d.position + length (packet_bytes host fs)
    → next_fields host n m d ≡ ok (some fs) (advance (length (packet_bytes host fs)) d)
unfolding next_fields get_remainder
next_fields_lem host fs zero m d h f b e = elim h [ ]
next_fields_lem host [] (suc n) m d h f b e =
    let z : sub32 d.limit d.position ≡ 0 = omega (arith, b.uint_range) in
    let p : d.position + 0 ≡ d.position = omega arith in
    rw (eq→== (sub32 d.limit d.position) 0 z, p)
next_fields_lem host (fl ∷ fs) (suc n) m d h f b e =
    let (one, rest) = Holds-split (field_bytes host fl) (packet_bytes host fs) b in
    let l = length-append (field_bytes host fl) (packet_bytes host fs) in
    let more : sub32 d.limit d.position ≡ 0 → ⊥ =
      λ z. absurd (omega (arith, b.uint_range, l, field_bytes-pos host fl)) in
    let p : d.position + length (field_bytes host fl) + length (packet_bytes host fs)
        ≡ d.position + length (field_bytes host fl ++ packet_bytes host fs) =
      omega (arith, l) in
    rw
      (
        ne→== (sub32 d.limit d.position) 0 more,
        next_field-Reads host fl f.0 m d one,
        next_fields_lem host fs n m (advance (length (field_bytes host fl)) d) (omega arith) f.1
            rest (omega (arith, l)),
      )
      (rw p)

-- Fields that fit, packed into a valid buffer at its start with room for their bytes, then
-- `dyb_flip`: the loop over `dyp_next_type` returns the same fields in order, on the same host,
-- given a round for each and one more. The position ends at the limit, behind the bytes.
pub next_fields-append_fields :
    (host : Bool) (fs : List Field) (n : ℕ) (m : Malloc) (d : Dybuf)
    → All Fits fs
    → length fs < n
    → IsValid d
    → d.position ≡ 0
    → RoomTo m (length (packet_bytes host fs)) d
    → (d' : Dybuf) × ((append_fields host fs >> (flip >> next_fields host n)) m d ≡ ok (some fs) d')
      × (d'.position ≡ length (packet_bytes host fs))
      × (d'.limit ≡ d'.position)
unfolding flip
next_fields-append_fields host fs n m d f h v z room =
    let bs = packet_bytes host fs in
    let e : length bs ≡ d.position + length bs = omega arith in
    let (d1, run, done) = append_fields-Writes host fs f m d v (rw e at room) in
    let start : Dybuf = record d1 { limit = d1.position; position = 0; mark = 0 } in
    let held : Holds start bs = record {
      bytes = subst (λ p. HoldsAt d1.block p bs) z done.bytes;
      within = omega (arith, done.position);
      uint_range = omega (
        arith, done.grown.valid.position_le, done.grown.valid.limit_le, done.grown.valid.uint_range,
      );
    } in
    (
      advance (length bs) start,
      rw (run, next_fields_lem host fs n m start h f held (omega (arith, done.position))),
      omega arith,
      omega (arith, done.position),
    )

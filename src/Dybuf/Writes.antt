-- ===== src/Dybuf/Writes.antt =====
-- dybuf/dybuf.h: what an append does to a buffer that has room or may grow.
use lc_clibs.Base.{
  ℕ, ◌+◌, ◌^◌, ◌≤◌, ◌<◌, ◌≡◌, refl, ◌⊎◌, inl, inr, true, false, List, ◌++◌, arith, length,
  get_elem?, max, ◌∙◌, add32, lt→ltb, ltb-false, length-append,
}
use mathlib.Core.Path.{subst}
use native.Mathlib.Decide.{dec_lt}
use lc_clibs.Mem.{Malloc}
use lc_clibs.Dybuf.State.{Dybuf, ok, M, pure, ◌>>=◌, ◌>>◌, IsValid}
use lc_clibs.Dybuf.Resize.{reserve, limited, resized}
use lc_clibs.Dybuf.Resized.{
  recopied, get_elem?-recopied, resized-IsValid, limited-IsValid, set_limit_within, set_limit_met,
}
use lc_clibs.Dybuf.Reads.{HoldsAt, HoldsAt-join, HoldsAt-same}
use lc_clibs.Dybuf.Runs.{set_run, length-set_run, get_elem?-set_run, HoldsAt-set_run, filled, Fills}

-- The buffer can be written up to index `e`: its block reaches there, or it may grow and
-- `malloc` meets every request that this takes.
pub record RoomTo (m : Malloc) (e : ℕ) (d : Dybuf) : Type 0 where
  pub uint_range : e < 2 ^ 32
  pub reach :
      (e ≤ d.capacity) ⊎ ((d.fixed_capacity ≡ false) × ((k : ℕ) → k ≤ max 16 e → m k ≡ true))

-- What a write of `n` bytes at the position leaves alone, and the room that it makes.
pub record Grown (n : ℕ) (d d' : Dybuf) : Type 0 where
  pub valid : IsValid d'
  pub limit : d'.limit ≡ max d.limit (d.position + n)
  pub capacity : d.capacity ≤ d'.capacity
  pub mark : d'.mark ≡ d.mark
  pub fixed_capacity : d'.fixed_capacity ≡ d.fixed_capacity
  pub kept :
      (i : ℕ)
      → i < d.capacity
      → (i < d.position) ⊎ (d.position + n ≤ i)
      → get_elem? d'.block i ≡ get_elem? d.block i

-- The bytes stand at the old position and the position is behind them.
pub record Appended (bs : List ℕ) (d d' : Dybuf) : Type 0 where
  pub grown : Grown (length bs) d d'
  pub position : d'.position ≡ d.position + length bs
  pub bytes : HoldsAt d'.block d.position bs

-- From a valid buffer with the room the call ends without a fault, returns the value and has
-- written the bytes.
abbrev pub WritesAs : {A : Type 0} → List ℕ → A → M A → Type 0
WritesAs bs a op =
    (m : Malloc) (d : Dybuf)
    → IsValid d
    → RoomTo m (d.position + length bs) d
    → (d' : Dybuf) × (op m d ≡ ok a d') × Appended bs d d'

abbrev pub Writes : List ℕ → M (Unit {0}) → Type 0
Writes bs op = WritesAs bs tt op

-- After the guard the block reaches behind the bytes to come, and nothing else has changed.
pub record Reserved (n : ℕ) (d d' : Dybuf) : Type 0 where
  pub valid : IsValid d'
  pub limit : d'.limit ≡ max d.limit (d.position + n)
  pub capacity : d.capacity ≤ d'.capacity
  pub position : d'.position ≡ d.position
  pub mark : d'.mark ≡ d.mark
  pub fixed_capacity : d'.fixed_capacity ≡ d.fixed_capacity
  pub kept : (i : ℕ) → i < d.capacity → get_elem? d'.block i ≡ get_elem? d.block i

module _ (m : Malloc) {d : Dybuf} (v : IsValid d) (n : ℕ) where
  limited-Reserved :
      d.limit < d.position + n
      → d.position + n ≤ d.capacity
      → Reserved n d (limited d (d.position + n))
  limited-Reserved h k = record {
    valid = limited-IsValid (d.position + n) v k;
    limit = omega arith;
    capacity = omega arith;
    position = ground arith;
    mark = ground (arith, v.mark_le);
    fixed_capacity = refl;
    kept = λ i l. refl;
  }

  regrown-Reserved :
      (c : ℕ)
      → d.position + n ≤ c
      → c < 2 ^ 32
      → d.capacity < d.position + n
      → Reserved n d (limited (resized d c (recopied d c)) (d.position + n))
  regrown-Reserved c h k l = record {
    valid = limited-IsValid (d.position + n) (resized-IsValid v c k) h;
    limit = omega (arith, v.limit_le);
    capacity = omega arith;
    position = ground (arith, v.position_le, v.limit_le);
    mark = ground (arith, v.mark_le, v.position_le, v.limit_le);
    fixed_capacity = refl;
    kept = λ i g. get_elem?-recopied v c i g (omega arith);
  }

  -- The guard before every write of `n` bytes, in a valid buffer with room for them: it ends
  -- without a fault in a valid buffer whose limit is the larger of the old limit and the position
  -- behind the `n` bytes; every byte of the old block, the position and the mark stay.
  pub reserve_lem :
      RoomTo m (d.position + n) d → (d' : Dybuf) × (reserve n m d ≡ ok tt d') × Reserved n d d'
  unfolding reserve
  reserve_lem r =
      let p : add32 d.position n ≡ d.position + n = omega (arith, r.uint_range) in
      elim (dec_lt d.limit (d.position + n)) [
        | no le ↦ (
          d,
          rw (p, ltb-false d.limit (d.position + n) (omega arith)),
          record {
            valid = v;
            limit = omega arith;
            capacity = omega arith;
            position = refl;
            mark = refl;
            fixed_capacity = refl;
            kept = λ i l. refl;
          },
        )
        | yes lt ↦ elim (dec_lt d.capacity (d.position + n)) [
          | no fits ↦ (
            limited d (d.position + n),
            rw (
              p,
              lt→ltb d.limit (d.position + n) lt,
              set_limit_within m v (d.position + n) (omega arith),
            ),
            limited-Reserved lt (omega arith),
          )
          | yes more ↦ elim r.reach [
            | inl fits ↦ absurd (omega arith)
            | inr g ↦ (
              limited (resized d (max 16 (d.position + n)) (recopied d (max 16 (d.position + n))))
                  (d.position + n),
              rw (
                p,
                lt→ltb d.limit (d.position + n) lt,
                set_limit_met m v (d.position + n) g.0 more (g.1 _ (omega arith)),
              ),
              regrown-Reserved (max 16 (d.position + n)) (omega arith) (omega (arith, r.uint_range))
                  more,
            )
          ]
        ]
      ]

-- A guarded write: the guard makes the room that the bytes take.
pub Writes-reserve :
    (bs : List ℕ) (n : ℕ) (op : M (Unit {0}))
    → n ≡ length bs
    → Fills bs op
    → Writes bs (reserve n >> op)
Writes-reserve bs n op e f m d v room =
    let (d1, run, g) = reserve_lem m v n (rw e room) in
    let at : d1.position + length bs ≤ length d1.block =
      omega (arith, g.position, g.valid.block_size, g.valid.limit_le, g.limit) in
    (
      filled bs d1,
      rw (run, f m d1 at (omega (arith, g.position, room.uint_range))),
      record {
        grown = record {
          valid = record {
            block_size = length-set_run d1.block d1.position bs ∙ g.valid.block_size;
            uint_range = g.valid.uint_range;
            limit_le = g.valid.limit_le;
            position_le = omega (arith, g.position, g.limit);
            mark_le = omega (arith, g.mark, g.position, v.mark_le);
          };
          limit = omega (arith, g.limit);
          capacity = g.capacity;
          mark = g.mark;
          fixed_capacity = g.fixed_capacity;
          kept = λ i l s.
              get_elem?-set_run d1.block d1.position bs i (omega (arith, g.position)) ∙ g.kept i l;
        };
        position = omega (arith, g.position);
        bytes =
            subst (λ p. HoldsAt (set_run d1.block d1.position bs) p bs) g.position
              (HoldsAt-set_run d1.block d1.position bs at);
      },
    )

Grown-trans :
    (i j n : ℕ) {d d1 d2 : Dybuf}
    → IsValid d
    → n ≡ i + j
    → d1.position ≡ d.position + i
    → Grown i d d1
    → Grown j d1 d2
    → Grown n d d2
Grown-trans i j n v e p g h = record {
  valid = h.valid;
  limit = omega (arith, g.limit, h.limit);
  capacity = omega (arith, g.capacity, h.capacity);
  mark = h.mark ∙ g.mark;
  fixed_capacity = h.fixed_capacity ∙ g.fixed_capacity;
  kept = λ k l s. h.kept k (omega (arith, g.capacity)) (omega arith) ∙ g.kept k l (omega arith);
}

pub Appended-trans :
    (bs cs : List ℕ) {d d1 d2 : Dybuf}
    → IsValid d
    → Appended bs d d1
    → Appended cs d1 d2
    → Appended (bs ++ cs) d d2
Appended-trans bs cs {d} {d1} {d2} v f g = record {
  grown = Grown-trans (length bs) (length cs) _ v (length-append bs cs) f.position f.grown g.grown;
  position = omega (arith, f.position, g.position, length-append bs cs);
  bytes =
      HoldsAt-join d2.block d.position d1.position bs cs f.position
        (HoldsAt-same d2.block d1.block d.position bs
          (λ i l k.
            g.grown.kept i
              (omega (arith, f.position, f.grown.valid.position_le, f.grown.valid.limit_le))
              (omega (arith, f.position)))
          f.bytes)
        g.bytes;
}

pub RoomTo-less : {m : Malloc} {d : Dybuf} (e e' : ℕ) → RoomTo m e d → e' ≤ e → RoomTo m e' d
RoomTo-less e e' r h = record {
  uint_range = omega (arith, r.uint_range);
  reach = elim r.reach [
    | inl k ↦ inl (omega arith)
    | inr g ↦ inr (g.0, λ k l. g.1 k (omega arith))
  ];
}

pub RoomTo-Grown :
    {m : Malloc} {d d' : Dybuf} (e n : ℕ) → RoomTo m e d → Grown n d d' → RoomTo m e d'
RoomTo-Grown e n r h = record {
  uint_range = r.uint_range;
  reach = elim r.reach [
    | inl k ↦ inl (omega (arith, h.capacity))
    | inr g ↦ inr (h.fixed_capacity ∙ g.0, g.1)
  ];
}

-- Two appends make one.
pub Writes-bind :
    {A B : Type 0} {a : A} {b : B} (bs cs : List ℕ) (op : M A) (k : A → M B)
    → WritesAs bs a op
    → WritesAs cs b (k a)
    → WritesAs (bs ++ cs) b (op >>= k)
Writes-bind bs cs op k f g m d v room =
    let e = length-append bs cs in
    let (d1, run, a) =
      f m d v (RoomTo-less (d.position + length (bs ++ cs)) _ room (omega (arith, e))) in
    let room1 : RoomTo m (d1.position + length cs) d1 =
      RoomTo-less (d.position + length (bs ++ cs)) _ (RoomTo-Grown _ (length bs) room a.grown)
        (omega (arith, e, a.position)) in
    let (d2, run2, b) = g m d1 a.grown.valid room1 in (d2, rw run run2, Appended-trans bs cs v a b)

pub Writes-then :
    (bs cs : List ℕ) (op k : M (Unit {0}))
    → Writes bs op
    → Writes cs k
    → Writes (bs ++ cs) (op >> k)
Writes-then bs cs op k f g = Writes-bind bs cs op (λ _. k) f g

pub Writes-pure :
    {A : Type 0} (bs : List ℕ) (op : M (Unit {0})) (a : A)
    → Writes bs op
    → WritesAs bs a (op >> pure a)
Writes-pure bs op a w m d v room = let (d', run, done) = w m d v room in (d', rw run, done)

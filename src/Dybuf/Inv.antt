-- ===== src/Dybuf/Inv.antt =====
-- dybuf/dybuf.h: the order of mark, position, limit and capacity under the calls of `Resize`.
use lc_clibs.Base.{
  ℕ, ◌^◌, ◌<◌, ◌≡◌, Bool, true, List, [], ◌∷◌, arith, take, drop, max, inl, inr, Bool-cases,
  length-append, length-take, length-drop, sub32, All,
}
use native.Mathlib.Decide.{ℕ_discrete, dec_lt}
use lc_clibs.Mem.{Malloc}
use lc_clibs.Dybuf.State.{Dybuf, Outcome, ok, fault, M, pure, and_then, ◌>>◌, IsValid}
use lc_clibs.Dybuf.Resize.{
  set_capacity, set_position, set_limit, compact, mark, reset, clear, flip, rewind,
}
use lc_clibs.Dybuf.Resized.{
  resized-IsValid, limited-IsValid, set_capacity_fixed, set_capacity_same, set_capacity_met,
  set_limit_within, set_limit_fixed, set_limit_met,
}

-- A call that ends without a fault, in a state with the property.
abbrev pub Ends : {A : Type 0} → (Dybuf → Type 0) → Outcome A → Type 0
Ends P (ok a d) = P d
Ends P fault = ⊥

Ends-next :
    {P : Dybuf → Type 0} {A B : Type 0} (m : Malloc) (o : Outcome A) (k : M B)
    → Ends P o
    → ((d : Dybuf) → P d → Ends P (k m d))
    → Ends P (and_then o m (λ _. k))
Ends-next m (ok a d) k h next = next d h
Ends-next m fault k h next = absurd h

abbrev pub Answers : Malloc → Type 0
Answers m = (k : ℕ) → m k ≡ true

-- The calls of this part of the interface.
pub data Command : Type 0 where
  resize : ℕ → Command
  seek : ℕ → Command
  limit_at : ℕ → Command
  compacted marked back cleared flipped rewound : Command

pub apply : Command → M Bool
apply (resize n) = set_capacity n
apply (seek n) = set_position n
apply (limit_at n) = set_limit n
apply compacted = compact >> pure true
apply marked = mark >> pure true
apply back = reset >> pure true
apply cleared = clear >> pure true
apply flipped = flip >> pure true
apply rewound = rewind >> pure true

abbrev pub InRange : Command → Type 0
InRange (resize n) = n < 2 ^ 32
InRange (seek n) = n < 2 ^ 32
InRange (limit_at n) = n < 2 ^ 32
InRange _ = Unit {0}

module _ (m : Malloc) (met : Answers m) {d : Dybuf} (v : IsValid d) where
  set_capacity-IsValid : (n : ℕ) → n < 2 ^ 32 → Ends IsValid (set_capacity n m d)
  set_capacity-IsValid n h = elim (ℕ_discrete n d.capacity) [
    | yes e ↦ rw (set_capacity_same m v n e) v
    | no ne ↦ elim (Bool-cases d.fixed_capacity) [
      | inl f ↦ rw (set_capacity_fixed m v n f ne) v
      | inr f ↦
          rw (set_capacity_met m v n f ne (met _)) (resized-IsValid v (max 16 n) (omega arith))
    ]
  ]

  set_position-IsValid : (n : ℕ) → Ends IsValid (set_position n m d)
  unfolding set_position
  set_position-IsValid n = ground (arith, v.limit_le, v.position_le, v.mark_le)

  set_limit-IsValid : (n : ℕ) → n < 2 ^ 32 → Ends IsValid (set_limit n m d)
  set_limit-IsValid n h = elim (dec_lt d.capacity n) [
    | no le ↦ rw (set_limit_within m v n (omega arith)) (limited-IsValid n v (omega arith))
    | yes lt ↦ elim (Bool-cases d.fixed_capacity) [
      | inl f ↦ rw (set_limit_fixed m v n f lt) v
      | inr f ↦
          rw (set_limit_met m v n f lt (met _))
            (limited-IsValid n (resized-IsValid v (max 16 n) (omega arith)) (omega arith))
    ]
  ]

  -- The bytes between position and limit move to the front.
  compact-IsValid : Ends IsValid (compact m d)
  unfolding compact
  compact-IsValid = ground (
    arith,
    v.block_size,
    v.uint_range,
    v.limit_le,
    v.position_le,
    length-append {0} (take (sub32 d.limit d.position) (drop d.position d.block))
        (drop (sub32 d.limit d.position) d.block),
    length-take {0} (sub32 d.limit d.position) (drop d.position d.block),
    length-drop {0} d.position d.block,
    length-drop {0} (sub32 d.limit d.position) d.block,
  )

  apply-IsValid : (c : Command) → InRange c → Ends IsValid (apply c m d)
  unfolding apply mark reset clear flip rewind
  apply-IsValid (resize n) h = set_capacity-IsValid n h
  apply-IsValid (seek n) h = set_position-IsValid n
  apply-IsValid (limit_at n) h = set_limit-IsValid n h
  apply-IsValid compacted h = Ends-next m (compact m d) (pure true) compact-IsValid (λ _ v'. v')
  apply-IsValid marked h = ground (arith, v.block_size, v.uint_range, v.limit_le, v.position_le)
  apply-IsValid back h =
      ground (arith, v.block_size, v.uint_range, v.limit_le, v.position_le, v.mark_le)
  apply-IsValid cleared h = ground (arith, v.block_size, v.uint_range)
  apply-IsValid flipped h = ground (arith, v.block_size, v.uint_range, v.limit_le, v.position_le)
  apply-IsValid rewound h = ground (arith, v.block_size, v.uint_range, v.limit_le, v.position_le)

pub run : List Command → M (Unit {0})
run [] = pure tt
run (c ∷ cs) = apply c >> run cs

-- From a valid buffer, any sequence of calls of `dyb_set_capacity`, `dyb_set_position`,
-- `dyb_set_limit`, `dyb_compact`, `dyb_mark`, `dyb_reset`, `dyb_clear`, `dyb_flip` and `dyb_rewind` with `uint`
-- arguments ends without a fault in a valid buffer, provided that `malloc` meets every request.
pub run-IsValid :
    (m : Malloc) (cs : List Command) (d : Dybuf)
    → Answers m
    → All InRange cs
    → IsValid d
    → Ends IsValid (run cs m d)
unfolding run
run-IsValid m [] d met h v = v
run-IsValid m (c ∷ cs) d met h v =
    Ends-next m (apply c m d) (run cs) (apply-IsValid m met v c h.0)
      (λ d' v'. run-IsValid m cs d' met h.1 v')

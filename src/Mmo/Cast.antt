-- ===== src/Mmo/Cast.antt =====
-- mmo/mmo.h: what a cast finds.
use lc_clibs.Base.{
  ℕ, zero, suc, ◌+◌, ◌-◌, ◌≤◌, ◌<◌, ◌≡◌, refl, sym, ◌∙◌, ap, arith, not, none, some, List,
  if◌then◌else◌, leb, length, get_elem?, get_elem?-some, eq→==, ne→==, inl, inr, Bool, true, false,
  ◌||◌, [], ◌∷◌, ◌==◌, Bool-cases,
}
use mathlib.Core.Path.{subst}
use native.Mathlib.Decide.{ℕ_discrete}
use lc_clibs.Mmo.Chain.{
  StruBase, pre_base, nowhere, structure, find, to_class, is_class, is_mmobj_kind_of_oid,
}

-- No two places of the ring have the same id.
abbrev pub DistinctIds : List StruBase → Type 0
DistinctIds ring =
    (i j : ℕ) (a b : StruBase)
    → get_elem? ring i ≡ some a
    → get_elem? ring j ≡ some b
    → a.oid ≡ b.oid
    → i ≡ j

-- The number of steps from one place to another.
abbrev steps : ℕ → ℕ → ℕ → ℕ
steps l i j = if leb j i then i - j else i + l - j

steps-pre_base :
    (ring : List StruBase) (i j : ℕ)
    → i < length ring
    → j < length ring
    → (i ≡ j → ⊥)
    → steps (length ring) i j ≡ suc (steps (length ring) (pre_base ring i) j)
steps-pre_base ring zero j h k ne = ground arith
steps-pre_base ring (suc i) j h k ne = ground arith

pre_base-lt : (ring : List StruBase) (i : ℕ) → i < length ring → pre_base ring i < length ring
pre_base-lt ring zero h = omega arith
pre_base-lt ring (suc i) h = omega arith

steps-pos : (l i j : ℕ) → i < l → j < l → (i ≡ j → ⊥) → 0 < steps l i j
steps-pos l i j h k ne = ground arith

-- A whole turn from the parent of a place ends at that place.
steps-turn :
    (ring : List StruBase) (i j : ℕ)
    → i < length ring
    → j < length ring
    → (i ≡ j → ⊥)
    → steps (length ring) (pre_base ring i) j < steps (length ring) (pre_base ring i) i
steps-turn ring zero j h k ne = ground arith
steps-turn ring (suc i) j h k ne = ground arith

module _ (ring : List StruBase) (distinct : DistinctIds ring) where
  -- On the way, the place of `untilid` is not met before that of `mmid`.
  find_ahead :
      (n i j u : ℕ) (t s : StruBase)
      → i < length ring
      → j < length ring
      → u < length ring
      → get_elem? ring j ≡ some t
      → get_elem? ring u ≡ some s
      → (t.oid ≡ s.oid → ⊥)
      → steps (length ring) i j < n
      → steps (length ring) i j < steps (length ring) i u
      → find n ring i t.oid s.oid ≡ structure j
  unfolding find
  find_ahead zero i j u t s hi hj hu gj gu ne f o = absurd (omega arith)
  find_ahead (suc n) i j u t s hi hj hu gj gu ne f o =
      let (b, g) = get_elem?-some ring i hi in
      elim (ℕ_discrete i j) [
        | yes e ↦
            let same : some b ≡ some t = sym g ∙ ap (get_elem? ring) e ∙ gj in
            let ids : t.oid ≡ b.oid = cc in rw (find, g, eq→== t.oid b.oid ids) (ap structure e)
        | no away ↦
            let other : i ≡ u → ⊥ =
              λ e. absurd (let z : steps (length ring) i u ≡ 0 = ground arith in omega arith) in
            let x : t.oid ≡ b.oid → ⊥ = λ e. away (distinct i j b t g gj (sym e)) in
            let y : b.oid ≡ s.oid → ⊥ = λ e. other (distinct i u b s g gu e) in
            let p = steps-pre_base ring i j hi hj away in
            let q = steps-pre_base ring i u hi hu other in
            rw (find, g, ne→== t.oid b.oid x, ne→== t.oid s.oid ne, ne→== b.oid s.oid y)
              (find_ahead n (pre_base ring i) j u t s (pre_base-lt ring i hi) hj hu gj gu ne
                (omega (arith, p)) (omega (arith, p, q)))
      ]

  -- In an object whose structures have distinct ids, a cast from any of them to the id of any of them
  -- finds the place of that one, given more calls than there are structures.
  pub to_class_found :
      (n i j : ℕ) (a t : StruBase)
      → get_elem? ring i ≡ some a
      → get_elem? ring j ≡ some t
      → i < length ring
      → j < length ring
      → length ring < n
      → to_class n ring (some i) t.oid ≡ structure j
  unfolding to_class find
  to_class_found zero i j a t ga gt hi hj f = absurd (omega arith)
  to_class_found (suc n) i j a t ga gt hi hj f = elim (ℕ_discrete i j) [
    | yes e ↦
        let same : some a ≡ some t = sym ga ∙ ap (get_elem? ring) e ∙ gt in
        let ids : t.oid ≡ a.oid = cc in
        rw (to_class, find, ga, eq→== t.oid a.oid ids) (ap structure e)
    | no away ↦
        let x : t.oid ≡ a.oid → ⊥ = λ e. away (distinct i j a t ga gt (sym e)) in
        let p = steps-pre_base ring i j hi hj away in
        let short : steps (length ring) i j ≤ length ring = ground arith in
        rw (to_class, find, ga, ne→== t.oid a.oid x, eq→== t.oid t.oid refl)
          (find_ahead n (pre_base ring i) j i t a (pre_base-lt ring i hi) hj hi gt ga x
            (omega (arith, p)) (steps-turn ring i j hi hj away))
  ]

module _ (ring : List StruBase) where
  -- Back at the place of `untilid`, the search ends.
  find_turned :
      (n i u mmid : ℕ) (s : StruBase)
      → ((k : ℕ) (b : StruBase) → get_elem? ring k ≡ some b → mmid ≡ b.oid → ⊥)
      → i < length ring
      → u < length ring
      → get_elem? ring u ≡ some s
      → steps (length ring) i u < n
      → find n ring i mmid s.oid ≡ nowhere
  unfolding find
  find_turned zero i u mmid s absent hi hu gu f = absurd (omega arith)
  find_turned (suc n) i u mmid s absent hi hu gu f =
      let (b, g) = get_elem?-some ring i hi in
      elim (ℕ_discrete b.oid s.oid) [
        | yes e ↦ rw (
          find,
          g,
          ne→== mmid b.oid (absent i b g),
          ne→== mmid s.oid (absent u s gu),
          eq→== b.oid s.oid e,
        )
        | no y ↦
            let other : i ≡ u → ⊥ = λ e.
              let same : some b ≡ some s = sym g ∙ ap (get_elem? ring) e ∙ gu in
              y (let ids : b.oid ≡ s.oid = cc in ids) in
            let q = steps-pre_base ring i u hi hu other in
            rw
              (
                find,
                g,
                ne→== mmid b.oid (absent i b g),
                ne→== mmid s.oid (absent u s gu),
                ne→== b.oid s.oid y,
              )
              (find_turned n (pre_base ring i) u mmid s absent (pre_base-lt ring i hi) hu gu
                (omega (arith, q)))
      ]

  -- In an object whose structures all have another id, a cast from any of them to the id comes
  -- to its end and gives null, given two more calls than there are structures.
  pub to_class_absent :
      (n i mmid : ℕ) (a : StruBase)
      → get_elem? ring i ≡ some a
      → i < length ring
      → ((k : ℕ) (b : StruBase) → get_elem? ring k ≡ some b → mmid ≡ b.oid → ⊥)
      → length ring + 1 < n
      → to_class n ring (some i) mmid ≡ nowhere
  unfolding to_class find
  to_class_absent zero i mmid a ga hi absent f = absurd (omega arith)
  to_class_absent (suc n) i mmid a ga hi absent f =
      let l = pre_base-lt ring i hi in
      let short : steps (length ring) (pre_base ring i) i ≤ length ring = ground arith in
      rw (to_class, find, ga, ne→== mmid a.oid (absent i a ga), eq→== mmid mmid refl)
        (find_turned n (pre_base ring i) i mmid a absent l hi ga (omega arith))

-- Some structure of the ring has the id.
abbrev pub has_oid : List StruBase → ℕ → Bool
has_oid [] oid = false
has_oid (b ∷ bs) oid = (oid == b.oid) || has_oid bs oid

neither : (x y : Bool) → x || y ≡ false → (x ≡ false) × (y ≡ false)
neither true y h = let bad : true ≡ false = h in absurd (cc)
neither false y h = (refl, h)

has_oid-found :
    (ring : List StruBase) (oid : ℕ)
    → has_oid ring oid ≡ true
    → (j : ℕ) × (t : StruBase) × (get_elem? ring j ≡ some t) × (j < length ring) × (oid ≡ t.oid)
has_oid-found [] oid h = let bad : false ≡ true = h in absurd (cc)
has_oid-found (b ∷ bs) oid h = elim (ℕ_discrete oid b.oid) [
  | yes e ↦ (0, b, refl, omega arith, e)
  | no y ↦
      let rest : has_oid bs oid ≡ true =
        subst (λ t. t || has_oid bs oid ≡ true) (ne→== oid b.oid y) h in
      let (j, t, g, l, e) = has_oid-found bs oid rest in (suc j, t, g, omega (arith, l), e)
]

has_oid-absent :
    (ring : List StruBase) (oid : ℕ)
    → has_oid ring oid ≡ false
    → (k : ℕ) (b : StruBase) → get_elem? ring k ≡ some b
    → oid ≡ b.oid
    → ⊥
has_oid-absent [] oid h k b g e = let bad : none ≡ some b = g in cc
has_oid-absent (a ∷ bs) oid h zero b g e =
    let same : a ≡ b = cc in
    let bad : true ≡ false =
      sym (eq→== oid a.oid (e ∙ ap (λ x. x.oid) (sym same)))
      ∙ (neither (oid == a.oid) (has_oid bs oid) h).0 in
    cc
has_oid-absent (a ∷ bs) oid h (suc k) b g e =
    has_oid-absent bs oid (neither (oid == a.oid) (has_oid bs oid) h).1 k b g e

-- In an object whose structures have distinct ids, given two more calls than there are structures, and
-- from a pointer to any of them: the `is_` function of a class answers whether some structure has the
-- class's id, and `__is_mmobj_kind_of_oid` of that id answers the opposite. Of null both answer false.
pub is_mmobj_kind_of_oid_lem :
    (n : ℕ) (ring : List StruBase) (i oid : ℕ) (a : StruBase)
    → DistinctIds ring
    → get_elem? ring i ≡ some a
    → i < length ring
    → length ring + 1 < n
    → (is_class n ring (some i) oid ≡ some (has_oid ring oid))
      × (is_mmobj_kind_of_oid n ring (some i) oid ≡ some (not (has_oid ring oid)))
      × (is_class n ring none oid ≡ some false)
      × (is_mmobj_kind_of_oid n ring none oid ≡ some false)
unfolding is_mmobj_kind_of_oid is_class to_class
is_mmobj_kind_of_oid_lem n ring i oid a distinct g h f = elim (Bool-cases (has_oid ring oid)) [
  | inl yes_oid ↦
      let (j, t, gt, l, e) = has_oid-found ring oid yes_oid in
      let ends : find n ring i oid oid ≡ structure j =
        subst (λ x. find n ring i x x ≡ structure j) (sym e)
          (to_class_found ring distinct n i j a t g gt h l (omega arith)) in
      rw (is_class, is_mmobj_kind_of_oid, to_class, ends, yes_oid) (refl, refl, refl, refl)
  | inr no_oid ↦
      let ends : find n ring i oid oid ≡ nowhere =
        to_class_absent ring n i oid a g h (has_oid-absent ring oid no_oid) f in
      rw (is_class, is_mmobj_kind_of_oid, to_class, ends, no_oid) (refl, refl, refl, refl)
]

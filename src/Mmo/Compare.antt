-- ===== src/Mmo/Compare.antt =====
-- mmo/mmo.h: the last child of an object, and `__compare_mmobjs`.
-- `strcmp` and the comparison that `call_f` finds for the object are parameters; an `int` is its 32
-- bits.
use lc_clibs.Base.{
  Bool, ℕ, ◌-◌, ◌^◌, ◌≡◌, refl, sym, arith, not, Option, none, some, List, [], get_elem?,
  if◌then◌else◌, ◌==◌, eq→==, ne→==,
}
use native.Mathlib.Decide.{ℕ_discrete}
use lc_clibs.Mmo.Chain.{StruBase, pre_base}

-- A pointer to one of the structures of an object.
pub record Ref : Type 0 where
  pub address : ℕ
  pub ring : List StruBase
  pub place : ℕ

-- `find_obj` gives the block's start, where the root stands.
abbrev pub base_of_first_mmobj : Ref → ℕ
base_of_first_mmobj stru = 0

-- The place of `last_mmobj`: before the first structure stands the last.
unfoldable pub last_mmobj : Ref → ℕ
last_mmobj stru = pre_base stru.ring (base_of_first_mmobj stru)

unfoldable pub oid_of_last_mmobj : Ref → ℕ
unfolding last_mmobj
oid_of_last_mmobj stru = elim (get_elem? stru.ring (last_mmobj stru)) [ none ↦ 0 | some b ↦ b.oid ]

unfoldable pub name_of_last_mmobj : Ref → List ℕ
unfolding last_mmobj
name_of_last_mmobj stru = elim (get_elem? stru.ring (last_mmobj stru)) [
  | none ↦ []
  | some b ↦ b.name
]

unfoldable pub name_of_mmobj : Ref → List ℕ
name_of_mmobj stru = elim (get_elem? stru.ring stru.place) [ none ↦ [] | some b ↦ b.name ]

-- The comparison of classes with one instance.
unfoldable pub single_instance_comparison : Ref → Ref → ℕ
single_instance_comparison this_stru that_stru = 0

module _ (strcmp : List ℕ → List ℕ → ℕ) (mmobj_compare : Ref → Ref → ℕ) where
  -- Two pointers that are not null.
  unfoldable pub compare_known : Ref → Ref → ℕ
  compare_known this_stru that_stru =
      if this_stru.address == that_stru.address
      then 0
      else if not (oid_of_last_mmobj this_stru == oid_of_last_mmobj that_stru)
      then strcmp (name_of_last_mmobj this_stru) (name_of_last_mmobj that_stru)
      else mmobj_compare this_stru that_stru

  unfoldable pub compare_mmobjs : Option Ref → Option Ref → ℕ
  unfolding compare_known
  compare_mmobjs none none = 0
  compare_mmobjs none (some b) = 2 ^ 32 - 1
  compare_mmobjs (some a) none = 1
  compare_mmobjs (some a) (some b) = compare_known a b

  -- `are_equal_mmobjs`
  unfoldable pub are_equal_mmobjs : Option Ref → Option Ref → Bool
  unfolding compare_mmobjs
  are_equal_mmobjs this_stru that_stru = compare_mmobjs this_stru that_stru == 0

  -- Where `strcmp` and the comparison of the objects find two things equal in both orders or in
  -- neither, so does `__compare_mmobjs`.
  pub compare_mmobjs-sym :
      ((x y : List ℕ) → strcmp x y ≡ 0 → strcmp y x ≡ 0)
      → ((a b : Ref) → mmobj_compare a b ≡ 0 → mmobj_compare b a ≡ 0)
      → (this_stru that_stru : Option Ref) → compare_mmobjs this_stru that_stru ≡ 0
      → compare_mmobjs that_stru this_stru ≡ 0
  unfolding compare_mmobjs compare_known
  compare_mmobjs-sym s c none none e = refl
  compare_mmobjs-sym s c none (some b) e = absurd (omega (arith, e))
  compare_mmobjs-sym s c (some a) none e = absurd (omega (arith, e))
  compare_mmobjs-sym s c (some a) (some b) e = elim (ℕ_discrete a.address b.address) [
    | yes same ↦ rw (compare_known, eq→== b.address a.address (sym same))
    | no far ↦ elim (ℕ_discrete (oid_of_last_mmobj a) (oid_of_last_mmobj b)) [
      | yes like ↦
          rw
            (
              ne→== b.address a.address (λ z. far (sym z)),
              eq→== (oid_of_last_mmobj b) (oid_of_last_mmobj a) (sym like),
            )
            (c a b (
              rw
                (
                  ne→== a.address b.address far,
                  eq→== (oid_of_last_mmobj a) (oid_of_last_mmobj b) like,
                )
                at e))
      | no unlike ↦
          rw
            (
              ne→== b.address a.address (λ z. far (sym z)),
              ne→== (oid_of_last_mmobj b) (oid_of_last_mmobj a) (λ z. unlike (sym z)),
            )
            (s _ _ (
              rw
                (
                  ne→== a.address b.address far,
                  ne→== (oid_of_last_mmobj a) (oid_of_last_mmobj b) unlike,
                )
                at e))
    ]
  ]

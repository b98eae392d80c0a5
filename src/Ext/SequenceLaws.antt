-- ===== src/Ext/SequenceLaws.antt =====
-- mmo/mmo_ext.h: `MMList` as a stack, and its comparison.
use lc_clibs.Base.{
  ℕ, ◌<◌, ◌^◌, ◌≡◌, refl, ◌∙◌, ap, arith, some, List, [], ◌∷◌, ◌++◌, eq→==, ne→==, u32, sub32,
  length,
}
use native.Mathlib.Decide.{ℕ_discrete}
use lc_clibs.Ext.Sequence.{
  size_of_mmlist, push_mmlist_item, get_last_item_from_mmlist, pop_back, pop_mmlist_item,
  compare_each, compare_for_mmlist,
}

module _ {O : Type 0} where
  last-append : (items : List O) (x : O) → get_last_item_from_mmlist (items ++ (x ∷ [])) ≡ some x
  last-append [] x = refl
  last-append (y ∷ []) x = refl
  last-append (y ∷ (z ∷ items)) x = last-append (z ∷ items) x

  pop_back-append : (items : List O) (x : O) → pop_back (items ++ (x ∷ [])) ≡ items
  pop_back-append [] x = refl
  pop_back-append (y ∷ []) x = refl
  pop_back-append (y ∷ (z ∷ items)) x = ap (λ l. y ∷ l) (pop_back-append (z ∷ items) x)

  -- What is pushed last is popped first, and the list is what it was.
  pub pop_mmlist_item-push :
      (items : List O) (x : O) → pop_mmlist_item (push_mmlist_item items x) ≡ some (x, items)
  unfolding pop_mmlist_item push_mmlist_item
  pop_mmlist_item-push items x =
      rw (pop_mmlist_item, last-append items x) (ap (λ l. some (x, l)) (pop_back-append items x))

module _ {O : Type 0} (compare_o : O → O → ℕ) (exact : (a b : O) → compare_o a b ≡ 0 → a ≡ b) where
  each_equal :
      (these those : List O)
      → length these ≡ length those
      → compare_each compare_o these those ≡ 0
      → these ≡ those
  each_equal [] [] e h = refl
  each_equal [] (b ∷ those) e h = absurd (omega (arith, e))
  each_equal (a ∷ these) [] e h = absurd (omega (arith, e))
  each_equal (a ∷ these) (b ∷ those) e h = elim (ℕ_discrete (compare_o a b) 0) [
    | yes z ↦
        ap (λ x. x ∷ these) (exact a b z)
        ∙ ap (λ l. b ∷ l)
            (each_equal these those (omega (arith, e)) (rw (eq→== (compare_o a b) 0 z) at h))
    | no n ↦ absurd (n (rw (ne→== (compare_o a b) 0 n) at h))
  ]

  -- For lists shorter than 2 ^ 32 and an item comparison that gives 0 for equal items only,
  -- `compareForMMList` gives 0 for equal lists only.
  pub compare_for_mmlist-zero :
      (these those : List O)
      → length these < 2 ^ 32
      → length those < 2 ^ 32
      → compare_for_mmlist compare_o these those ≡ 0
      → these ≡ those
  unfolding compare_for_mmlist size_of_mmlist
  compare_for_mmlist-zero these those h k e =
      elim (ℕ_discrete (u32 (length these)) (u32 (length those))) [
        | yes z ↦
            each_equal these those (omega (arith, z))
              (rw (eq→== (u32 (length these)) (u32 (length those)) z) at e)
        | no n ↦
            let gap : sub32 (u32 (length these)) (u32 (length those)) ≡ 0 =
              rw (ne→== (u32 (length these)) (u32 (length those)) n) at e in
            absurd (n (omega (arith, gap, h, k)))
      ]

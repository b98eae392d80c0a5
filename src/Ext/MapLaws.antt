-- ===== src/Ext/MapLaws.antt =====
-- mmo/mmo_ext.h: a map under additions and removals is a function from keys that is changed at one
-- key.
use lc_clibs.Base.{
  ◌≡◌, refl, sym, ◌∙◌, ap, Bool, true, false, Option, none, some, List, [], ◌∷◌, ◌++◌,
  if◌then◌else◌, Bool-cases, inl, inr,
}
use mathlib.Core.Path.{subst}
use lc_clibs.Ext.Hash.{Key, lookup, remove, insert_inorder}

module _ {K : Type 0} (key : Key K) where
  same_iff : (a b c : K) → key.same a b ≡ true → key.same a c ≡ key.same b c
  same_iff a b c h = ap (λ x. key.same x c) (key.same_eq a b h)

  same_clash : (i j k : K) → key.same i k ≡ false → key.same i j ≡ true → key.same k j ≡ true → ⊥
  same_clash i j k h e g =
      let back : key.same i k ≡ true =
        ap (λ x. key.same x k) (key.same_eq i j e)
        ∙ ap (key.same j) (key.same_eq k j g)
        ∙ key.same_self j in
      let bad : true ≡ false = sym back ∙ h in cc

  same_other : (i k : K) → key.same i k ≡ false → key.same k i ≡ false
  same_other i k h = elim (Bool-cases (key.same k i)) [
    | inl e ↦ absurd (same_clash i i k h (key.same_self i) e)
    | inr e ↦ e
  ]

module _ {K V : Type 0} (key : Key K) where
  -- No two elements have the same key.
  abbrev pub DistinctKeys : List (K × V) → Type 0
  DistinctKeys [] = Unit {0}
  DistinctKeys ((k, v) ∷ es) = (lookup key k es ≡ none) × DistinctKeys es

  -- A function from keys, changed at one of them.
  abbrev pub update : (K → Option V) → K → Option V → K → Option V
  update f k w j = if key.same k j then w else f j

  pub lookup-remove :
      (k j : K) (es : List (K × V))
      → DistinctKeys es
      → lookup key j (remove key k es) ≡ update (λ x. lookup key x es) k none j
  lookup-remove k j [] d = elim (Bool-cases (key.same k j)) [ inl e ↦ rw e | inr e ↦ rw e ]
  lookup-remove k j ((i, v) ∷ es) d = elim (Bool-cases (key.same i k)) [
    | inl h ↦ elim (Bool-cases (key.same k j)) [
      | inl e ↦
          rw (h, e)
            (subst (λ x. lookup key x es ≡ none) (key.same_eq i j (same_iff key i k j h ∙ e)) d.0)
      | inr e ↦ rw (h, e, same_iff key i k j h ∙ e)
    ]
    | inr h ↦ elim (Bool-cases (key.same i j)) [
      | inl e ↦ elim (Bool-cases (key.same k j)) [
        | inl g ↦ absurd (same_clash key i j k h e g)
        | inr g ↦ rw (h, e, g)
      ]
      | inr e ↦ rw (h, e) (lookup-remove k j es d.1)
    ]
  ]

  pub lookup-insert_inorder :
      (after : K × V → K × V → Bool) (k j : K) (v : V) (es : List (K × V))
      → lookup key k es ≡ none
      → lookup key j (insert_inorder after (k, v) es) ≡ update (λ x. lookup key x es) k (some v) j
  lookup-insert_inorder after k j v [] n = refl
  lookup-insert_inorder after k j v ((i, w) ∷ es) n = elim (Bool-cases (key.same i k)) [
    | inl h ↦ let bad : some w ≡ none = rw h at n in cc
    | inr h ↦ elim (Bool-cases (after (i, w) (k, v))) [
      | inl a ↦ rw a
      | inr a ↦
          let rest = lookup-insert_inorder after k j v es (rw h at n) in
          elim (Bool-cases (key.same i j)) [
            | inl e ↦ elim (Bool-cases (key.same k j)) [
              | inl g ↦ absurd (same_clash key i j k h e g)
              | inr g ↦ rw (a, e, g)
            ]
            | inr e ↦ rw (a, e) rest
          ]
    ]
  ]

  pub remove-absent : (k : K) (es : List (K × V)) → lookup key k es ≡ none → remove key k es ≡ es
  remove-absent k [] n = refl
  remove-absent k ((i, v) ∷ es) n = elim (Bool-cases (key.same i k)) [
    | inl h ↦ let bad : some v ≡ none = rw h at n in cc
    | inr h ↦ rw h (ap (λ t. (i, v) ∷ t) (remove-absent k es (rw h at n)))
  ]

  -- Another key that is not there is still not there.
  absent-remove :
      (j k : K) (es : List (K × V)) → lookup key j es ≡ none → lookup key j (remove key k es) ≡ none
  absent-remove j k [] n = refl
  absent-remove j k ((i, v) ∷ es) n = elim (Bool-cases (key.same i j)) [
    | inl e ↦ let bad : some v ≡ none = rw e at n in cc
    | inr e ↦ elim (Bool-cases (key.same i k)) [
      | inl h ↦ rw h (rw e at n)
      | inr h ↦ rw (h, e) (absent-remove j k es (rw e at n))
    ]
  ]

  absent-insert_inorder :
      (after : K × V → K × V → Bool) (j k : K) (w : V) (es : List (K × V))
      → key.same k j ≡ false
      → lookup key j es ≡ none
      → lookup key j (insert_inorder after (k, w) es) ≡ none
  absent-insert_inorder after j k w [] g n = rw g
  absent-insert_inorder after j k w ((i, v) ∷ es) g n = elim (Bool-cases (key.same i j)) [
    | inl e ↦ let bad : some v ≡ none = rw e at n in cc
    | inr e ↦ elim (Bool-cases (after (i, v) (k, w))) [
      | inl a ↦ rw (a, g, e) (rw e at n)
      | inr a ↦ rw (a, e) (absent-insert_inorder after j k w es g (rw e at n))
    ]
  ]

  pub DistinctKeys-remove :
      (k : K) (es : List (K × V)) → DistinctKeys es → DistinctKeys (remove key k es)
  DistinctKeys-remove k [] d = tt
  DistinctKeys-remove k ((i, v) ∷ es) d = elim (Bool-cases (key.same i k)) [
    | inl h ↦ rw h d.1
    | inr h ↦ rw h (absent-remove i k es d.0, DistinctKeys-remove k es d.1)
  ]

  pub DistinctKeys-insert_inorder :
      (after : K × V → K × V → Bool) (k : K) (w : V) (es : List (K × V))
      → lookup key k es ≡ none
      → DistinctKeys es
      → DistinctKeys (insert_inorder after (k, w) es)
  DistinctKeys-insert_inorder after k w [] n d = (refl, tt)
  DistinctKeys-insert_inorder after k w ((i, v) ∷ es) n d = elim (Bool-cases (key.same i k)) [
    | inl h ↦ let bad : some v ≡ none = rw h at n in cc
    | inr h ↦ elim (Bool-cases (after (i, v) (k, w))) [
      | inl a ↦ rw a (n, d)
      | inr a ↦ rw a (
        absent-insert_inorder after i k w es (same_other key i k h) d.0,
        DistinctKeys-insert_inorder after k w es (rw h at n) d.1,
      )
    ]
  ]

  pub append-insert_inorder :
      (k : K) (v : V) (es : List (K × V))
      → es ++ ((k, v) ∷ []) ≡ insert_inorder (λ x e. false) (k, v) es
  append-insert_inorder k v [] = refl
  append-insert_inorder k v (e ∷ es) = ap (λ t. e ∷ t) (append-insert_inorder k v es)

-- ===== src/Pool/Swept.antt =====
-- platform/plat_mgn_mem.h: what is left after `mgn_mem_release_unused` and `mgn_mem_release_all`.
use lc_clibs.Base.{
  ℕ, zero, suc, ◌+◌, ◌<◌, ◌≡◌, refl, ◌∙◌, ap, arith, Option, none, some, List, [], ◌∷◌,
  if◌then◌else◌, ◌==◌, length, eq→==, ne→==, All, Option-cases, inl, inr, le→leb, leb-false,
}
use native.Mathlib.Decide.{ℕ_discrete, dec_le}
use lc_clibs.Pool.Table.{MgnMemory, Table, lookup, remove}
use lc_clibs.Pool.State.{Pool, free_block, dispose, call}
use lc_clibs.Pool.Unused.{batch, unused, sweep_one, sweep, release_unused}

-- The elements that still have an owner.
abbrev pub owned : List MgnMemory → List MgnMemory
owned [] = []
owned (e ∷ es) = if e.r == 0 then owned es else e ∷ owned es

-- No two elements have the same key.
abbrev pub Distinct : List MgnMemory → Type 0
Distinct [] = Unit {0}
Distinct (e ∷ es) = All (λ o. e.m ≡ o.m → ⊥) es × Distinct es

-- The table without its first `n` elements that have no owner.
abbrev pruned : ℕ → List MgnMemory → List MgnMemory
pruned zero es = es
pruned (suc n) [] = []
pruned (suc n) (e ∷ es) = if e.r == 0 then pruned n es else e ∷ pruned (suc n) es

-- The second loop on the elements alone.
abbrev swept_found : Option MgnMemory → List MgnMemory → List MgnMemory
swept_found none es = es
swept_found (some e) es = if e.r == 0 then remove e.m es else es

abbrev swept_one : ℕ → List MgnMemory → List MgnMemory
swept_one a es = swept_found (lookup a es) es

abbrev swept : List ℕ → List MgnMemory → List MgnMemory
swept [] es = es
swept (a ∷ rest) es = swept rest (swept_one a es)

All-unused :
    (P : ℕ → Type 0) (n : ℕ) (es : List MgnMemory) → All (λ o. P o.m) es → All P (unused n es)
All-unused P zero es h = tt
All-unused P (suc n) [] h = tt
All-unused P (suc n) (e ∷ es) h = elim (ℕ_discrete e.r 0) [
  | yes z ↦ rw (eq→== e.r 0 z) (h.0, All-unused P n es h.1)
  | no o ↦ rw (ne→== e.r 0 o) (All-unused P (suc n) es h.1)
]

pub lookup-key : (a : ℕ) (es : List MgnMemory) (o : MgnMemory) → lookup a es ≡ some o → o.m ≡ a
lookup-key a [] o h = cc
lookup-key a (e ∷ es) o h = elim (ℕ_discrete e.m a) [
  | yes z ↦ let got : some e ≡ some o = rw (eq→== e.m a z) at h in cc
  | no ne ↦ lookup-key a es o (rw (ne→== e.m a ne) at h)
]

swept_one-ne :
    (a : ℕ) (e : MgnMemory) (es : List MgnMemory)
    → (e.m ≡ a → ⊥)
    → swept_one a (e ∷ es) ≡ e ∷ swept_one a es
swept_one-ne a e es ne = elim (Option-cases (lookup a es)) [
  | inl h ↦ rw (ne→== e.m a ne, h)
  | inr (o, h) ↦
      let other : e.m ≡ o.m → ⊥ = λ z. ne (z ∙ lookup-key a es o h) in
      elim (ℕ_discrete o.r 0) [
        | yes z ↦ rw (ne→== e.m a ne, h, eq→== o.r 0 z, ne→== e.m o.m other)
        | no y ↦ rw (ne→== e.m a ne, h, ne→== o.r 0 y)
      ]
]

swept-keep :
    (free_m : List ℕ) (e : MgnMemory) (es : List MgnMemory)
    → All (λ a. e.m ≡ a → ⊥) free_m
    → swept free_m (e ∷ es) ≡ e ∷ swept free_m es
swept-keep [] e es h = refl
swept-keep (a ∷ rest) e es h =
    ap (swept rest) (swept_one-ne a e es h.0) ∙ swept-keep rest e (swept_one a es) h.1

swept_one-head : (e : MgnMemory) (es : List MgnMemory) → e.r ≡ 0 → swept_one e.m (e ∷ es) ≡ es
swept_one-head e es z = rw (eq→== e.m e.m refl, eq→== e.r 0 z, eq→== e.m e.m refl)

swept-unused : (n : ℕ) (es : List MgnMemory) → Distinct es → swept (unused n es) es ≡ pruned n es
swept-unused zero es h = refl
swept-unused (suc n) [] h = refl
swept-unused (suc n) (e ∷ es) h = elim (ℕ_discrete e.r 0) [
  | yes z ↦
      rw (eq→== e.r 0 z) (ap (swept (unused n es)) (swept_one-head e es z) ∙ swept-unused n es h.1)
  | no o ↦ rw (ne→== e.r 0 o) (
      swept-keep (unused (suc n) es) e es (All-unused (λ a. e.m ≡ a → ⊥) (suc n) es h.0)
      ∙ ap (λ t. e ∷ t) (swept-unused (suc n) es h.1))
]

owned-pruned : (n : ℕ) (es : List MgnMemory) → owned (pruned n es) ≡ owned es
owned-pruned zero es = refl
owned-pruned (suc n) [] = refl
owned-pruned (suc n) (e ∷ es) = elim (ℕ_discrete e.r 0) [
  | yes z ↦ rw (eq→== e.r 0 z) (owned-pruned n es)
  | no o ↦ rw (ne→== e.r 0 o, ne→== e.r 0 o) (ap (λ t. e ∷ t) (owned-pruned (suc n) es))
]

All-pruned : (P : MgnMemory → Type 0) (n : ℕ) (es : List MgnMemory) → All P es → All P (pruned n es)
All-pruned P zero es h = h
All-pruned P (suc n) [] h = tt
All-pruned P (suc n) (e ∷ es) h = elim (ℕ_discrete e.r 0) [
  | yes z ↦ rw (eq→== e.r 0 z) (All-pruned P n es h.1)
  | no o ↦ rw (ne→== e.r 0 o) (h.0, All-pruned P (suc n) es h.1)
]

Distinct-pruned : (n : ℕ) (es : List MgnMemory) → Distinct es → Distinct (pruned n es)
Distinct-pruned zero es h = h
Distinct-pruned (suc n) [] h = tt
Distinct-pruned (suc n) (e ∷ es) h = elim (ℕ_discrete e.r 0) [
  | yes z ↦ rw (eq→== e.r 0 z) (Distinct-pruned n es h.1)
  | no o ↦
      rw (ne→== e.r 0 o)
        (All-pruned (λ x. e.m ≡ x.m → ⊥) (suc n) es h.0, Distinct-pruned (suc n) es h.1)
]

-- A round that finds fewer than it can hold has found all.
pruned-owned : (n : ℕ) (es : List MgnMemory) → length (unused n es) < n → pruned n es ≡ owned es
pruned-owned zero es h = absurd (omega arith)
pruned-owned (suc n) [] h = refl
pruned-owned (suc n) (e ∷ es) h = elim (ℕ_discrete e.r 0) [
  | yes z ↦ rw (eq→== e.r 0 z) (pruned-owned n es (let k = rw (eq→== e.r 0 z) at h in omega arith))
  | no o ↦ rw (ne→== e.r 0 o) (ap (λ t. e ∷ t) (pruned-owned (suc n) es (rw (ne→== e.r 0 o) at h)))
]

length-pruned :
    (n : ℕ) (es : List MgnMemory) → length (pruned n es) + length (unused n es) ≡ length es
length-pruned zero es = omega arith
length-pruned (suc n) [] = refl
length-pruned (suc n) (e ∷ es) = elim (ℕ_discrete e.r 0) [
  | yes z ↦ rw (eq→== e.r 0 z) (omega (arith, length-pruned n es))
  | no o ↦ rw (ne→== e.r 0 o) (omega (arith, length-pruned (suc n) es))
]

-- Callbacks that leave the pool's table alone.
abbrev pub Quiet : {T : Type 0} → (ℕ → ℕ → Pool T → Pool T) → Type 0
Quiet {T} callback = (f a : ℕ) (p : Pool T) → (callback f a p).table ≡ p.table

module _ {T : Type 0} (tab : Table T) (callback : ℕ → ℕ → Pool T → Pool T)
    (quiet : Quiet callback) where
  call-table : (cb : Option ℕ) (a : ℕ) (p : Pool T) → (call tab callback cb a p).table ≡ p.table
  unfolding call
  call-table none a p = refl
  call-table (some f) a p = quiet f a p

  iter-dispose :
      (cb : Option ℕ) (a : ℕ) (p : Pool T)
      → tab.iter (dispose tab callback cb a p).table ≡ remove a (tab.iter p.table)
  unfolding dispose free_block
  iter-dispose cb a p = tab.del_law _ a ∙ ap (λ t. remove a (tab.iter t)) (call-table cb a p)

  sweep_one_lem :
      (a : ℕ) (o : Option MgnMemory) (p : Pool T)
      → tab.find p.table a ≡ o
      → tab.iter (sweep_one tab callback a p).table ≡ swept_found o (tab.iter p.table)
  unfolding sweep_one
  sweep_one_lem a none p h = rw (sweep_one, h)
  sweep_one_lem a (some e) p h = elim (ℕ_discrete e.r 0) [
    | yes z ↦ rw (sweep_one, h, eq→== e.r 0 z) (iter-dispose e.cb e.m p)
    | no y ↦ rw (sweep_one, h, ne→== e.r 0 y)
  ]

  iter-sweep_one :
      (a : ℕ) (p : Pool T)
      → tab.iter (sweep_one tab callback a p).table ≡ swept_one a (tab.iter p.table)
  iter-sweep_one a p = sweep_one_lem a (lookup a (tab.iter p.table)) p (tab.find_law p.table a)

  iter-sweep :
      (free_m : List ℕ) (p : Pool T)
      → tab.iter (sweep tab callback free_m p).table ≡ swept free_m (tab.iter p.table)
  unfolding sweep
  iter-sweep [] p = refl
  iter-sweep (a ∷ rest) p =
      iter-sweep rest (sweep_one tab callback a p) ∙ ap (swept rest) (iter-sweep_one a p)

  -- In a pool whose elements have distinct keys, with callbacks that leave the table alone,
  -- `mgn_mem_release_unused` takes out every element without an owner and keeps the others in
  -- order, given more rounds than there are elements.
  pub release_unused_lem :
      (n : ℕ) (p : Pool T)
      → Distinct (tab.iter p.table)
      → length (tab.iter p.table) < n
      → tab.iter (release_unused tab callback n p).table ≡ owned (tab.iter p.table)
  unfolding release_unused
  release_unused_lem zero p h f = absurd (omega arith)
  release_unused_lem (suc n) p h f =
      let es : List MgnMemory = tab.iter p.table in
      let left = iter-sweep (unused batch es) p ∙ swept-unused batch es h in
      elim (dec_le batch (length (unused batch es))) [
        | no few ↦
            rw (leb-false batch (length (unused batch es)) (omega arith))
              (left ∙ pruned-owned batch es (omega arith))
        | yes many ↦ rw (le→leb batch (length (unused batch es)) many) (
            release_unused_lem n (sweep tab callback (unused batch es) p)
              (rw left (Distinct-pruned batch es h))
              (rw left (omega (arith, length-pruned batch es)))
            ∙ ap owned left
            ∙ owned-pruned batch es)
      ]

-- ===== src/Pool/Owners.antt =====
-- platform/plat_mgn_mem.h: one block from its allocation to its last owner.
use lc_clibs.Base.{
  ℕ, ◌+◌, ◌-◌, ◌^◌, ◌<◌, ◌≡◌, refl, ◌∙◌, ap, arith, Bool, true, false, none, some, List, [], ◌∷◌,
  eq→==, ne→==, add64,
}
use native.Mathlib.Decide.{ℕ_discrete}
use lc_clibs.Pool.Table.{MgnMemory, Table, lookup, remove, replace}
use lc_clibs.Pool.State.{
  Pool, free_block, retain, retained_count, call, dispose, give_back, release, autorelease,
}
use lc_clibs.Pool.Swept.{lookup-key}

remove-replace :
    (k : ℕ) (e : MgnMemory) (es : List MgnMemory)
    → e.m ≡ k
    → remove k (replace k e es) ≡ remove k es
remove-replace k e [] h = refl
remove-replace k e (x ∷ es) h = elim (ℕ_discrete x.m k) [
  | yes z ↦ rw (eq→== x.m k z, eq→== e.m k h)
  | no o ↦ rw (ne→== x.m k o, ne→== x.m k o) (ap (λ t. x ∷ t) (remove-replace k e es h))
]

replace-replace :
    (k : ℕ) (e f : MgnMemory) (es : List MgnMemory)
    → e.m ≡ k
    → replace k f (replace k e es) ≡ replace k f es
replace-replace k e f [] h = refl
replace-replace k e f (x ∷ es) h = elim (ℕ_discrete x.m k) [
  | yes z ↦ rw (eq→== x.m k z, eq→== e.m k h)
  | no o ↦ rw (ne→== x.m k o, ne→== x.m k o) (ap (λ t. x ∷ t) (replace-replace k e f es h))
]

lookup-replace :
    (k : ℕ) (e f : MgnMemory) (es : List MgnMemory)
    → lookup k es ≡ some e
    → f.m ≡ k
    → lookup k (replace k f es) ≡ some f
lookup-replace k e f [] h g = cc
lookup-replace k e f (x ∷ es) h g = elim (ℕ_discrete x.m k) [
  | yes z ↦ rw (eq→== x.m k z, eq→== f.m k g)
  | no o ↦ rw (ne→== x.m k o, ne→== x.m k o) (lookup-replace k e f es (rw (ne→== x.m k o) at h) g)
]

module _ {T : Type 0} (tab : Table T) (k : ℕ) (e : MgnMemory) (p : Pool T)
    (found : lookup k (tab.iter p.table) ≡ some e) where
  find_known : tab.find p.table k ≡ some e
  find_known = tab.find_law p.table k ∙ found

  -- The pool after the owners of the element under `k` have been counted anew.
  abbrev counted : ℕ → Pool T
  counted n = record p { table = tab.assign p.table k (record e { r = n; cb = none }) }

  find_counted : (n : ℕ) → tab.find (counted n).table k ≡ some (record e { r = n; cb = none })
  find_counted n =
      tab.find_law (counted n).table k
      ∙ ap (lookup k) (tab.assign_law p.table k _)
      ∙ lookup-replace k e (record e { r = n; cb = none }) (tab.iter p.table) found
          (lookup-key k (tab.iter p.table) e found)

  module _ (callback : ℕ → ℕ → Pool T → Pool T) where
    give_back_last :
        e.r ≡ 1
        → give_back tab callback k true none p ≡ dispose tab callback none e.m (counted (e.r - 1))
    unfolding give_back
    give_back_last o =
        let z : e.r - 1 ≡ 0 = omega arith in
        rw (give_back, find_known, ne→== e.r 0 (λ y. absurd (omega arith)), eq→== (e.r - 1) 0 z)

    give_back_early : e.r ≡ 1 → give_back tab callback k false none p ≡ counted (e.r - 1)
    unfolding give_back
    give_back_early o =
        let z : e.r - 1 ≡ 0 = omega arith in
        rw (give_back, find_known, ne→== e.r 0 (λ y. absurd (omega arith)), eq→== (e.r - 1) 0 z)

    give_back_shared : (b : Bool) → 1 < e.r → give_back tab callback k b none p ≡ counted (e.r - 1)
    unfolding give_back
    give_back_shared b o = rw (
      give_back,
      find_known,
      ne→== e.r 0 (λ y. absurd (omega arith)),
      ne→== (e.r - 1) 0 (λ y. absurd (omega arith)),
    )

    -- `mgn_mem_release` by the sole owner of a known block takes its element out of the table and
    -- gives the block back.
    pub release_sole :
        e.r ≡ 1
        → (tab.iter (release tab callback k p).table ≡ remove k (tab.iter p.table))
          × ((release tab callback k p).freed ≡ k ∷ p.freed)
    unfolding release dispose call free_block
    release_sole o =
        let key : e.m ≡ k = lookup-key k (tab.iter p.table) e found in
        (
          ap (λ q. tab.iter q.table) (give_back_last o)
              ∙ tab.del_law (counted (e.r - 1)).table e.m
              ∙ ap (λ a. remove a (tab.iter (counted (e.r - 1)).table)) key
              ∙ ap (remove k) (tab.assign_law p.table k _)
              ∙ remove-replace k (record e { r = e.r - 1; cb = none }) (tab.iter p.table) key,
          ap (λ q. q.freed) (give_back_last o) ∙ ap (λ a. a ∷ p.freed) key,
        )

    -- `mgn_mem_autorelease` by the sole owner of a known block leaves it in the table with no owner,
    -- and gives nothing back.
    pub autorelease_sole :
        e.r ≡ 1
        → (retained_count tab k (autorelease tab callback k p) ≡ 0)
          × (tab.iter (autorelease tab callback k p).table
              ≡ replace k (record e { r = 0; cb = none }) (tab.iter p.table))
          × ((autorelease tab callback k p).freed ≡ p.freed)
    unfolding autorelease retained_count
    autorelease_sole o =
        let z : e.r - 1 ≡ 0 = omega arith in
        (
          ap (retained_count tab k) (give_back_early o)
              ∙ rw (retained_count, find_counted (e.r - 1)) z,
          ap (λ q. tab.iter q.table) (give_back_early o)
              ∙ tab.assign_law p.table k _
              ∙ ap (λ n. replace k (record e { r = n; cb = none }) (tab.iter p.table)) z,
          ap (λ q. q.freed) (give_back_early o),
        )

-- `mgn_mem_retain` of a known block with an owner, its count below 2 ^ 64 - 1, then
-- `mgn_mem_release`: the block's pointer comes back, every element stays as it was, but the
-- callback of this one is cleared, and nothing is given back.
pub release-retain :
    {T : Type 0} (tab : Table T) (callback : ℕ → ℕ → Pool T → Pool T) (k : ℕ) (e : MgnMemory)
    (p : Pool T)
    → lookup k (tab.iter p.table) ≡ some e
    → 0 < e.r
    → e.r + 1 < 2 ^ 64
    → ((retain tab k p).0 ≡ k)
      × (tab.iter (release tab callback k (retain tab k p).1).table
          ≡ replace k (record e { cb = none }) (tab.iter p.table))
      × ((release tab callback k (retain tab k p).1).freed ≡ p.freed)
unfolding release retain
release-retain {T} tab callback k e p found o w =
    let key : e.m ≡ k = lookup-key k (tab.iter p.table) e found in
    let more : MgnMemory = record e { r = e.r + 1 } in
    let p1 : Pool T = record p { table = tab.assign p.table k more } in
    let sum : add64 e.r 1 ≡ e.r + 1 = omega arith in
    let held : retain tab k p ≡ (e.m, p1) = rw (retain, find_known tab k e p found, sum) in
    let items : tab.iter p1.table ≡ replace k more (tab.iter p.table) =
      tab.assign_law p.table k more in
    let found1 : lookup k (tab.iter p1.table) ≡ some more =
      ap (lookup k) items ∙ lookup-replace k e more (tab.iter p.table) found key in
    let less : 1 < more.r = omega (arith, o) in
    let back =
      ap (λ q. release tab callback k q.1) held
      ∙ give_back_shared tab k more p1 found1 callback true less in
    let same : e.r + 1 - 1 ≡ e.r = omega arith in
    (
      ap (λ q. q.0) held ∙ key,
      ap (λ q. tab.iter q.table) back
          ∙ tab.assign_law p1.table k _
          ∙ ap (replace k _) items
          ∙ replace-replace k more _ (tab.iter p.table) key
          ∙ ap (λ n. replace k (record e { r = n; cb = none }) (tab.iter p.table)) same,
      ap (λ q. q.freed) back,
    )

-- ===== src/Mmo/Birth.antt =====
-- mmo/mmo.h: `init_` and `destroy_` along the ring, the super first on the way in and last on the way
-- out.
use lc_clibs.Base.{
  ℕ, zero, suc, ◌<◌, ◌≤◌, ◌≡◌, ap, sym, Bool, true, false, List, [], ◌∷◌, ◌++◌, append_assoc, arith,
  if◌then◌else◌,
}
use native.Mathlib.Decide.{ℕ_discrete}
use mathlib.Core.Path.{subst}

-- What runs: `fn_init` and `fn_destroy` of the structure at a place, and `mgn_mem_release` of the
-- object's block. A null `fn_init` is one that succeeds.
pub data Event : Type 0 where
  init : ℕ → Event
  destroy : ℕ → Event
  release : Event

-- `destroy_` of the root.
abbrev pub destroy_root : List Event
destroy_root = destroy 0 ∷ []

-- The calls that `destroy_` of the structure at place `i` makes, in order.
abbrev pub destroy_chain : ℕ → List Event
destroy_chain zero = destroy_root
destroy_chain (suc i) = destroy (suc i) ∷ destroy_chain i

-- `init_` of the structure at place `i`: whether it succeeded, and what has run.
module _ (init_impl : ℕ → Bool) where
  unfoldable pub init_root : Bool × List Event
  init_root = (init_impl 0, init 0 ∷ [])

  unfoldable pub init_sub : ℕ → Bool × List Event → Bool × List Event
  init_sub i (super, events) =
      if super
      then (if init_impl (suc i)
          then (true, events ++ (init (suc i) ∷ []))
          else (false, events ++ (init (suc i) ∷ destroy_chain i)))
      else (false, events)

  unfoldable pub init_chain : ℕ → Bool × List Event
  unfolding init_root init_sub
  init_chain zero = init_root
  init_chain (suc i) = init_sub i (init_chain i)

-- `alloc` of the class at place `i`, in a block that was allocated.
unfoldable pub alloc_class : (ℕ → Bool) → ℕ → Bool × List Event
unfolding init_chain
alloc_class init_impl i =
    let (done, events) = init_chain init_impl i in
    if done then (true, events) else (false, events ++ (release ∷ []))

abbrev pub inits : ℕ → List Event
inits zero = init 0 ∷ []
inits (suc i) = inits i ++ (init (suc i) ∷ [])

-- The destruction of the structures before a place, the latest first.
abbrev pub undone : ℕ → List Event
undone zero = []
undone (suc i) = destroy_chain i

init_chain-true :
    (init_impl : ℕ → Bool) (i : ℕ)
    → ((k : ℕ) → k ≤ i → init_impl k ≡ true)
    → init_chain init_impl i ≡ (true, inits i)
unfolding init_chain init_root init_sub
init_chain-true f zero h = rw (h 0 (omega arith))
init_chain-true f (suc i) h =
    rw (init_chain-true f i (λ k l. h k (omega arith)), h (suc i) (omega arith))

-- Where the structure at `j` is the first whose init fails, the init of every structure from `j`
-- on fails: the inits from the root to `j` have run in order, then the destroys of the structures
-- before `j`, each once, the latest first.
pub init_chain_fails :
    (init_impl : ℕ → Bool) (i j : ℕ)
    → j ≤ i
    → ((k : ℕ) → k < j → init_impl k ≡ true)
    → init_impl j ≡ false
    → init_chain init_impl i ≡ (false, inits j ++ undone j)
unfolding init_chain init_root init_sub
init_chain_fails f zero zero l h e = rw e
init_chain_fails f zero (suc j) l h e = absurd (omega arith)
init_chain_fails f (suc i) j l h e = elim (ℕ_discrete (suc i) j) [
  | yes z ↦
      let failed : f (suc i) ≡ false = subst (λ x. f x ≡ false) (sym z) e in
      subst (λ x. init_chain f (suc i) ≡ (false, inits x ++ undone x)) z
        (rw (init_chain, init_sub, init_chain-true f i (λ k g. h k (omega arith)), failed)
          (ap (λ t. (false, t))
            (sym (append_assoc (inits i) (init (suc i) ∷ []) (destroy_chain i)))))
  | no o ↦ rw (init_chain, init_sub, init_chain_fails f i j (omega arith) h e)
]

-- Where the structure at `j` is the first whose init fails, `alloc` of a class at `j` or further down
-- the chain fails: the inits from the root to `j` have run in order, then the destroys of the
-- structures before `j`, each once, the latest first, and last the block is given back.
pub alloc_class_fails :
    (init_impl : ℕ → Bool) (i j : ℕ)
    → j ≤ i
    → ((k : ℕ) → k < j → init_impl k ≡ true)
    → init_impl j ≡ false
    → alloc_class init_impl i ≡ (false, (inits j ++ undone j) ++ (release ∷ []))
unfolding alloc_class
alloc_class_fails f i j l h e = rw (alloc_class, init_chain_fails f i j l h e)

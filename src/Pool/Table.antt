-- ===== src/Pool/Table.antt =====
-- platform/plat_mgn_mem.h: `mgn_memory`, and what its pool takes from the hash table macros.
use lc_clibs.Base.{ℕ, ◌≡◌, Option, none, some, List, [], ◌∷◌, ◌++◌, ◌==◌, if◌then◌else◌, length}

-- A pointer is a number, and `NULL` is 0. A callback is a name for a function; none is `NULL`.
pub record MgnMemory : Type 0 where
  pub m : ℕ
  pub s : ℕ
  pub r : ℕ
  pub cb : Option ℕ

-- The first with a key: found, taken out, assigned to.
abbrev pub lookup : ℕ → List MgnMemory → Option MgnMemory
lookup k [] = none
lookup k (e ∷ es) = if e.m == k then some e else lookup k es

abbrev pub remove : ℕ → List MgnMemory → List MgnMemory
remove k [] = []
remove k (e ∷ es) = if e.m == k then es else e ∷ remove k es

abbrev pub replace : ℕ → MgnMemory → List MgnMemory → List MgnMemory
replace k new [] = []
replace k new (e ∷ es) = if e.m == k then new ∷ es else e ∷ replace k new es

-- The macros on a table keyed by `m`, and what uthash documents of them: `HASH_ITER` follows the
-- order of insertion, `HASH_ADD_PTR` appends, `HASH_FIND_PTR` finds by the key, `HASH_DEL` takes out,
-- `HASH_COUNT` counts. `assign` is an assignment to the fields of the element under a key.
pub record Table (T : Type 0) : Type 0 where
  pub find : T → ℕ → Option MgnMemory
  pub add : T → MgnMemory → T
  pub del : T → ℕ → T
  pub assign : T → ℕ → MgnMemory → T
  pub iter : T → List MgnMemory
  pub count : T → ℕ
  pub find_law : (t : T) (k : ℕ) → find t k ≡ lookup k (iter t)
  pub add_law : (t : T) (e : MgnMemory) → iter (add t e) ≡ iter t ++ (e ∷ [])
  pub del_law : (t : T) (k : ℕ) → iter (del t k) ≡ remove k (iter t)
  pub assign_law : (t : T) (k : ℕ) (e : MgnMemory) → iter (assign t k e) ≡ replace k e (iter t)
  pub count_law : (t : T) → count t ≡ length (iter t)

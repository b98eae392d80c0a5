-- ===== src/Ext/Hash.antt =====
-- What the program takes from the hash table macros of platform/uthash.h, and what they document:
-- elements are kept in the order of insertion, an ordered insertion goes before the first element
-- that compares greater.
use lc_clibs.Base.{
  ℕ, ◌≡◌, Bool, true, Option, none, some, List, [], ◌∷◌, ◌++◌, if◌then◌else◌, length,
}

-- A key type with a test that decides equality.
pub record Key (K : Type 0) : Type 0 where
  pub same : K → K → Bool
  pub same_self : (k : K) → same k k ≡ true
  pub same_eq : (a b : K) → same a b ≡ true → a ≡ b

module _ {K V : Type 0} (key : Key K) where
  abbrev pub lookup : K → List (K × V) → Option V
  lookup k [] = none
  lookup k ((j, v) ∷ es) = if key.same j k then some v else lookup k es

  abbrev pub remove : K → List (K × V) → List (K × V)
  remove k [] = []
  remove k ((j, v) ∷ es) = if key.same j k then es else (j, v) ∷ remove k es

module _ {E : Type 0} where
  abbrev pub insert_inorder : (E → E → Bool) → E → List E → List E
  insert_inorder after e [] = e ∷ []
  insert_inorder after e (x ∷ xs) =
      if after x e then e ∷ (x ∷ xs) else x ∷ insert_inorder after e xs

-- `after x e` is `cmpfcn(x, e) > 0`.
pub record Hash (K V T : Type 0) : Type 0 where
  pub key : Key K
  pub empty : T
  pub find : T → K → Option V
  pub add : T → K → V → T
  pub add_inorder : (K × V → K × V → Bool) → T → K → V → T
  pub del : T → K → T
  pub iter : T → List (K × V)
  pub count : T → ℕ
  pub empty_law : iter empty ≡ []
  pub find_law : (t : T) (k : K) → find t k ≡ lookup key k (iter t)
  pub add_law : (t : T) (k : K) (v : V) → iter (add t k v) ≡ iter t ++ ((k, v) ∷ [])
  pub add_inorder_law :
      (after : K × V → K × V → Bool) (t : T) (k : K) (v : V)
      → iter (add_inorder after t k v) ≡ insert_inorder after (k, v) (iter t)
  pub del_law : (t : T) (k : K) → iter (del t k) ≡ remove key k (iter t)
  pub count_law : (t : T) → count t ≡ length (iter t)

-- ===== src/Ext/Listed.antt =====
-- The interface of Ext/Hash, filled by the list of the elements.
use lc_clibs.Base.{
  ℕ, ◌≡◌, refl, ap, ◌∙◌, Bool, true, false, ◌&&◌, List, [], ◌∷◌, ◌++◌, length, ◌==◌, eq→==, ne→==,
}
use native.Mathlib.Decide.{ℕ_discrete}
use lc_clibs.Ext.Hash.{Key, Hash, lookup, remove, insert_inorder}

abbrev pub listed : {K V : Type 0} → Key K → Hash K V (List (K × V))
listed key = record {
  key = key;
  empty = [];
  find = λ t k. lookup key k t;
  add = λ t k v. t ++ ((k, v) ∷ []);
  add_inorder = λ after t k v. insert_inorder after (k, v) t;
  del = λ t k. remove key k t;
  iter = λ t. t;
  count = λ t. length t;
  empty_law = refl;
  find_law = λ t k. refl;
  add_law = λ t k v. refl;
  add_inorder_law = λ after t k v. refl;
  del_law = λ t k. refl;
  count_law = λ t. refl;
}

pub ==→eq : (a b : ℕ) → (a == b) ≡ true → a ≡ b
==→eq a b h = elim (ℕ_discrete a b) [
  | yes e ↦ e
  | no n ↦ let bad : false ≡ true = rw (ne→== a b n) at h in cc
]

abbrev pub number_key : Key ℕ
number_key = record { same = ◌==◌; same_self = λ k. eq→== k k refl; same_eq = ==→eq }

abbrev same_bytes : List ℕ → List ℕ → Bool
same_bytes [] [] = true
same_bytes [] (b ∷ bs) = false
same_bytes (a ∷ cs) [] = false
same_bytes (a ∷ cs) (b ∷ bs) = (a == b) && same_bytes cs bs

pub same_bytes_self : (bs : List ℕ) → same_bytes bs bs ≡ true
same_bytes_self [] = refl
same_bytes_self (b ∷ bs) = rw (eq→== b b refl) (same_bytes_self bs)

pub same_bytes_eq : (cs bs : List ℕ) → same_bytes cs bs ≡ true → cs ≡ bs
same_bytes_eq [] [] h = refl
same_bytes_eq [] (b ∷ bs) h = let bad : false ≡ true = h in cc
same_bytes_eq (a ∷ cs) [] h = let bad : false ≡ true = h in cc
same_bytes_eq (a ∷ cs) (b ∷ bs) h = elim (ℕ_discrete a b) [
  | yes e ↦ ap (λ x. x ∷ cs) e ∙ ap (λ l. b ∷ l) (same_bytes_eq cs bs (rw (eq→== a b e) at h))
  | no n ↦ let bad : false ≡ true = rw (ne→== a b n) at h in cc
]

abbrev pub bytes_key : Key (List ℕ)
bytes_key = record { same = same_bytes; same_self = same_bytes_self; same_eq = same_bytes_eq }

-- ===== src/Mmo/Chain.antt =====
-- mmo/mmo.h: an object as the ring of its structures, from the root to the last child, and the
-- walks along it. A structure is its place in the list; its parent is one place before, and
-- before the root stands the last child.
use lc_clibs.Base.{
  ℕ, zero, suc, ◌+◌, ◌-◌, ◌^◌, Bool, true, false, not, Option, none, some, List, [], ◌∷◌,
  if◌then◌else◌, ◌==◌, length, get_elem?, add32, bit_xor, shl, shr, u32, ltb,
}

-- `mmStruBase`, with the fields of its `mmClass`.
pub record StruBase : Type 0 where
  pub oid : ℕ
  pub name : List ℕ

-- One round of the hash for the `char` `c`, which is signed.
abbrev pub sign_extend : ℕ → ℕ
sign_extend c = if ltb c 128 then c else c + (2 ^ 32 - 256)

abbrev pub mix : ℕ → ℕ → ℕ
mix hash c =
    let a = add32 hash (sign_extend c) in let b = add32 a (u32 (shl a 10)) in bit_xor b (shr b 6)

abbrev pub mix_all : ℕ → List ℕ → ℕ
mix_all hash [] = hash
mix_all hash (c ∷ cs) = mix_all (mix hash c) cs

-- The characters before the terminator.
unfoldable pub stru_name_to_oid : List ℕ → ℕ
stru_name_to_oid name =
    let hash = mix_all 0 name in
    let a = add32 hash (u32 (shl hash 3)) in
    let b = bit_xor a (shr a 11) in add32 b (u32 (shl b 15))

-- `pre_base`
abbrev pub pre_base : List StruBase → ℕ → ℕ
pre_base ring zero = length ring - 1
pre_base ring (suc i) = i

-- Where a search ends: at a structure, at null, or, for no object, at a place outside the ring. It is
-- unfinished when its fuel has run out.
pub data Search : Type 0 where
  unfinished stray nowhere : Search
  structure : ℕ → Search

-- `find_` of the class at place `i`. Each call takes one of the fuel.
unfoldable pub find : ℕ → List StruBase → ℕ → ℕ → ℕ → Search
find zero ring i mmid untilid = unfinished
find (suc n) ring i mmid untilid = elim (get_elem? ring i) [
  | none ↦ stray
  | some base ↦
      (let turned = find n ring (pre_base ring i) mmid base.oid in
        let on = find n ring (pre_base ring i) mmid untilid in
        if mmid == base.oid
        then structure i
        else if mmid == untilid
        then turned
        else if not (base.oid == untilid)
        then on
        else nowhere)
]

-- `to_` of a class: from a pointer to a structure, or null, to the one with the id.
unfoldable pub to_class : ℕ → List StruBase → Option ℕ → ℕ → Search
unfolding find
to_class n ring none oid = nowhere
to_class n ring (some i) oid = find n ring i oid oid

-- A pointer as a condition, and one compared with null; a search without an end gives no answer.
abbrev pub is_found : Search → Option Bool
is_found unfinished = none
is_found stray = none
is_found nowhere = some false
is_found (structure j) = some true

abbrev pub is_nowhere : Search → Option Bool
is_nowhere unfinished = none
is_nowhere stray = none
is_nowhere nowhere = some true
is_nowhere (structure j) = some false

unfoldable pub is_class : ℕ → List StruBase → Option ℕ → ℕ → Option Bool
unfolding to_class
is_class n ring stru oid = is_found (to_class n ring stru oid)

-- `__is_mmobj_kind_of_oid`, with its answers the way the code gives them.
unfoldable pub is_mmobj_kind_of_oid : ℕ → List StruBase → Option ℕ → ℕ → Option Bool
unfolding find
is_mmobj_kind_of_oid n ring none oid = some false
is_mmobj_kind_of_oid n ring (some i) oid = is_nowhere (find n ring i oid oid)

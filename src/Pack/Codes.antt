-- ===== src/Pack/Codes.antt =====
-- mmo/mmo_pack.h: the types of the packed items, and the two small tables of indexes.
use lc_clibs.Base.{ℕ, List, [], ◌∷◌}

abbrev pub pkrdex_integer : ℕ
pkrdex_integer = 0x1

abbrev pub pkrdex_float : ℕ
pkrdex_float = 0x2

abbrev pub pkrdex_double : ℕ
pkrdex_double = 0x3

abbrev pub pkrdex_raw : ℕ
pkrdex_raw = 0x7

abbrev pub pkrdex_array : ℕ
pkrdex_array = 0x8

abbrev pub pkrdex_object_ref : ℕ
pkrdex_object_ref = 0xa

abbrev pub pkrdex_object : ℕ
pkrdex_object = 0xb

abbrev pub pkrdex_context : ℕ
pkrdex_context = 0xc

abbrev pub pkrdex_db : ℕ
pkrdex_db = 0xe

abbrev pub pkrdex_function : ℕ
pkrdex_function = 0xf

abbrev pub pkrfn_version : ℕ
pkrfn_version = 0x1

abbrev pub pkrdb_class_names : ℕ
pkrdb_class_names = 0x1

abbrev pub packer_version_v1 : ℕ
packer_version_v1 = 0x01

-- `CLASS_NAME` of mmo/mmo_pack.c, "__cls.name__"
abbrev pub class_name_key : List ℕ
class_name_key = 95 ∷ 95 ∷ 99 ∷ 108 ∷ 115 ∷ 46 ∷ 110 ∷ 97 ∷ 109 ∷ 101 ∷ 95 ∷ 95 ∷ []

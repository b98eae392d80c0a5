-- ===== src/Pack/Tests.antt =====
-- mmo/mmo_pack.c: the laws at concrete packets, with lists of elements as tables.
use lc_clibs.Base.{
  ℕ, suc, ◌-◌, ◌^◌, ◌<◌, ◌≡◌, ◌≢◌, refl, arith, true, false, Option, none, some, List, [], ◌∷◌,
  ◌++◌, length, get_elem?, u32, replicate, inr, All, ap, if◌then◌else◌,
}
use lc_clibs.Mem.{Malloc}
use lc_clibs.Dybuf.State.{Dybuf, IsValid, ok, fault, M, pure, ◌>>=◌, ◌>>◌}
use lc_clibs.Dybuf.Resize.{flip}
use lc_clibs.Dybuf.Writes.{RoomTo}
use lc_clibs.Dybuf.VarFormat.{var_bytes}
use lc_clibs.Dybuf.SignedCodec.{folded}
use lc_clibs.Dybuf.FloatCodec.{float_bytes}
use lc_clibs.Dybuf.TypdexFormat.{typdex_bytes}
use lc_clibs.Ext.Hash.{Hash}
use lc_clibs.Ext.Listed.{listed, number_key, bytes_key}
use lc_clibs.Ext.Map.{MmMapItem}
use lc_clibs.Pack.Codes.{class_name_key, pkrdex_array, pkrdex_integer}
use lc_clibs.Pack.Packer.{
  PackCall, varint, float, data_of, Packable, MmPacker, init_mmpacker, run_calls, pack_object,
  pack_waiting, save_object_reference,
}
use lc_clibs.Pack.CallCodec.{FitsCall}
use lc_clibs.Pack.Unpacker.{
  Primary, mmint, Value, mmint_value, container, map, tmp_context, MmUnpacker, new_map, add_item,
}
use lc_clibs.Pack.Process.{process_rest}
use lc_clibs.Pack.Getters.{
  unpack_array, unpack_array_end, ready, unpack_object, unpack_next_context, finish_object,
}
use lc_clibs.Pack.RoundTrip.{Answers}
use lc_clibs.Pack.RootTrip.{unpack-run_calls}
use lc_clibs.Pack.ObjectUnpacked.{Unpacked}
use lc_clibs.Dybuf.Reads.{Holds}
use lc_clibs.Pack.ObjectTrip.{properties_of, unpack_object_unregistered}
use lc_clibs.Pack.ObjectResult.{creating}
use lc_clibs.Pack.ObjectLaws.{unpack_object-pack_object}
use lc_clibs.Pack.Malformed.{process-unmatched_array_end}
use lc_clibs.Pack.ArrayLaws.{pack_values, Element, unpack_array-pack_array}
use lc_clibs.Pack.Numbers.{IsNumbered, save_object_reference_lem}

abbrev Items : Type 0
Items = List (List ℕ × MmMapItem Primary Value)

abbrev Names : Type 0
Names = List (ℕ × Option (List ℕ))

abbrev items : Hash (List ℕ) (MmMapItem Primary Value) Items
items = listed bytes_key

abbrev class_names : Hash ℕ (Option (List ℕ)) Names
class_names = listed number_key

abbrev ids : Hash ℕ ℕ (List (ℕ × ℕ))
ids = listed number_key

abbrev name_ids : Hash (List ℕ) ℕ (List (List ℕ × ℕ))
name_ids = listed bytes_key

-- Nothing here is ordered.
abbrev even_p : Primary → Primary → ℕ
even_p a b = 0

abbrev even_o : Value → Value → ℕ
even_o a b = 0

abbrev answering : Malloc
answering k = true

abbrev empty : Dybuf
empty = record {
  block = replicate 16 0;
  capacity = 16;
  limit = 0;
  position = 0;
  mark = 0;
  fixed_capacity = false;
  should_release_instance = true;
  should_release_data = true;
}

empty-IsValid : IsValid empty
empty-IsValid = record {
  block_size = refl;
  uint_range = omega arith;
  limit_le = omega arith;
  position_le = omega arith;
  mark_le = omega arith;
}

space : (e : ℕ) → e < 2 ^ 32 → RoomTo answering e empty
space e h = record { uint_range = h; reach = inr (refl, λ k _. refl) }

abbrev unpacker : MmUnpacker Items Names
unpacker = record {
  heap = [];
  stack = [];
  roots = none;
  objects = record { sorted = false; root_item = [] };
  last_object_num = none;
  id_to_class_name = [];
  current_obj = none;
  current_obj_num = 0;
}

-- The second value at 3 hides the first.
abbrev calls : List PackCall
calls = varint 3 (2 ^ 64 - 5) ∷ float 9 0x3f800000 ∷ data_of 4 (1 ∷ 2 ∷ []) ∷ varint 3 40 ∷ []

calls_fit : All FitsCall calls
calls_fit = (
  (omega arith, omega arith),
  ((omega arith, omega arith), ((omega arith, omega arith), ((omega arith, omega arith), tt))),
)

abbrev idle_loop :
    ℕ
    → MmPacker (List (ℕ × ℕ)) (List (List ℕ × ℕ))
    → M (MmPacker (List (ℕ × ℕ)) (List (List ℕ × ℕ)))
idle_loop i p = pure p

unpack-run_calls_example :
    (u' : MmUnpacker Items Names) × (d' : Dybuf) × (((init_mmpacker ids name_ids
            >>= run_calls ids name_ids true idle_loop calls)
          >>= λ _. (flip >> ready items class_names true even_p even_o 6 unpacker))
        answering empty
      ≡ ok u' d')
    × (d'.limit ≡ d'.position)
    × Answers items class_names true even_p even_o 6 calls u'
unfolding var_bytes typdex_bytes folded float_bytes
unpack-run_calls_example =
    unpack-run_calls items class_names true even_p even_o ids name_ids idle_loop calls 6 unpacker
      answering empty calls_fit (omega arith) refl empty-IsValid refl (space _ (omega arith))

-- "Pt"
abbrev point : List ℕ
point = 80 ∷ 116 ∷ []

point_other : point ≢ class_name_key
point_other e = let bad : suc (suc 0) ≡ 12 = ap length e in absurd (omega (arith, bad))

abbrev packables : ℕ → Packable
packables obj = record { name = point; contexts = record { name = point; calls = calls } ∷ [] }

abbrev table : List ℕ → Option (MmUnpacker Items Names → M (Option ℕ × MmUnpacker Items Names))
table name = some (creating items class_names true even_p even_o 11 500 point)

unpack_object-pack_object_example :
    (u1 u2 inside v : MmUnpacker Items Names) × (d' : Dybuf) × (((init_mmpacker ids name_ids
            >>= pack_object ids name_ids true
                (pack_waiting ids name_ids true packables 2)
                6
                (some 100))
          >>= λ _. (flip >> ready items class_names true even_p even_o 11 unpacker))
        answering empty
      ≡ ok u1 d')
    × (d'.limit ≡ d'.position)
    × (unpack_object items class_names true even_p even_o 11 (some table) 6 u1 answering d'
        ≡ ok (some 500, u2) d')
    × (unpack_object items class_names true even_p even_o 11 (some table) 6 u1 answering d'
        ≡ (creating items class_names true even_p even_o 11 500 point v >>= λ made.
              finish_object items class_names true even_p even_o 11 (some table) made.0 made.1)
            answering d')
    × (unpack_next_context items class_names true even_p even_o 11 500 point v answering d'
        ≡ ok inside d')
    × Answers items class_names true even_p even_o 11 calls inside
    × (unpack_object items class_names true even_p even_o 11 (some table) 6 u2 answering d'
        ≡ ok (some 500, u2) d')
unfolding var_bytes typdex_bytes folded float_bytes
unpack_object-pack_object_example =
    unpack_object-pack_object items class_names true even_p even_o ids name_ids packables 0 6 100
      500 11 point calls table unpacker answering empty (omega arith) refl
      ((omega arith, (omega arith, tt)), omega arith) point_other calls_fit refl refl refl
      (omega arith) empty-IsValid refl (space _ (omega arith))

-- An unpacker with one object of the class at 1 in its roots, its context at 2 still empty.
abbrev holding : MmUnpacker Items Names
holding = record unpacker {
  heap =
      map (
        add_item items true even_p even_o (new_map items true even_p even_o) (mmint 6)
          (mmint_value 0))
      ∷ map (properties_of items true even_p even_o point 2)
      ∷ tmp_context (new_map items true even_p even_o)
      ∷ [];
  stack = 0 ∷ [];
  roots = some 0;
  objects =
      add_item items true even_p even_o (new_map items true even_p even_o) (mmint 0) (container 1);
}

holding-Unpacked : Unpacked items class_names true even_p even_o 6 point [] 0 1 2 holding
holding-Unpacked = record {
  roots = refl;
  stack = refl;
  objects = refl;
  root = refl;
  properties = refl;
  context = refl;
}

-- Only the class "X" was registered.
abbrev other_class :
    List ℕ → Option (MmUnpacker Items Names → M (Option ℕ × MmUnpacker Items Names))
other_class name =
    if bytes_key.same name (88 ∷ [])
    then some (creating items class_names true even_p even_o 9 500 (88 ∷ []))
    else none

unpack_object_unregistered_example :
    (unpack_object items class_names true even_p even_o 9
        (some other_class)
        6
        holding
        answering
        empty
      ≡ ok (none, record holding { stack = 1 ∷ (0 ∷ []) }) empty)
    × (unpack_object items class_names true even_p even_o 9 none 6 holding answering empty ≡ fault)
unpack_object_unregistered_example =
    unpack_object_unregistered items class_names true even_p even_o 9 6 point [] 0 1 2 holding
      holding-Unpacked other_class answering empty point_other refl

-- The end of an array under 5, then 1 under 0.
abbrev malformed : Dybuf
malformed = record empty { block = 0x45 ∷ 0 ∷ 8 ∷ 2 ∷ replicate 12 0; limit = 4 }

malformed-Holds : Holds malformed (
    (typdex_bytes pkrdex_array 5 ++ var_bytes 0)
    ++ (typdex_bytes pkrdex_integer 0 ++ var_bytes (folded 1)))
unfolding var_bytes typdex_bytes folded
malformed-Holds = record {
  bytes = (refl, (refl, (refl, (refl, tt))));
  within = omega arith;
  uint_range = omega arith;
}

process-unmatched_array_end_example :
    process_rest items class_names true even_p even_o 4 holding answering malformed ≡ fault
process-unmatched_array_end_example =
    process-unmatched_array_end items class_names true even_p even_o 5 0 1 0 2 holding answering
      malformed (omega arith) (omega arith) (omega arith) refl malformed-Holds

abbrev packer : MmPacker (List (ℕ × ℕ)) (List (List ℕ × ℕ))
packer = record {
  level = 1;
  obj_to_id = (100, 0) ∷ [];
  id_to_obj = (0, 100) ∷ [];
  class_name_to_id = [];
}

packer-IsNumbered : IsNumbered ids name_ids packer
packer-IsNumbered = record {
  size = refl;
  back = λ o i h. ground (arith, h);
  forth = λ i o h. ground (arith, h);
  below = λ i o h. ground (arith, h);
}

save_object_reference_lem_example :
    IsNumbered ids name_ids (save_object_reference ids name_ids 300 packer).1
    × ((o : ℕ)
        → ids.find (save_object_reference ids name_ids 300 packer).1.obj_to_id o ≡ (
            if ids.key.same 300 o
            then some (save_object_reference ids name_ids 300 packer).0
            else ids.find packer.obj_to_id o))
save_object_reference_lem_example =
    save_object_reference_lem ids name_ids packer packer-IsNumbered 300

unpack_array-pack_array_example :
    (u1 u2 : MmUnpacker Items Names) × (d' : Dybuf) × (((init_mmpacker ids name_ids
            >>= pack_values ids name_ids true idle_loop 12 calls)
          >>= λ _. (flip >> ready items class_names true even_p even_o 8 unpacker))
        answering empty
      ≡ ok u1 d')
    × (d'.limit ≡ d'.position)
    × (unpack_array items class_names true even_p even_o 8 12 u1 answering d'
        ≡ ok (length calls, u2) d')
    × ((i : ℕ)
        → Element items class_names true even_p even_o 8
            (u32 i)
            (get_elem? calls (u32 i))
            u2
            answering
            d')
    × (unpack_array_end items class_names true even_p even_o 8 12 u2 answering d' ≡ ok u1 d')
unfolding var_bytes typdex_bytes folded float_bytes
unpack_array-pack_array_example =
    unpack_array-pack_array items class_names true even_p even_o ids name_ids idle_loop 12 8 calls
      unpacker answering empty (omega arith) (omega arith) calls_fit (omega arith) refl
      empty-IsValid refl (space _ (omega arith))

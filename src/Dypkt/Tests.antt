-- ===== src/Dypkt/Tests.antt =====
-- dybuf/dypkt.h: the laws at a concrete packet.
use lc_clibs.Base.{
  ℕ, ◌-◌, ◌^◌, ◌<◌, ◌≡◌, refl, true, false, some, List, [], ◌∷◌, arith, length, replicate, inr,
}
use lc_clibs.Mem.{Malloc}
use lc_clibs.Dybuf.State.{Dybuf, IsValid, ok, ◌>>◌}
use lc_clibs.Dybuf.Resize.{flip}
use lc_clibs.Dybuf.Writes.{RoomTo, Appended}
use lc_clibs.Dybuf.VarFormat.{var_bytes}
use lc_clibs.Dybuf.SignedCodec.{folded}
use lc_clibs.Dybuf.TypdexFormat.{typdex_bytes}
use lc_clibs.Dypkt.Field.{
  Field, eof, version, bool, int, uint, string, bytes, value_bytes, append_field,
}
use lc_clibs.Dypkt.Packet.{packet_bytes, append_fields, next_fields, next_fields-append_fields}
use lc_clibs.Dypkt.Unheaded.{append_field_unheaded}

abbrev answering : Malloc
answering k = true

abbrev empty : Dybuf
empty = record {
  block = replicate 16 0;
  capacity = 16;
  limit = 0;
  position = 0;
  mark = 0;
  fixed_capacity = false;
  should_release_instance = true;
  should_release_data = true;
}

empty-IsValid : IsValid empty
empty-IsValid = record {
  block_size = refl;
  uint_range = omega arith;
  limit_le = omega arith;
  position_le = omega arith;
  mark_le = omega arith;
}

space : (e : ℕ) → e < 2 ^ 32 → RoomTo answering e empty
space e h = record { uint_range = h; reach = inr (refl, λ k _. refl) }

abbrev packet : List Field
packet =
    version 1
    ∷ bool 0 true
    ∷ int 1 (2 ^ 64 - 3)
    ∷ uint 300 70000
    ∷ string 4 (104 ∷ 105 ∷ [])
    ∷ bytes 5 []
    ∷ eof
    ∷ []

next_fields-append_fields_example :
    (d' : Dybuf) × ((append_fields true packet >> (flip >> next_fields true 8)) answering empty
      ≡ ok (some packet) d')
    × (d'.position ≡ length (packet_bytes true packet))
    × (d'.limit ≡ d'.position)
unfolding var_bytes typdex_bytes folded
next_fields-append_fields_example =
    next_fields-append_fields true packet 8 answering empty
      (
        omega arith,
        (
          omega arith,
          (
            (omega arith, omega arith),
            (
              (omega arith, omega arith),
              (
                (omega arith, ((omega arith, (omega arith, tt)), omega arith)),
                ((omega arith, omega arith), (tt, tt)),
              ),
            ),
          ),
        ),
      )
      (omega arith) empty-IsValid refl (space _ (omega arith))

append_field_unheaded_example :
    (d' : Dybuf) × (append_field true (uint (2 ^ 20) 300) answering empty ≡ ok tt d')
    × Appended (value_bytes true (uint (2 ^ 20) 300)) empty d'
unfolding var_bytes
append_field_unheaded_example =
    append_field_unheaded true (uint (2 ^ 20) 300) answering empty (omega arith) (omega arith)
      empty-IsValid (space _ (omega arith))

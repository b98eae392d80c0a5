-- ===== src/Dybuf/Tests.antt =====
-- dybuf/dybuf.h: the laws at concrete buffers.
use lc_clibs.Base.{
  ℕ, ◌-◌, ◌^◌, ◌<◌, ◌≡◌, refl, true, false, some, [], ◌∷◌, arith, length, replicate, inr,
}
use lc_clibs.Mem.{Mem, Malloc}
use lc_clibs.Dybuf.State.{Dybuf, IsValid, ok, fault, ◌>>=◌}
use lc_clibs.Dybuf.Resize.{get_remainder}
use lc_clibs.Dybuf.Reads.{Holds, advance}
use lc_clibs.Dybuf.Writes.{RoomTo}
use lc_clibs.Dybuf.BigEndian.{be}
use lc_clibs.Dybuf.Append.{append_u8}
use lc_clibs.Dybuf.Next.{next_u8}
use lc_clibs.Dybuf.VarInt.{append_var_u64, next_var_u64, append_var_s64, next_var_s64}
use lc_clibs.Dybuf.VarFormat.{var_bytes}
use lc_clibs.Dybuf.Typdex.{append_typdex, next_typdex, peek_typdex}
use lc_clibs.Dybuf.TypdexFormat.{typdex_bytes}
use lc_clibs.Dybuf.SignedCodec.{folded}
use lc_clibs.Dybuf.Float.{append_float}
use lc_clibs.Dybuf.FloatCodec.{float_bytes}
use lc_clibs.Dybuf.VarBlocks.{append_data_with_var_len}
use lc_clibs.Dybuf.VarBlockCodec.{data_bytes, found, read_data}
use lc_clibs.Dybuf.Inv.{
  Ends, run, run-IsValid, resize, seek, limit_at, compacted, marked, back, cleared, flipped,
  rewound,
}
use lc_clibs.Dybuf.RoundTrip.{
  Returned, there_and_back, next_var_u64-append_var_u64, next_var_s64-append_var_s64,
  next_typdex-append_typdex, next_data-append_data,
}
use lc_clibs.Dybuf.Widths.{w24, append_width, next_width, next_width-append_width}
use lc_clibs.Dybuf.Formats.{
  Wrote, append_var_u64-Wrote, next_var_u64_lem, next_typdex_lem, append_float-Wrote,
}
use lc_clibs.Dybuf.Resized.{set_limit_refused}
use lc_clibs.Dybuf.Compacted.{Kept, compact_lem}
use lc_clibs.Dybuf.TypdexCodec.{append_typdex_refused}
use lc_clibs.Dybuf.Writes.{Reserved, reserve_lem}
use lc_clibs.Dybuf.Resize.{set_limit, compact, reserve}
use lc_clibs.Dybuf.Life.{create, copy, release}
use lc_clibs.Dybuf.LifeLaws.{create_lem, copy_lem}
use lc_clibs.Dybuf.Edges.{append_u8_overflows, next_u8_past_limit}

abbrev all_met : Malloc
all_met k = true

-- Two bytes written of sixteen; it may grow.
abbrev started : Dybuf
started = record {
  block = 7 ∷ 9 ∷ replicate 14 0;
  capacity = 16;
  limit = 2;
  position = 2;
  mark = 0;
  fixed_capacity = false;
  should_release_instance = true;
  should_release_data = true;
}

started-IsValid : IsValid started
started-IsValid = record {
  block_size = refl;
  uint_range = omega arith;
  limit_le = omega arith;
  position_le = omega arith;
  mark_le = omega arith;
}

room : (e : ℕ) → e < 2 ^ 32 → RoomTo all_met e started
room e h = record { uint_range = h; reach = inr (refl, λ k _. refl) }

run-IsValid_example : Ends IsValid (
    run
      (limit_at 40
        ∷ seek 9
        ∷ marked
        ∷ seek 30
        ∷ back
        ∷ compacted
        ∷ resize 3
        ∷ flipped
        ∷ rewound
        ∷ cleared
        ∷ [])
      all_met
      started)
run-IsValid_example =
    run-IsValid all_met
      (limit_at 40
        ∷ seek 9
        ∷ marked
        ∷ seek 30
        ∷ back
        ∷ compacted
        ∷ resize 3
        ∷ flipped
        ∷ rewound
        ∷ cleared
        ∷ [])
      started (λ k. refl)
      (
        omega arith,
        (omega arith, (tt, (omega arith, (tt, (tt, (omega arith, (tt, (tt, (tt, tt))))))))),
      )
      started-IsValid

next_width-append_width_example :
    Returned
      (be 3 70000)
      70000
      (there_and_back (append_width w24 70000) (next_width w24))
      all_met
      started
next_width-append_width_example =
    next_width-append_width w24 70000 all_met started (omega arith) started-IsValid
      (room _ (omega arith))

next_var_u64-append_var_u64_example :
    Returned (var_bytes 300) 300 (there_and_back (append_var_u64 300) next_var_u64) all_met started
unfolding var_bytes
next_var_u64-append_var_u64_example =
    next_var_u64-append_var_u64 300 (omega arith) all_met started started-IsValid
      (room _ (omega arith))

next_var_s64-append_var_s64_example :
    Returned
      (var_bytes (folded (2 ^ 64 - 5)))
      (2 ^ 64 - 5)
      (there_and_back (append_var_s64 (2 ^ 64 - 5)) next_var_s64)
      all_met
      started
unfolding var_bytes folded
next_var_s64-append_var_s64_example =
    next_var_s64-append_var_s64 (2 ^ 64 - 5) (omega arith) all_met started started-IsValid
      (room _ (omega arith))

next_typdex-append_typdex_example :
    Returned
      (typdex_bytes 2 300)
      (2, 300)
      (there_and_back (append_typdex 2 300) next_typdex)
      all_met
      started
unfolding typdex_bytes
next_typdex-append_typdex_example =
    next_typdex-append_typdex 2 300 (omega arith) (omega arith) all_met started started-IsValid
      (room _ (omega arith))

next_data-append_data_example :
    Returned
      (data_bytes (5 ∷ 6 ∷ []))
      (found (5 ∷ 6 ∷ []))
      (there_and_back (append_data_with_var_len (5 ∷ 6 ∷ []) 2) read_data)
      all_met
      started
unfolding var_bytes
next_data-append_data_example =
    next_data-append_data (5 ∷ 6 ∷ []) (omega arith) all_met started started-IsValid
      (room _ (omega arith))

append_var_u64-Wrote_example : Wrote (var_bytes 300) tt (append_var_u64 300) all_met started
unfolding var_bytes
append_var_u64-Wrote_example =
    append_var_u64-Wrote 300 all_met started (omega arith) started-IsValid (room _ (omega arith))

append_float-Wrote_example :
    Wrote (float_bytes true 0x3f800001) tt (append_float true 0x3f800001) all_met started
unfolding float_bytes
append_float-Wrote_example =
    append_float-Wrote true 0x3f800001 all_met started (omega arith) started-IsValid
      (room _ (omega arith))

-- Five bytes to read.
abbrev filled_with : Mem → Dybuf
filled_with bytes = record {
  block = bytes;
  capacity = length bytes;
  limit = length bytes;
  position = 0;
  mark = 0;
  fixed_capacity = true;
  should_release_instance = true;
  should_release_data = false;
}

next_var_u64_lem_example :
    next_var_u64 all_met (filled_with (128 ∷ 172 ∷ 1 ∷ []))
    ≡ ok 300 (advance (length (var_bytes 300)) (filled_with (128 ∷ 172 ∷ 1 ∷ [])))
unfolding var_bytes
next_var_u64_lem_example =
    next_var_u64_lem 300 all_met (filled_with (128 ∷ 172 ∷ 1 ∷ [])) (omega arith)
      (record { bytes = (refl, (refl, tt)); within = omega arith; uint_range = omega arith })

next_typdex_lem_example :
    (peek_typdex all_met (filled_with (217 ∷ 0 ∷ 5 ∷ []))
      ≡ ok (200, 5) (filled_with (217 ∷ 0 ∷ 5 ∷ [])))
    × (next_typdex all_met (filled_with (217 ∷ 0 ∷ 5 ∷ []))
        ≡ ok (200, 5) (advance (length (typdex_bytes 200 5)) (filled_with (217 ∷ 0 ∷ 5 ∷ []))))
unfolding typdex_bytes
next_typdex_lem_example =
    next_typdex_lem 200 5 all_met (filled_with (217 ∷ 0 ∷ 5 ∷ [])) (omega arith) (omega arith)
      (record {
        bytes = (refl, (refl, (refl, tt)));
        within = omega arith;
        uint_range = omega arith;
      })

-- A full buffer over foreign memory.
abbrev full : Dybuf
full = record (filled_with (1 ∷ 2 ∷ [])) { position = 2 }

append_u8_overflows_example : append_u8 9 all_met full ≡ fault
append_u8_overflows_example =
    append_u8_overflows all_met full 9
      (record {
        block_size = refl;
        uint_range = omega arith;
        limit_le = omega arith;
        position_le = omega arith;
        mark_le = omega arith;
      })
      refl refl (omega arith)

next_u8_past_limit_example :
    (next_u8 >>= λ _. get_remainder) all_met started
    ≡ ok (2 ^ 32 - 1) (record started { position = 3 })
next_u8_past_limit_example = next_u8_past_limit all_met started started-IsValid refl (omega arith)

abbrev none_met : Malloc
none_met k = false

set_limit_refused_example : set_limit 17 none_met started ≡ fault
set_limit_refused_example =
    set_limit_refused none_met started-IsValid 17 refl (omega arith) refl (omega arith)

reserve_lem_example :
    (d' : Dybuf) × (reserve 20 all_met started ≡ ok tt d') × Reserved 20 started d'
reserve_lem_example = reserve_lem all_met started-IsValid 20 (room 22 (omega arith))

compact_lem_example : (d' : Dybuf) × (compact all_met started ≡ ok tt d') × Kept started d'
compact_lem_example = compact_lem all_met started started-IsValid

append_typdex_refused_example : append_typdex 3 (2 ^ 20) all_met started ≡ ok false started
append_typdex_refused_example = append_typdex_refused all_met started 3 (2 ^ 20) (omega arith)

create_lem_example :
    (d : Dybuf) × (create all_met true 20 ≡ some d)
    × IsValid d
    × (d.fixed_capacity ≡ false)
    × (d.capacity ≡ 20)
    × (d.position ≡ 0)
    × (d.limit ≡ 0)
    × (release (some d) ≡ (true, false))
create_lem_example = create_lem all_met true 20 refl refl (omega arith)

copy_lem_example :
    (d : Dybuf) × (copy all_met true (some (1 ∷ 2 ∷ [])) 2 false ≡ some (some d))
    × IsValid d
    × Holds d (1 ∷ 2 ∷ [])
    × (d.limit ≡ 2)
    × (d.capacity ≡ 16)
    × (release (some d) ≡ (true, false))
copy_lem_example = copy_lem all_met true false (1 ∷ 2 ∷ []) refl (λ e. refl) (omega arith)

-- ===== src/Dypkt/Unheaded.antt =====
-- dybuf/dypkt.h: what the append functions do with an index that no typdex can hold.
use lc_clibs.Base.{ℕ, ◌+◌, ◌^◌, ◌≤◌, ◌<◌, ◌≡◌, Bool, false, List, [], arith, length}
use lc_clibs.Mem.{Malloc}
use lc_clibs.Dybuf.State.{Dybuf, IsValid, ok, M, ◌>>=◌}
use lc_clibs.Dybuf.Typdex.{append_typdex}
use lc_clibs.Dybuf.TypdexCodec.{append_typdex_refused}
use lc_clibs.Dybuf.Writes.{RoomTo, Appended, WritesAs, Writes, Writes-bind}
use lc_clibs.Dybuf.BigEndian.{append_bool-Writes}
use lc_clibs.Dybuf.VarCodec.{append_var_u64-Writes}
use lc_clibs.Dybuf.SignedCodec.{append_var_s64-Writes}
use lc_clibs.Dybuf.FloatCodec.{append_float-Writes, append_double-Writes}
use lc_clibs.Dybuf.VarBlockCodec.{
  append_data_with_var_len-Writes, append_cstring_with_var_len-Writes,
}
use lc_clibs.Dypkt.Pack
use lc_clibs.Dypkt.Field.{
  Field, eof, version, protocol, proto_version, bool, int, uint, float, double, string, bytes,
  IsText, index_of, value_bytes, append_field,
}
use lc_clibs.Dypkt.FieldCodec.{Writes-nothing}

-- The ranges of the value alone.
abbrev pub ValueFits : Field → Type 0
ValueFits eof = Unit {0}
ValueFits (version v) = v < 2 ^ 64
ValueFits (protocol chars) = IsText chars
ValueFits (proto_version v) = v < 2 ^ 64
ValueFits (bool i b) = Unit {0}
ValueFits (int i v) = v < 2 ^ 64
ValueFits (uint i v) = v < 2 ^ 64
ValueFits (float i v) = v < 2 ^ 32
ValueFits (double i v) = v < 2 ^ 64
ValueFits (string i chars) = IsText chars
ValueFits (bytes i bs) = length bs < 2 ^ 32

refused : (t i : ℕ) → 2 ^ 20 ≤ i → WritesAs [] false (append_typdex t i)
refused t i h m d v room = (
  d,
  append_typdex_refused m d t i h,
  record { grown = Writes-nothing m d v; position = omega arith; bytes = tt },
)

bare :
    (t i : ℕ) (bs : List ℕ) (op : M (Unit {0}))
    → 2 ^ 20 ≤ i
    → Writes bs op
    → Writes bs (append_typdex t i >>= λ _. op)
bare t i bs op h w = Writes-bind [] bs (append_typdex t i) (λ _. op) (refused t i h) w

bare_field :
    (host : Bool) (fl : Field)
    → 2 ^ 20 ≤ index_of fl
    → ValueFits fl
    → Writes (value_bytes host fl) (append_field host fl)
unfolding append_field Pack.append_bool Pack.append_int Pack.append_uint Pack.append_float
    Pack.append_double Pack.append_cstring Pack.append_data
bare_field host eof i h = absurd (omega arith)
bare_field host (version v) i h = absurd (omega arith)
bare_field host (protocol chars) i h = absurd (omega arith)
bare_field host (proto_version v) i h = absurd (omega arith)
bare_field host (bool k b) i h = bare _ k _ _ i (append_bool-Writes b)
bare_field host (int k v) i h = bare _ k _ _ i (append_var_s64-Writes v h)
bare_field host (uint k v) i h = bare _ k _ _ i (append_var_u64-Writes v h)
bare_field host (float k v) i h = bare _ k _ _ i (append_float-Writes host v h)
bare_field host (double k v) i h = bare _ k _ _ i (append_double-Writes host v h)
bare_field host (string k chars) i h =
    bare _ k _ _ i (append_cstring_with_var_len-Writes chars h.0 h.1)
bare_field host (bytes k bs) i h = bare _ k _ _ i (append_data_with_var_len-Writes bs h)

-- Into a valid buffer with room, a field whose index is 2 ^ 20 or more and whose value is in its
-- range is written without its header: the value stands alone, and no error is reported.
pub append_field_unheaded :
    (host : Bool) (fl : Field) (m : Malloc) (d : Dybuf)
    → 2 ^ 20 ≤ index_of fl
    → ValueFits fl
    → IsValid d
    → RoomTo m (d.position + length (value_bytes host fl)) d
    → (d' : Dybuf) × (append_field host fl m d ≡ ok tt d') × Appended (value_bytes host fl) d d'
append_field_unheaded host fl m d i h = bare_field host fl i h m d

-- ===== src/Dypkt/Pack.antt =====
-- dybuf/dypkt.h: the pack functions. Each writes a typdex, whose answer it does not look at, and
-- the value. Floats are bit patterns and `host` is the byte order, as in `Dybuf.Float`.
use lc_clibs.Base.{ℕ, Bool, Option, none, some, false, true, if◌then◌else◌}
use lc_clibs.Mem.{Mem, Malloc}
use lc_clibs.Dybuf.State.{Dybuf, M, ◌>>=◌, pure}
use lc_clibs.Dybuf.TypdexTyp
use lc_clibs.Dybuf.Resize.{get_position, get_remainder}
use lc_clibs.Dybuf.Life.{refer, create, copy, release}
use lc_clibs.Dybuf.Append.{append_bool as dyb_append_bool}
use lc_clibs.Dybuf.Typdex.{append_typdex}
use lc_clibs.Dybuf.VarInt.{append_var_u64, append_var_s64}
use lc_clibs.Dybuf.VarBlocks.{append_data_with_var_len, append_cstring_with_var_len}
use lc_clibs.Dybuf.Float.{append_float as dyb_append_float, append_double as dyb_append_double}

-- `enum dype_fid`
abbrev pub fid_eof : ℕ
fid_eof = 0

abbrev pub fid_version : ℕ
fid_version = 1

abbrev pub fid_protocol : ℕ
fid_protocol = 7

abbrev pub fid_proto_version : ℕ
fid_proto_version = 8

unfoldable pub pack : Malloc → Bool → Option Mem → ℕ → Option Dybuf
pack m given none capacity = create m given capacity
pack m given (some memory) capacity = refer m given (some memory) capacity true

unfoldable pub unpack : Malloc → Bool → Option Mem → ℕ → Bool → Option (Option Dybuf)
unpack m given none len clone = some none
unpack m given (some memory) len clone =
    if clone
    then copy m given (some memory) len false
    else some (refer m given (some memory) len false)

unfoldable pub release_packet : Option Dybuf → Bool × Bool
release_packet = release

unfoldable pub packet_position : M ℕ
packet_position = get_position

unfoldable pub packet_remainder : M ℕ
packet_remainder = get_remainder

unfoldable pub append_version : ℕ → M (Unit {0})
append_version version = do _ ← append_typdex TypdexTyp.f fid_version; append_var_u64 version

unfoldable pub append_eof : M (Unit {0})
append_eof = do _ ← append_typdex TypdexTyp.f fid_eof; pure tt

unfoldable pub append_protocol : Mem → M (Unit {0})
append_protocol protocol_name = do
  _ ← append_typdex TypdexTyp.f fid_protocol
  append_cstring_with_var_len protocol_name

unfoldable pub append_protocol_version : ℕ → M (Unit {0})
append_protocol_version version = do
  _ ← append_typdex TypdexTyp.f fid_proto_version
  append_var_u64 version

unfoldable pub append_bool : ℕ → Bool → M (Unit {0})
append_bool index value = do _ ← append_typdex TypdexTyp.bool index; dyb_append_bool value

unfoldable pub append_int : ℕ → ℕ → M (Unit {0})
append_int index value = do _ ← append_typdex TypdexTyp.int index; append_var_s64 value

unfoldable pub append_uint : ℕ → ℕ → M (Unit {0})
append_uint index value = do _ ← append_typdex TypdexTyp.uint index; append_var_u64 value

unfoldable pub append_float : Bool → ℕ → ℕ → M (Unit {0})
append_float host index value = do
  _ ← append_typdex TypdexTyp.float index
  dyb_append_float host value

unfoldable pub append_double : Bool → ℕ → ℕ → M (Unit {0})
append_double host index value = do
  _ ← append_typdex TypdexTyp.double index
  dyb_append_double host value

unfoldable pub append_cstring : ℕ → Mem → M (Unit {0})
append_cstring index string = do
  _ ← append_typdex TypdexTyp.string index
  append_cstring_with_var_len string

unfoldable pub append_data : ℕ → Mem → ℕ → M (Unit {0})
append_data index src size = do
  _ ← append_typdex TypdexTyp.bytes index
  append_data_with_var_len src size

-- ===== src/Dypkt/Field.antt =====
-- dybuf/dypkt.h: one field of a packet, its bytes, and a reader that asks
-- `dyp_next_type` first and takes what each pointer leads to, as `dypkt_test` in test.c does.
use lc_clibs.Base.{
  ℕ, ◌+◌, ◌^◌, ◌<◌, Bool, Option, none, some, List, [], ◌∷◌, ◌++◌, All, length, if◌then◌else◌, ◌==◌,
  add32,
}
use lc_clibs.Mem.{Mem}
use lc_clibs.Dybuf.State.{M, ◌>>=◌, ◌>>◌, pure}
use lc_clibs.Dybuf.TypdexTyp
use lc_clibs.Dybuf.VarBlocks.{bytes_behind}
use lc_clibs.Dybuf.VarFormat.{var_bytes}
use lc_clibs.Dybuf.TypdexFormat.{typdex_bytes}
use lc_clibs.Dybuf.SignedCodec.{folded}
use lc_clibs.Dybuf.FloatCodec.{float_bytes, double_bytes}
use lc_clibs.Dybuf.VarBlockCodec.{data_bytes, cstring}
use lc_clibs.Dypkt.Pack
use lc_clibs.Dypkt.Unpack

pub data Field : Type 0 where
  eof : Field
  version : ℕ → Field
  protocol : List ℕ → Field
  proto_version : ℕ → Field
  bool : ℕ → Bool → Field
  int : ℕ → ℕ → Field
  uint : ℕ → ℕ → Field
  float : ℕ → ℕ → Field
  double : ℕ → ℕ → Field
  string : ℕ → List ℕ → Field
  bytes : ℕ → List ℕ → Field

abbrev pub IsText : List ℕ → Type 0
IsText chars = All (λ c. 0 < c) chars × (length chars + 1 < 2 ^ 32)

-- Each part in the range of its C type, and indexes that a typdex can hold.
abbrev pub Fits : Field → Type 0
Fits eof = Unit {0}
Fits (version v) = v < 2 ^ 64
Fits (protocol chars) = IsText chars
Fits (proto_version v) = v < 2 ^ 64
Fits (bool i b) = i < 2 ^ 20
Fits (int i v) = (i < 2 ^ 20) × (v < 2 ^ 64)
Fits (uint i v) = (i < 2 ^ 20) × (v < 2 ^ 64)
Fits (float i v) = (i < 2 ^ 20) × (v < 2 ^ 32)
Fits (double i v) = (i < 2 ^ 20) × (v < 2 ^ 64)
Fits (string i chars) = (i < 2 ^ 20) × IsText chars
Fits (bytes i bs) = (i < 2 ^ 20) × (length bs < 2 ^ 32)

abbrev pub type_of : Field → ℕ
type_of eof = TypdexTyp.f
type_of (version v) = TypdexTyp.f
type_of (protocol chars) = TypdexTyp.f
type_of (proto_version v) = TypdexTyp.f
type_of (bool i b) = TypdexTyp.bool
type_of (int i v) = TypdexTyp.int
type_of (uint i v) = TypdexTyp.uint
type_of (float i v) = TypdexTyp.float
type_of (double i v) = TypdexTyp.double
type_of (string i chars) = TypdexTyp.string
type_of (bytes i bs) = TypdexTyp.bytes

abbrev pub index_of : Field → ℕ
index_of eof = Pack.fid_eof
index_of (version v) = Pack.fid_version
index_of (protocol chars) = Pack.fid_protocol
index_of (proto_version v) = Pack.fid_proto_version
index_of (bool i b) = i
index_of (int i v) = i
index_of (uint i v) = i
index_of (float i v) = i
index_of (double i v) = i
index_of (string i chars) = i
index_of (bytes i bs) = i

module _ (host : Bool) where
  abbrev pub value_bytes : Field → List ℕ
  value_bytes eof = []
  value_bytes (version v) = var_bytes v
  value_bytes (protocol chars) = data_bytes (cstring chars)
  value_bytes (proto_version v) = var_bytes v
  value_bytes (bool i b) = (if b then 1 else 0) ∷ []
  value_bytes (int i v) = var_bytes (folded v)
  value_bytes (uint i v) = var_bytes v
  value_bytes (float i v) = float_bytes host v
  value_bytes (double i v) = double_bytes host v
  value_bytes (string i chars) = data_bytes (cstring chars)
  value_bytes (bytes i bs) = data_bytes bs

  -- The header, then the value.
  abbrev pub field_bytes : Field → List ℕ
  field_bytes fl = typdex_bytes (type_of fl) (index_of fl) ++ value_bytes fl

  unfoldable pub append_field : Field → M (Unit {0})
  append_field eof = Pack.append_eof
  append_field (version v) = Pack.append_version v
  append_field (protocol chars) = Pack.append_protocol (cstring chars)
  append_field (proto_version v) = Pack.append_protocol_version v
  append_field (bool i b) = Pack.append_bool i b
  append_field (int i v) = Pack.append_int i v
  append_field (uint i v) = Pack.append_uint i v
  append_field (float i v) = Pack.append_float host i v
  append_field (double i v) = Pack.append_double host i v
  append_field (string i chars) = Pack.append_cstring i (cstring chars)
  append_field (bytes i bs) = Pack.append_data i bs (length bs)

-- The characters before the terminator, and the bytes of a run; null reads as nothing.
abbrev pub chars_of : Mem → List ℕ
chars_of [] = []
chars_of (b ∷ bs) = if b == 0 then [] else b ∷ chars_of bs

abbrev pub text_of : Option Mem → List ℕ
text_of none = []
text_of (some block) = chars_of block

abbrev pub run_of : Option Mem → List ℕ
run_of none = []
run_of (some block) = block

module _ (host : Bool) where
  -- The functions by their id.
  unfoldable pub next_function : ℕ → M (Option Field)
  next_function fid =
      if fid == Pack.fid_eof
      then (do Unpack.next_eof; pure (some eof))
      else if fid == Pack.fid_version
      then (do v ← Unpack.next_version; pure (some (version v)))
      else if fid == Pack.fid_protocol
      then (do
        p ← Unpack.next_protocol
        text ← bytes_behind p.0 (add32 p.1 1)
        pure (some (protocol (text_of text))))
      else if fid == Pack.fid_proto_version
      then (do v ← Unpack.next_protocol_version; pure (some (proto_version v)))
      else pure none

  unfoldable pub next_value : ℕ × ℕ → M (Option Field)
  unfolding next_function
  next_value (type, index) =
      if type == TypdexTyp.f
      then next_function index
      else if type == TypdexTyp.bool
      then (do b ← Unpack.next_bool; pure (some (bool index b)))
      else if type == TypdexTyp.int
      then (do v ← Unpack.next_int; pure (some (int index v)))
      else if type == TypdexTyp.uint
      then (do v ← Unpack.next_uint; pure (some (uint index v)))
      else if type == TypdexTyp.float
      then (do v ← Unpack.next_float host; pure (some (float index v)))
      else if type == TypdexTyp.double
      then (do v ← Unpack.next_double host; pure (some (double index v)))
      else if type == TypdexTyp.string
      then (do
        p ← Unpack.next_cstring
        text ← bytes_behind p.0 (add32 p.1 1)
        pure (some (string index (text_of text))))
      else if type == TypdexTyp.bytes
      then (do
        p ← Unpack.next_data
        run ← bytes_behind p.0 p.1
        pure (some (bytes index (run_of run))))
      else pure none

  unfoldable pub next_field : M (Option Field)
  next_field = do p ← Unpack.next_type; next_value p

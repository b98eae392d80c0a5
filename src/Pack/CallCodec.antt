-- ===== src/Pack/CallCodec.antt =====
-- mmo/mmo_pack.c: the calls that pack a number or data, as the bytes they write.
use lc_clibs.Base.{
  ℕ, ◌^◌, ◌<◌, refl, Bool, Option, none, some, List, [], ◌∷◌, ◌++◌, arith, All, length,
  if◌then◌else◌, ◌==◌,
}
use lc_clibs.Dybuf.State.{M, pure, ◌>>=◌}
use lc_clibs.Dybuf.Writes.{WritesAs, Writes-bind, Writes-pure}
use lc_clibs.Dybuf.VarFormat.{var_bytes}
use lc_clibs.Dybuf.SignedCodec.{folded, append_var_s64-Writes}
use lc_clibs.Dybuf.FloatCodec.{float_bytes, double_bytes, append_float-Writes, append_double-Writes}
use lc_clibs.Dybuf.TypdexFormat.{typdex_bytes}
use lc_clibs.Dybuf.VarBlockCodec.{data_bytes, append_data_with_var_len-Writes}
use lc_clibs.Dypkt.FieldCodec.{headed, Writes-nothing}
use lc_clibs.Ext.Hash.{Hash}
use lc_clibs.Pack.Codes.{pkrdex_integer, pkrdex_float, pkrdex_double, pkrdex_raw}
use lc_clibs.Pack.Packer.{
  PackCall, varint, float, double, data_of, array, array_end, object, MmPacker, pack_var_int64,
  pack_float, pack_double, pack_data, run_call, run_calls,
}
use lc_clibs.Pack.Unpacker.{Value, mmlong, mmfloat, mmdouble, mmdata}

-- A call that packs a number or data, with a key and a value that fit.
abbrev pub FitsCall : PackCall → Type 0
FitsCall (varint key value) = (key < 2 ^ 20) × (value < 2 ^ 64)
FitsCall (float key value) = (key < 2 ^ 20) × (value < 2 ^ 32)
FitsCall (double key value) = (key < 2 ^ 20) × (value < 2 ^ 64)
FitsCall (data_of key value) = (key < 2 ^ 20) × (length value < 2 ^ 32)
FitsCall (array key len) = ⊥
FitsCall (array_end key) = ⊥
FitsCall (object key stru) = ⊥

abbrev pub key_of : PackCall → ℕ
key_of (varint key value) = key
key_of (float key value) = key
key_of (double key value) = key
key_of (data_of key value) = key
key_of (array key len) = key
key_of (array_end key) = key
key_of (object key stru) = key

-- What `process` makes of the call.
abbrev pub value_of : PackCall → Option Value
value_of (varint key value) = some (mmlong value)
value_of (float key value) = some (mmfloat value)
value_of (double key value) = some (mmdouble value)
value_of (data_of key value) = some (mmdata value)
value_of _ = none

-- What stands at a key after the calls, where `old` stood there before: the last one counts.
abbrev pub sent : List PackCall → ℕ → Option Value → Option Value
sent [] i old = old
sent (c ∷ cs) i old = sent cs i (if key_of c == i then value_of c else old)

abbrev pub call_bytes : Bool → PackCall → List ℕ
call_bytes host (varint key value) = typdex_bytes pkrdex_integer key ++ var_bytes (folded value)
call_bytes host (float key value) = typdex_bytes pkrdex_float key ++ float_bytes host value
call_bytes host (double key value) = typdex_bytes pkrdex_double key ++ double_bytes host value
call_bytes host (data_of key value) = typdex_bytes pkrdex_raw key ++ data_bytes value
call_bytes host _ = []

abbrev pub calls_bytes : Bool → List PackCall → List ℕ
calls_bytes host [] = []
calls_bytes host (c ∷ cs) = call_bytes host c ++ calls_bytes host cs

pub WritesAs-pure : {A : Type 0} (a : A) → WritesAs [] a (pure a)
WritesAs-pure a m d v room =
    (d, refl, record { grown = Writes-nothing m d v; position = omega arith; bytes = tt })

pub WritesAs-map :
    {A B : Type 0} (bs : List ℕ) (a : A) (op : M A) (f : A → B)
    → WritesAs bs a op
    → WritesAs bs (f a) (op >>= λ x. pure (f x))
WritesAs-map bs a op f w m d v room = let (d', run, done) = w m d v room in (d', rw run, done)

module _ {I N : Type 0} (ids : Hash ℕ ℕ I) (names : Hash (List ℕ) ℕ N) (host : Bool)
    (loop : ℕ → MmPacker I N → M (MmPacker I N)) where
  pub run_call-WritesAs :
      (c : PackCall) (p : MmPacker I N)
      → FitsCall c
      → WritesAs (call_bytes host c) p (run_call ids names host loop c p)
  unfolding run_call pack_var_int64 pack_float pack_double pack_data
  run_call-WritesAs (varint key value) p h =
      Writes-pure _ _ p (headed _ key _ _ (omega arith) h.0 (append_var_s64-Writes value h.1))
  run_call-WritesAs (float key value) p h =
      Writes-pure _ _ p (headed _ key _ _ (omega arith) h.0 (append_float-Writes host value h.1))
  run_call-WritesAs (double key value) p h =
      Writes-pure _ _ p (headed _ key _ _ (omega arith) h.0 (append_double-Writes host value h.1))
  run_call-WritesAs (data_of key value) p h =
      Writes-pure _ _ p
        (headed _ key _ _ (omega arith) h.0 (append_data_with_var_len-Writes value h.1))
  run_call-WritesAs (array key len) p h = absurd h
  run_call-WritesAs (array_end key) p h = absurd h
  run_call-WritesAs (object key stru) p h = absurd h

  -- The calls write the bytes of each in order, and leave the packer as it is.
  pub run_calls-WritesAs :
      (cs : List PackCall) (p : MmPacker I N)
      → All FitsCall cs
      → WritesAs (calls_bytes host cs) p (run_calls ids names host loop cs p)
  unfolding run_calls
  run_calls-WritesAs [] p h = WritesAs-pure p
  run_calls-WritesAs (c ∷ cs) p h =
      Writes-bind (call_bytes host c) (calls_bytes host cs) _ _ (run_call-WritesAs c p h.0)
        (run_calls-WritesAs cs p h.1)

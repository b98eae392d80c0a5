-- ===== src/Dypkt/FieldCodec.antt =====
-- dybuf/dypkt.h: every field is written as its bytes and read back from them.
use lc_clibs.Base.{
  ℕ, ◌^◌, ◌<◌, ◌≡◌, refl, ap, Bool, Option, some, List, [], ◌∷◌, ◌++◌, arith, All, ne→==, add32,
}
use lc_clibs.Mem.{Mem, Malloc}
use lc_clibs.Dybuf.State.{Dybuf, IsValid, M, ◌>>=◌, pure}
use lc_clibs.Dybuf.VarBlocks.{bytes_behind, next_cstring_with_var_len, next_data_with_var_len}
use lc_clibs.Dybuf.Typdex.{append_typdex, next_typdex}
use lc_clibs.Dybuf.Reads.{Holds-split, Reads, Reads-bind, Reads-pure, Reads-assoc, Reads-assoc_back}
use lc_clibs.Dybuf.Peeks.{Peeks, Reads-peek}
use lc_clibs.Dybuf.Writes.{Writes, Writes-bind, Grown}
use lc_clibs.Dybuf.BigEndian.{append_bool-Writes, next_bool-Reads}
use lc_clibs.Dybuf.VarCodec.{append_var_u64-Writes, next_var_u64-Reads}
use lc_clibs.Dybuf.SignedCodec.{append_var_s64-Writes, next_var_s64-Reads}
use lc_clibs.Dybuf.FloatCodec.{
  append_float-Writes, next_float-Reads, append_double-Writes, next_double-Reads,
}
use lc_clibs.Dybuf.TypdexFormat.{typdex_bytes}
use lc_clibs.Dybuf.TypdexCodec.{append_typdex-Writes, next_typdex-Reads, peek_typdex-Peeks}
use lc_clibs.Dybuf.VarBlockCodec.{
  data_bytes, cstring, found, read_data, read_cstring, read_data-Reads, read_cstring-Reads,
  append_data_with_var_len-Writes, append_cstring_with_var_len-Writes,
}
use lc_clibs.Dypkt.Pack
use lc_clibs.Dypkt.Unpack
use lc_clibs.Dypkt.Field.{
  Field, eof, version, protocol, proto_version, bool, int, uint, float, double, string, bytes, Fits,
  field_bytes, append_field, chars_of, text_of, run_of, next_value, next_field,
}

pub Writes-nothing : (m : Malloc) (d : Dybuf) → IsValid d → Grown 0 d d
Writes-nothing m d v = record {
  valid = v;
  limit = omega (arith, v.position_le);
  capacity = omega arith;
  mark = refl;
  fixed_capacity = refl;
  kept = λ i h s. refl;
}

pub Writes-done : Writes [] (pure tt)
Writes-done m d v room =
    (d, refl, record { grown = Writes-nothing m d v; position = omega arith; bytes = tt })

-- A header and what follows it.
pub headed :
    (t i : ℕ) (bs : List ℕ) (op : M (Unit {0}))
    → t < 256
    → i < 2 ^ 20
    → Writes bs op
    → Writes (typdex_bytes t i ++ bs) (append_typdex t i >>= λ _. op)
headed t i bs op ht hi w =
    Writes-bind (typdex_bytes t i) bs (append_typdex t i) (λ _. op) (append_typdex-Writes t i ht hi)
      w

-- Every field that fits is written as its bytes.
pub append_field-Writes :
    (host : Bool) (fl : Field) → Fits fl → Writes (field_bytes host fl) (append_field host fl)
unfolding append_field Pack.append_eof Pack.append_version Pack.append_protocol
    Pack.append_protocol_version Pack.append_bool Pack.append_int Pack.append_uint Pack.append_float
    Pack.append_double Pack.append_cstring Pack.append_data
append_field-Writes host eof h = headed _ 0 [] (pure tt) (omega arith) (omega arith) Writes-done
append_field-Writes host (version v) h =
    headed _ 1 _ _ (omega arith) (omega arith) (append_var_u64-Writes v h)
append_field-Writes host (protocol chars) h =
    headed _ 7 _ _ (omega arith) (omega arith) (append_cstring_with_var_len-Writes chars h.0 h.1)
append_field-Writes host (proto_version v) h =
    headed _ 8 _ _ (omega arith) (omega arith) (append_var_u64-Writes v h)
append_field-Writes host (bool i b) h = headed _ i _ _ (omega arith) h (append_bool-Writes b)
append_field-Writes host (int i v) h =
    headed _ i _ _ (omega arith) h.0 (append_var_s64-Writes v h.1)
append_field-Writes host (uint i v) h =
    headed _ i _ _ (omega arith) h.0 (append_var_u64-Writes v h.1)
append_field-Writes host (float i v) h =
    headed _ i _ _ (omega arith) h.0 (append_float-Writes host v h.1)
append_field-Writes host (double i v) h =
    headed _ i _ _ (omega arith) h.0 (append_double-Writes host v h.1)
append_field-Writes host (string i chars) h =
    headed _ i _ _ (omega arith) h.0 (append_cstring_with_var_len-Writes chars h.1.0 h.1.1)
append_field-Writes host (bytes i bs) h =
    headed _ i _ _ (omega arith) h.0 (append_data_with_var_len-Writes bs h.1)

Peeks-prefix :
    {A : Type 0} {a : A} (bs cs : List ℕ) (op : M A) → Peeks bs a op → Peeks (bs ++ cs) a op
Peeks-prefix bs cs op p m d h = p m d (Holds-split bs cs h).0

pub Reads-map :
    {A B : Type 0} (bs : List ℕ) (a : A) (b : B) (op : M A) (f : A → B)
    → f a ≡ b
    → Reads bs a op
    → Reads bs b (op >>= λ x. pure (f x))
Reads-map bs a b op f e r m d h = rw (r m d h, e)

-- The header that `next_type` has seen is read again and dropped.
unheaded :
    {A : Type 0} {a : A} (t i : ℕ) (bs : List ℕ) (op : M A)
    → t < 256
    → i < 2 ^ 20
    → Reads bs a op
    → Reads (typdex_bytes t i ++ bs) a (next_typdex >>= λ _. op)
unheaded t i bs op ht hi r =
    Reads-bind (typdex_bytes t i) bs next_typdex (λ _. op) (next_typdex-Reads t i ht hi) r

pub chars_of-cstring : (chars : List ℕ) → All (λ c. 0 < c) chars → chars_of (cstring chars) ≡ chars
chars_of-cstring [] h = refl
chars_of-cstring (c ∷ cs) h =
    rw (ne→== c 0 (λ e. absurd (omega (arith, h.0)))) (ap (λ t. c ∷ t) (chars_of-cstring cs h.1))

run_of-found : (bs : List ℕ) → run_of (found bs) ≡ bs
run_of-found [] = refl
run_of-found (b ∷ bs) = refl

dispatched :
    {B : Type 0} {b : B} (t i : ℕ) (bs : List ℕ) (k : ℕ × ℕ → M B)
    → t < 256
    → i < 2 ^ 20
    → Reads (typdex_bytes t i ++ bs) b (k (t, i))
    → Reads (typdex_bytes t i ++ bs) b (Unpack.next_type >>= k)
unfolding Unpack.next_type
dispatched t i bs k ht hi r =
    Reads-peek (typdex_bytes t i ++ bs) (t, i) _ k
      (Peeks-prefix (typdex_bytes t i) bs _ (peek_typdex-Peeks t i ht hi)) r

-- Strings and runs: the call after the header, then what stands behind its pointer.
module _ {B : Type 0} (t i : ℕ) (ht : t < 256) (hi : i < 2 ^ 20) (f : Option Mem → B) where
  text_value :
      (chars : List ℕ) (b : B)
      → f (some (cstring chars)) ≡ b
      → Reads (typdex_bytes t i ++ data_bytes (cstring chars)) b (
          (next_typdex >>= λ _. next_cstring_with_var_len) >>= λ p.
          bytes_behind p.0 (add32 p.1 1) >>= λ x. pure (f x))
  unfolding read_cstring
  text_value chars b e = Reads-assoc _ next_typdex _ _ (
      unheaded t i _ _ ht hi (
        Reads-assoc_back _ next_cstring_with_var_len _ _
          (Reads-map _ _ b read_cstring f e (read_cstring-Reads chars))))

  run_value :
      (bs : List ℕ) (b : B)
      → f (found bs) ≡ b
      → Reads (typdex_bytes t i ++ data_bytes bs) b (
          (next_typdex >>= λ _. next_data_with_var_len) >>= λ p.
          bytes_behind p.0 p.1 >>= λ x. pure (f x))
  unfolding read_data
  run_value bs b e = Reads-assoc _ next_typdex _ _ (
      unheaded t i _ _ ht hi (
        Reads-assoc_back _ next_data_with_var_len _ _
          (Reads-map _ _ b read_data f e (read_data-Reads bs))))

-- The field that `dyp_next_type` announces is the field that was written.
pub next_field-Reads :
    (host : Bool) (fl : Field) → Fits fl → Reads (field_bytes host fl) (some fl) (next_field host)
unfolding next_field next_value Unpack.next_eof Unpack.next_version Unpack.next_protocol
    Unpack.next_protocol_version Unpack.next_bool Unpack.next_int Unpack.next_uint Unpack.next_float
    Unpack.next_double Unpack.next_cstring Unpack.next_data
next_field-Reads host eof h = dispatched _ 0 _ _ (omega arith) (omega arith) (
    Reads-map _ _ _ _ (λ _. some eof) refl
      (unheaded _ 0 _ _ (omega arith) (omega arith) (Reads-pure tt tt refl)))
next_field-Reads host (version v) h = dispatched _ 1 _ _ (omega arith) (omega arith) (
    Reads-map _ v _ _ (λ x. some (version x)) refl
      (unheaded _ 1 _ _ (omega arith) (omega arith) (next_var_u64-Reads v h)))
next_field-Reads host (protocol chars) h = dispatched _ 7 _ _ (omega arith) (omega arith) (
    text_value _ 7 (omega arith) (omega arith) (λ x. some (protocol (text_of x))) chars _
      (ap (λ t. some (protocol t)) (chars_of-cstring chars h.0)))
next_field-Reads host (proto_version v) h = dispatched _ 8 _ _ (omega arith) (omega arith) (
    Reads-map _ v _ _ (λ x. some (proto_version x)) refl
      (unheaded _ 8 _ _ (omega arith) (omega arith) (next_var_u64-Reads v h)))
next_field-Reads host (bool i b) h = dispatched _ i _ _ (omega arith) h (
    Reads-map _ b _ _ (λ x. some (bool i x)) refl
      (unheaded _ i _ _ (omega arith) h (next_bool-Reads b)))
next_field-Reads host (int i v) h = dispatched _ i _ _ (omega arith) h.0 (
    Reads-map _ v _ _ (λ x. some (int i x)) refl
      (unheaded _ i _ _ (omega arith) h.0 (next_var_s64-Reads v h.1)))
next_field-Reads host (uint i v) h = dispatched _ i _ _ (omega arith) h.0 (
    Reads-map _ v _ _ (λ x. some (uint i x)) refl
      (unheaded _ i _ _ (omega arith) h.0 (next_var_u64-Reads v h.1)))
next_field-Reads host (float i v) h = dispatched _ i _ _ (omega arith) h.0 (
    Reads-map _ v _ _ (λ x. some (float i x)) refl
      (unheaded _ i _ _ (omega arith) h.0 (next_float-Reads host v h.1)))
next_field-Reads host (double i v) h = dispatched _ i _ _ (omega arith) h.0 (
    Reads-map _ v _ _ (λ x. some (double i x)) refl
      (unheaded _ i _ _ (omega arith) h.0 (next_double-Reads host v h.1)))
next_field-Reads host (string i chars) h = dispatched _ i _ _ (omega arith) h.0 (
    text_value _ i (omega arith) h.0 (λ x. some (string i (text_of x))) chars _
      (ap (λ t. some (string i t)) (chars_of-cstring chars h.1.0)))
next_field-Reads host (bytes i bs) h = dispatched _ i _ _ (omega arith) h.0 (
    run_value _ i (omega arith) h.0 (λ x. some (bytes i (run_of x))) bs _
      (ap (λ t. some (bytes i t)) (run_of-found bs)))

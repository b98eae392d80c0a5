-- ===== src/Pack/ItemCodec.antt =====
-- mmo/mmo_pack.c: what `process` does with an item that holds a number or data.
use lc_clibs.Base.{
  ℕ, ◌≡◌, refl, ◌∙◌, arith, Bool, Option, none, some, List, [], ◌∷◌, length, All, get_elem?, set,
  get_elem?-set_self, get_elem?-set_ne, get_elem?-lt, ◌≢◌,
}
use mathlib.Core.Path.{subst}
use lc_clibs.Mem.{Malloc}
use lc_clibs.Dybuf.State.{Dybuf, ok, M, ◌>>=◌}
use lc_clibs.Dybuf.Reads.{Reads, advance}
use lc_clibs.Dybuf.SignedCodec.{next_var_s64-Reads}
use lc_clibs.Dybuf.FloatCodec.{next_float-Reads, next_double-Reads}
use lc_clibs.Dybuf.VarBlocks.{bytes_behind}
use lc_clibs.Dybuf.VarBlockCodec.{
  data_bytes, next_data_with_var_len_lem, next_data_with_var_len_null, run_behind,
}
use lc_clibs.Ext.Hash.{Hash}
use lc_clibs.Ext.Map.{MmMapItem}
use lc_clibs.Pack.Packer.{PackCall, varint, float, double, data_of, array, array_end, object}
use lc_clibs.Pack.CallCodec.{FitsCall, key_of, value_of, call_bytes, calls_bytes}
use lc_clibs.Pack.Unpacker.{
  Primary, Value, mmlong, mmfloat, mmdouble, mmdata, Node, MmUnpacker, last_item, with_value,
  push_into_stack,
}
use lc_clibs.Pack.Process.{next, read_raw, put, process_item}
use lc_clibs.Pack.Rounds.{Rounds, Rounds-item, Rounds-append, Rounds-none}

read_raw-Reads : (bs : List ℕ) → Reads (data_bytes bs) bs read_raw
unfolding read_raw bytes_behind
read_raw-Reads [] m d h = rw (next_data_with_var_len_null m d h)
read_raw-Reads (b ∷ bs) m d h = rw (next_data_with_var_len_lem m d b bs h, run_behind m d b bs h)

module _ {T : Type 0} (hash : Hash (List ℕ) (MmMapItem Primary Value) T) (host : Bool)
    (compare_p : Primary → Primary → ℕ) (compare_o : Value → Value → ℕ) where
  -- A container after a call, and after several.
  abbrev pub with_call : Node T → PackCall → Node T
  with_call node k = elim (value_of k) [
    | none ↦ node
    | some v ↦ with_value hash host compare_p compare_o (key_of k) v node
  ]

  abbrev pub received : Node T → List PackCall → Node T
  received node [] = node
  received node (k ∷ ks) = received (with_call node k) ks

module _ {T N : Type 0} (hash : Hash (List ℕ) (MmMapItem Primary Value) T)
    (names : Hash ℕ (Option (List ℕ)) N) (host : Bool) (compare_p : Primary → Primary → ℕ)
    (compare_o : Value → Value → ℕ) where
  -- A value that is put ends in the last container.
  pub put_lem :
      (i c : ℕ) (v : Value) (node : Node T) (u : MmUnpacker T N)
      → last_item u ≡ some c
      → get_elem? u.heap c ≡ some node
      → (m : Malloc) (d : Dybuf)
      → put hash names host compare_p compare_o i v u m d
        ≡ ok
            (next (record u {
              heap = set u.heap c (with_value hash host compare_p compare_o i v node);
            }))
            d
  unfolding put push_into_stack
  put_lem i c v node u s e m d = rw (s, e)

  module _ (c : ℕ) (node : Node T) (u : MmUnpacker T N) (top : last_item u ≡ some c)
      (there : get_elem? u.heap c ≡ some node) where
    pub value_read :
        {A : Type 0} (bs : List ℕ) (a : A) (i : ℕ) (op : M A) (f : A → Value)
        → Reads bs a op
        → Reads bs
            (next (record u {
              heap = set u.heap c (with_value hash host compare_p compare_o i (f a) node);
            }))
            (op >>= λ x. put hash names host compare_p compare_o i (f x) u)
    value_read bs a i op f r m d h =
        rw (r m d h) (put_lem i c (f a) node u top there m (advance (length bs) d))

    call-Rounds :
        (k : PackCall)
        → FitsCall k
        → Rounds hash names host compare_p compare_o
            (call_bytes host k)
            1
            u
            (record u { heap = set u.heap c (with_call hash host compare_p compare_o node k) })
    unfolding process_item
    call-Rounds (varint key value) h =
        Rounds-item hash names host compare_p compare_o _ key _ u _ (omega arith) h.0
          (value_read _ value key _ mmlong (next_var_s64-Reads value h.1))
    call-Rounds (float key value) h =
        Rounds-item hash names host compare_p compare_o _ key _ u _ (omega arith) h.0
          (value_read _ value key _ mmfloat (next_float-Reads host value h.1))
    call-Rounds (double key value) h =
        Rounds-item hash names host compare_p compare_o _ key _ u _ (omega arith) h.0
          (value_read _ value key _ mmdouble (next_double-Reads host value h.1))
    call-Rounds (data_of key value) h =
        Rounds-item hash names host compare_p compare_o _ key _ u _ (omega arith) h.0
          (value_read _ value key _ mmdata (read_raw-Reads value))
    call-Rounds (array key len) h = absurd h
    call-Rounds (array_end key) h = absurd h
    call-Rounds (object key stru) h = absurd h

  -- The items of the calls change the last container, one round each, and nothing else.
  pub calls-Rounds :
      (ks : List PackCall) (c : ℕ) (node : Node T) (u : MmUnpacker T N)
      → All FitsCall ks
      → last_item u ≡ some c
      → get_elem? u.heap c ≡ some node
      → (heap : List (Node T)) × Rounds hash names host compare_p compare_o
          (calls_bytes host ks)
          (length ks)
          u
          (record u { heap = heap })
        × (get_elem? heap c ≡ some (received hash host compare_p compare_o node ks))
        × ((j : ℕ) → c ≢ j → get_elem? heap j ≡ get_elem? u.heap j)
  calls-Rounds [] c node u f s e =
      (u.heap, Rounds-none hash names host compare_p compare_o u, e, λ j _. refl)
  calls-Rounds (k ∷ ks) c node u f s e =
      let u1 : MmUnpacker T N = record u {
        heap = set u.heap c (with_call hash host compare_p compare_o node k);
      } in
      let (heap, more, at, others) =
        calls-Rounds ks c (with_call hash host compare_p compare_o node k) u1 f.1 s (
          get_elem?-set_self u.heap c (with_call hash host compare_p compare_o node k)
            (get_elem?-lt u.heap c node e)) in
      (
        heap,
        subst
            (λ l.
              Rounds hash names host compare_p compare_o (calls_bytes host (k ∷ ks)) l u
                (record u { heap = heap }))
            (omega arith)
            (Rounds-append hash names host compare_p compare_o (call_bytes host k)
              (calls_bytes host ks) 1 (length ks) u u1 _ (call-Rounds c node u s e k f.0) more),
        at,
        λ j h. others j h ∙ get_elem?-set_ne u.heap c j _ h,
      )

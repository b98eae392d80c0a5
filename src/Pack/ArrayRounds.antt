-- ===== src/Pack/ArrayRounds.antt =====
-- mmo/mmo_pack.c: the items of an array of numbers and data, round by round.
use lc_clibs.Base.{
  ℕ, zero, suc, ◌+◌, ◌^◌, ◌<◌, ◌≡◌, ◌≢◌, refl, sym, ◌∙◌, ap, arith, Bool, Option, none, some, List,
  [], ◌∷◌, ◌++◌, append_assoc, append-nil, All, length, length-append, get_elem?, set,
  get_elem?-last, get_elem?-front, get_elem?-lt, get_elem?-set_self, get_elem?-set_ne, lt→ltb,
}
use lc_clibs.Dybuf.VarFormat.{var_bytes}
use lc_clibs.Dybuf.VarCodec.{next_var_u64-Reads}
use lc_clibs.Dybuf.TypdexFormat.{typdex_bytes}
use lc_clibs.Ext.Hash.{Hash}
use lc_clibs.Ext.Map.{MmMapItem}
use lc_clibs.Ext.Sequence.{push_mmlist_item}
use lc_clibs.Pack.Codes.{pkrdex_array}
use lc_clibs.Pack.Packer.{PackCall}
use lc_clibs.Pack.CallCodec.{FitsCall, value_of, calls_bytes}
use lc_clibs.Pack.Unpacker.{
  Primary, Value, container, Node, list, MmUnpacker, last_item, with_value, push_container,
  pop_container, alloc_node, push_into_stack,
}
use lc_clibs.Pack.Process.{read_array, process_item}
use lc_clibs.Pack.Rounds.{Rounds, Rounds-item, Rounds-append}
use lc_clibs.Pack.ItemCodec.{with_call, received, calls-Rounds}
use lc_clibs.Pack.Received.{fits_value}

abbrev one_more : Option Value → List Value → List Value
one_more none vs = vs
one_more (some v) vs = v ∷ vs

-- What `process` makes of the calls in an array.
abbrev pub values : List PackCall → List Value
values [] = []
values (k ∷ ks) = one_more (value_of k) (values ks)

pub length-values : (ks : List PackCall) → All FitsCall ks → length (values ks) ≡ length ks
length-values [] f = refl
length-values (k ∷ ks) f = let (v, e) = fits_value k f.0 in rw e (ap suc (length-values ks f.1))

pub get_elem?-values :
    (ks : List PackCall) (i : ℕ) (k : PackCall)
    → All FitsCall ks
    → get_elem? ks i ≡ some k
    → get_elem? (values ks) i ≡ value_of k
get_elem?-values [] i k f h = let bad : none ≡ some k = h in cc
get_elem?-values (j ∷ ks) zero k f h =
    let (v, e) = fits_value j f.0 in let same : j ≡ k = cc in rw e (sym e ∙ ap value_of same)
get_elem?-values (j ∷ ks) (suc i) k f h =
    let (v, e) = fits_value j f.0 in rw e (get_elem?-values ks i k f.1 h)

pub get_elem?-values-none :
    (ks : List PackCall) (i : ℕ)
    → All FitsCall ks
    → get_elem? ks i ≡ none
    → get_elem? (values ks) i ≡ none
get_elem?-values-none [] i f h = refl
get_elem?-values-none (j ∷ ks) zero f h = let bad : some j ≡ none = h in absurd (cc)
get_elem?-values-none (j ∷ ks) (suc i) f h =
    let (v, e) = fits_value j f.0 in rw e (get_elem?-values-none ks i f.1 h)

abbrev pub array_bytes : Bool → ℕ → List PackCall → List ℕ
array_bytes host key ks =
    (typdex_bytes pkrdex_array key ++ var_bytes (length ks + 1))
    ++ (calls_bytes host ks ++ (typdex_bytes pkrdex_array key ++ var_bytes 0))

module _ {T N : Type 0} (hash : Hash (List ℕ) (MmMapItem Primary Value) T)
    (names : Hash ℕ (Option (List ℕ)) N) (host : Bool) (compare_p : Primary → Primary → ℕ)
    (compare_o : Value → Value → ℕ) where
  -- The unpacker inside a new array of the container `c`.
  abbrev pub in_array : ℕ → ℕ → Node T → MmUnpacker T N → MmUnpacker T N
  in_array key c node u = record u {
    heap =
        set (u.heap ++ (list [] ∷ [])) c
          (with_value hash host compare_p compare_o key (container (length u.heap)) node);
    stack = length u.heap ∷ u.stack;
  }

  begin_array-Rounds :
      (key n c : ℕ) (node : Node T) (u : MmUnpacker T N)
      → key < 2 ^ 20
      → 0 < n
      → n < 2 ^ 64
      → last_item u ≡ some c
      → get_elem? u.heap c ≡ some node
      → Rounds hash names host compare_p compare_o
          (typdex_bytes pkrdex_array key ++ var_bytes n)
          1
          u
          (in_array key c node u)
  unfolding process_item read_array alloc_node push_into_stack push_container
  begin_array-Rounds key n c node u h pos small s e =
      Rounds-item hash names host compare_p compare_o _ key _ u _ (omega arith) h (λ m d b. rw (
        next_var_u64-Reads n small m d b,
        lt→ltb 0 n pos,
        s,
        get_elem?-front u.heap (list [] ∷ []) c (get_elem?-lt u.heap c node e),
        e,
      ))

  -- The end of an array takes the last container off the stack, whatever it is.
  pub array_end-Rounds :
      (key c : ℕ) (rest : List ℕ) (u : MmUnpacker T N)
      → key < 2 ^ 20
      → u.stack ≡ c ∷ rest
      → Rounds hash names host compare_p compare_o
          (typdex_bytes pkrdex_array key ++ var_bytes 0)
          1
          u
          (record u { stack = rest })
  unfolding process_item read_array pop_container
  array_end-Rounds key c rest u h s =
      Rounds-item hash names host compare_p compare_o _ key _ u _ (omega arith) h
        (λ m d b. rw (next_var_u64-Reads 0 (omega arith) m d b, s))

  received-list :
      (ks : List PackCall) (items : List Value)
      → All FitsCall ks
      → received hash host compare_p compare_o (list items) ks ≡ list (items ++ values ks)
  unfolding push_mmlist_item
  received-list [] items f = ap list (sym (append-nil items))
  received-list (k ∷ ks) items f =
      let (v, e) = fits_value k f.0 in
      rw (with_call, e)
        (received-list ks (items ++ (v ∷ [])) f.1
          ∙ ap list (append_assoc items (v ∷ []) (values ks)))

  -- An array goes into the last container, and the stack is what it was.
  pub array_Rounds :
      (key c : ℕ) (ks : List PackCall) (node : Node T) (u : MmUnpacker T N)
      → key < 2 ^ 20
      → length ks + 1 < 2 ^ 32
      → All FitsCall ks
      → last_item u ≡ some c
      → get_elem? u.heap c ≡ some node
      → (heap : List (Node T)) × Rounds hash names host compare_p compare_o
          (array_bytes host key ks)
          (1 + (length ks + 1))
          u
          (record u { heap = heap })
        × (get_elem? heap c
            ≡ some (with_value hash host compare_p compare_o key (container (length u.heap)) node))
        × (get_elem? heap (length u.heap) ≡ some (list (values ks)))
  array_Rounds key c ks node u h long f s e =
      let u1 : MmUnpacker T N = in_array key c node u in
      let low : c < length u.heap = get_elem?-lt u.heap c node e in
      let apart : c ≢ length u.heap = λ q. absurd (omega (arith, low, q)) in
      let inner : get_elem? u1.heap (length u.heap) ≡ some (list []) =
        get_elem?-set_ne (u.heap ++ (list [] ∷ [])) c (length u.heap) _ apart
        ∙ get_elem?-last u.heap (list []) in
      let (heap, rounds, at, others) =
        calls-Rounds hash names host compare_p compare_o ks (length u.heap) (list []) u1 f refl
          inner in
      let filled : MmUnpacker T N = record u1 { heap = heap } in
      let done : MmUnpacker T N = record u { heap = heap } in
      let closed =
        Rounds-append hash names host compare_p compare_o (calls_bytes host ks)
          (typdex_bytes pkrdex_array key ++ var_bytes 0) (length ks) 1 u1 filled done rounds
          (array_end-Rounds key (length u.heap) u.stack filled h refl) in
      (
        heap,
        Rounds-append hash names host compare_p compare_o
            (typdex_bytes pkrdex_array key ++ var_bytes (length ks + 1)) _ 1 (length ks + 1) u u1
            done (begin_array-Rounds key (length ks + 1) c node u h (omega arith) (omega arith) s e)
            closed,
        others c (λ q. absurd (omega (arith, low, q)))
            ∙ get_elem?-set_self (u.heap ++ (list [] ∷ [])) c _
                (omega (arith, low, length-append u.heap (list [] ∷ []))),
        at ∙ ap some (received-list ks [] f),
      )

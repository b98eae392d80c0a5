-- ===== src/Dybuf/VarBlockCodec.antt =====
-- dybuf/dybuf.h: runs and C strings behind a variable length, written and read back.
use lc_clibs.Base.{
  ℕ, suc, ◌+◌, ◌^◌, ◌<◌, ◌≡◌, refl, ap, ◌∙◌, Option, none, some, List, [], ◌∷◌, ◌++◌, arith, ne→==,
  length, length-append, take, All, add32, sub32, u32, append-nil, inl,
}
use mathlib.Core.Path.{subst}
use lc_clibs.Mem.{Mem, Malloc}
use lc_clibs.Dybuf.State.{Dybuf, ok, M, ◌>>=◌}
use lc_clibs.Dybuf.Blocks.{next_data_without_len, append_data_without_len}
use lc_clibs.Dybuf.VarFormat.{var_bytes}
use lc_clibs.Dybuf.VarCodec.{append_var_u64-Writes, next_var_u64-Reads}
use lc_clibs.Dybuf.VarBlocks.{
  append_data_with_var_len, next_data_with_var_len, strlen, plat_cstr_length,
  append_cstring_of_length, append_cstring_with_var_len, next_cstring_with_var_len, bytes_behind,
}
use lc_clibs.Dybuf.Reads.{Holds, Holds-split, Reads, advance}
use lc_clibs.Dybuf.Writes.{Writes, Writes-then}
use lc_clibs.Dybuf.BlockCodec.{
  append_data_without_len-Writes, next_run_lem, next_run_null, copy_out_lem,
}

-- The length and the run.
abbrev pub data_bytes : List ℕ → List ℕ
data_bytes bs = var_bytes (length bs) ++ bs

-- What a reader gets: null for an empty run.
abbrev pub found : List ℕ → Option Mem
found [] = none
found (b ∷ bs) = some (b ∷ bs)

-- A caller that takes the bytes behind the pointer it is given.
unfoldable pub read_data : M (Option Mem)
read_data = do p ← next_data_with_var_len; bytes_behind p.0 p.1

unfoldable pub read_cstring : M (Option Mem)
read_cstring = do p ← next_cstring_with_var_len; bytes_behind p.0 (add32 p.1 1)

take-length : (bs : List ℕ) → take (length bs) bs ≡ bs
take-length [] = refl
take-length (b ∷ bs) = ap (λ t. b ∷ t) (take-length bs)

pub append_data_with_var_len-Writes :
    (bs : Mem)
    → length bs < 2 ^ 32
    → Writes (data_bytes bs) (append_data_with_var_len bs (length bs))
unfolding append_data_with_var_len
append_data_with_var_len-Writes bs h =
    Writes-then (var_bytes (length bs)) bs _ _ (append_var_u64-Writes (length bs) (omega arith)) (
      subst (λ t. Writes t (append_data_without_len bs (length bs))) (take-length bs)
        (append_data_without_len-Writes bs (length bs) (omega arith)))

-- The pointer, the length and the bytes, after the length has been read.
pub next_data_with_var_len_lem :
    (m : Malloc) (d : Dybuf) (b : ℕ) (bs : List ℕ)
    → Holds d (data_bytes (b ∷ bs))
    → next_data_with_var_len m d
      ≡ ok
          (some (d.position + length (var_bytes (length (b ∷ bs)))), length (b ∷ bs))
          (advance (length (data_bytes (b ∷ bs))) d)
unfolding next_data_with_var_len next_data_without_len
next_data_with_var_len_lem m d b bs h =
    let n : ℕ = suc (length bs) in
    let (f, t) = Holds-split (var_bytes n) (b ∷ bs) h in
    let e = length-append (var_bytes n) (b ∷ bs) in
    let small : u32 n ≡ n = omega (arith, h.within, h.uint_range, e) in
    let p : d.position + length (var_bytes n) + n ≡ d.position + length (var_bytes n ++ (b ∷ bs)) =
      omega (arith, e) in
    rw
      (
        next_var_u64-Reads n (omega (arith, h.within, h.uint_range, e)) m d f,
        small,
        next_run_lem m (advance (length (var_bytes n)) d) b bs t,
      )
      (rw p)

-- The same for a string, whose reported size leaves the terminator out.
pub next_cstring_with_var_len_lem :
    (m : Malloc) (d : Dybuf) (b : ℕ) (bs : List ℕ)
    → Holds d (data_bytes (b ∷ bs))
    → next_cstring_with_var_len m d
      ≡ ok
          (some (d.position + length (var_bytes (length (b ∷ bs)))), length bs)
          (advance (length (data_bytes (b ∷ bs))) d)
unfolding next_cstring_with_var_len next_data_without_len
next_cstring_with_var_len_lem m d b bs h =
    let n : ℕ = suc (length bs) in
    let (f, t) = Holds-split (var_bytes n) (b ∷ bs) h in
    let e = length-append (var_bytes n) (b ∷ bs) in
    let small : u32 n ≡ n = omega (arith, h.within, h.uint_range, e) in
    let less : sub32 n 1 ≡ length bs = omega (arith, h.within, h.uint_range, e) in
    let p : d.position + length (var_bytes n) + n ≡ d.position + length (var_bytes n ++ (b ∷ bs)) =
      omega (arith, e) in
    rw
      (
        next_var_u64-Reads n (omega (arith, h.within, h.uint_range, e)) m d f,
        small,
        next_run_lem m (advance (length (var_bytes n)) d) b bs t,
        less,
      )
      (rw p)

pub run_behind :
    (m : Malloc) (d : Dybuf) (b : ℕ) (bs : List ℕ)
    → Holds d (data_bytes (b ∷ bs))
    → bytes_behind
        (some (d.position + length (var_bytes (length (b ∷ bs)))))
        (length (b ∷ bs))
        m
        (advance (length (data_bytes (b ∷ bs))) d)
      ≡ ok (some (b ∷ bs)) (advance (length (data_bytes (b ∷ bs))) d)
unfolding bytes_behind
run_behind m d b bs h =
    let (f, t) = Holds-split (var_bytes (length (b ∷ bs))) (b ∷ bs) h in
    rw (copy_out_lem m (advance (length (data_bytes (b ∷ bs))) d) _ b bs t.bytes)

-- An empty run: null and 0.
pub next_data_with_var_len_null : Reads (data_bytes []) (none, 0) next_data_with_var_len
unfolding next_data_with_var_len next_data_without_len
next_data_with_var_len_null m d h =
    let (f, t) = Holds-split (var_bytes 0) [] h in
    rw (
      append-nil (var_bytes 0),
      next_var_u64-Reads 0 (omega arith) m d f,
      next_run_null m (advance (length (var_bytes 0)) d) 0 (inl refl)
          (omega (arith, t.within, t.uint_range)),
    )

-- `dyb_next_data_with_var_len` finds the run again, and null for an empty one.
pub read_data-Reads : (bs : List ℕ) → Reads (data_bytes bs) (found bs) read_data
unfolding read_data bytes_behind
read_data-Reads [] m d h = rw (next_data_with_var_len_null m d h)
read_data-Reads (b ∷ bs) m d h = rw (next_data_with_var_len_lem m d b bs h) (run_behind m d b bs h)

read_run : (b : ℕ) (bs : List ℕ) → Reads (data_bytes (b ∷ bs)) (some (b ∷ bs)) read_cstring
unfolding read_cstring
read_run b bs m d h =
    let e = length-append (var_bytes (length (b ∷ bs))) (b ∷ bs) in
    let p : add32 (length bs) 1 ≡ length (b ∷ bs) = omega (arith, h.within, h.uint_range, e) in
    rw (next_cstring_with_var_len_lem m d b bs h, p) (run_behind m d b bs h)

-- A C string in memory: its characters and the terminator.
abbrev pub cstring : List ℕ → Mem
cstring chars = chars ++ (0 ∷ [])

length-cstring : (chars : List ℕ) → length (cstring chars) ≡ length chars + 1
length-cstring chars = length-append chars (0 ∷ [])

strlen-cstring :
    (chars : List ℕ) → All (λ c. 0 < c) chars → strlen (cstring chars) ≡ some (length chars)
strlen-cstring [] h = refl
strlen-cstring (c ∷ cs) h = rw (ne→== c 0 (λ e. absurd (omega (arith, h.0))), strlen-cstring cs h.1)

length_of-cstring :
    (chars : List ℕ)
    → All (λ c. 0 < c) chars
    → plat_cstr_length (cstring chars) ≡ some (u32 (length chars))
length_of-cstring chars h = rw (strlen-cstring chars h, plat_cstr_length)

-- A string is written as the run of its characters and terminator.
append_cstring_as_data :
    (chars : List ℕ)
    → All (λ c. 0 < c) chars
    → length chars + 1 < 2 ^ 32
    → append_cstring_with_var_len (cstring chars)
      ≡ append_data_with_var_len (cstring chars) (length (cstring chars))
unfolding append_cstring_with_var_len append_cstring_of_length append_data_with_var_len
append_cstring_as_data chars h k =
    let p : add32 (u32 (length chars)) 1 ≡ length (cstring chars) =
      omega (arith, length-cstring chars) in
    ap (append_cstring_of_length (cstring chars)) (length_of-cstring chars h)
    ∙ ap (append_data_with_var_len (cstring chars)) p

-- `dyb_append_cstring_with_var_len` writes the characters with their terminator.
pub append_cstring_with_var_len-Writes :
    (chars : List ℕ)
    → All (λ c. 0 < c) chars
    → length chars + 1 < 2 ^ 32
    → Writes (data_bytes (cstring chars)) (append_cstring_with_var_len (cstring chars))
append_cstring_with_var_len-Writes chars h k =
    rw (append_cstring_as_data chars h k)
      (append_data_with_var_len-Writes (cstring chars) (omega (arith, length-cstring chars)))

pub read_cstring-Reads :
    (chars : List ℕ) → Reads (data_bytes (cstring chars)) (some (cstring chars)) read_cstring
read_cstring-Reads [] = read_run 0 []
read_cstring-Reads (c ∷ cs) = read_run c (cstring cs)

-- ===== src/Dybuf/BlockCodec.antt =====
-- dybuf/dybuf.h: runs of bytes, written and read back.
use lc_clibs.Base.{
  ℕ, zero, suc, ◌+◌, ◌^◌, ◌≤◌, ◌<◌, ◌≡◌, ◌⊎◌, refl, ap, sym, ◌∙◌, none, some, List, [], ◌∷◌, ◌++◌,
  arith, ltb-false, le→leb, ne→==, length, take, drop, set, get_elem?, get_elem?-none, add32,
  append_assoc, length-set,
}
use lc_clibs.Mem.{Mem, Malloc}
use lc_clibs.Dybuf.State.{Dybuf, ok, skip}
use lc_clibs.Dybuf.Blocks.{put_run, put_run_if_any, append_data_without_len, copy_out, next_run}
use lc_clibs.Dybuf.Reads.{HoldsAt, Holds, advance}
use lc_clibs.Dybuf.Runs.{set_run, Fills, Fills-pure}
use lc_clibs.Dybuf.Writes.{Writes, Writes-reserve}

take-set : (xs : Mem) (i b : ℕ) → i < length xs → take (suc i) (set xs i b) ≡ take i xs ++ (b ∷ [])
take-set [] i b h = absurd (omega arith)
take-set (x ∷ xs) zero b h = refl
take-set (x ∷ xs) (suc i) b h = ap (λ t. x ∷ t) (take-set xs i b (omega arith))

drop-set : (xs : Mem) (i k b : ℕ) → i < k → drop k (set xs i b) ≡ drop k xs
drop-set [] i k b h = refl
drop-set (x ∷ xs) i zero b h = absurd (omega arith)
drop-set (x ∷ xs) zero (suc k) b h = refl
drop-set (x ∷ xs) (suc i) (suc k) b h = drop-set xs i k b (omega arith)

take-all : (xs : Mem) (i : ℕ) → take i xs ++ drop i xs ≡ xs
take-all xs zero = refl
take-all [] (suc i) = refl
take-all (x ∷ xs) (suc i) = ap (λ t. x ∷ t) (take-all xs i)

-- Writing byte by byte is one copy.
set_run-splice :
    (block : Mem) (p e : ℕ) (bs : List ℕ)
    → e ≡ p + length bs
    → e ≤ length block
    → set_run block p bs ≡ take p block ++ (bs ++ drop e block)
set_run-splice block p e [] h k = let q : e ≡ p = omega arith in rw q (sym (take-all block p))
set_run-splice block p e (b ∷ bs) h k =
    let q : p + 1 ≡ suc p = omega arith in
    set_run-splice (set block p b) (p + 1) e bs (omega arith) (omega (arith, length-set block p b))
    ∙ rw (q, take-set block p b (omega arith), drop-set block p e b (omega arith))
        (append_assoc (take p block) (b ∷ []) (bs ++ drop e block))

length-take_le : (n : ℕ) (xs : Mem) → n ≤ length xs → length (take n xs) ≡ n
length-take_le zero xs h = refl
length-take_le (suc n) [] h = absurd (omega arith)
length-take_le (suc n) (x ∷ xs) h = ap suc (length-take_le n xs (omega arith))

put_run-Fills : (src : Mem) (len : ℕ) → len ≤ length src → Fills (take len src) (put_run src len)
unfolding put_run
put_run-Fills src len h m d fits small =
    let e = length-take_le len src h in
    let p : add32 d.position len ≡ d.position + len = omega (arith, e) in
    let s =
      set_run-splice d.block d.position (d.position + len) (take len src) (omega (arith, e))
        (omega (arith, e)) in
    ground (arith, s, e)

put_run_if_any-Fills :
    (src : Mem) (len : ℕ) → len ≤ length src → Fills (take len src) (put_run_if_any src len)
unfolding put_run_if_any
put_run_if_any-Fills src zero h = Fills-pure
put_run_if_any-Fills src (suc n) h =
    rw (ne→== (suc n) 0 (λ e. absurd (omega arith))) (put_run-Fills src (suc n) h)

-- `dyb_append_data_without_len` writes the first `length` bytes of its source.
pub append_data_without_len-Writes :
    (src : Mem) (len : ℕ)
    → len ≤ length src
    → Writes (take len src) (append_data_without_len src len)
unfolding append_data_without_len
append_data_without_len-Writes src len h =
    Writes-reserve (take len src) len (put_run_if_any src len) (sym (length-take_le len src h))
      (put_run_if_any-Fills src len h)

drop-cons : (xs : Mem) (i b : ℕ) → get_elem? xs i ≡ some b → drop i xs ≡ b ∷ drop (suc i) xs
drop-cons [] i b h = cc
drop-cons (x ∷ xs) zero b h = cc
drop-cons (x ∷ xs) (suc i) b h = drop-cons xs i b h

-- The bytes that stand at an index are those that a copy from there gives.
take-drop-HoldsAt :
    (block : Mem) (p : ℕ) (bs : List ℕ) → HoldsAt block p bs → take (length bs) (drop p block) ≡ bs
take-drop-HoldsAt block p [] h = refl
take-drop-HoldsAt block p (b ∷ bs) h =
    let q : p + 1 ≡ suc p = omega arith in
    rw (drop-cons block p b h.0)
      (ap (λ t. b ∷ t) (take-drop-HoldsAt block (suc p) bs (rw q at h.1)))

HoldsAt-le :
    (block : Mem) (p : ℕ) (b : ℕ) (bs : List ℕ)
    → HoldsAt block p (b ∷ bs)
    → p + length (b ∷ bs) ≤ length block
HoldsAt-le block p b [] h = ground (arith, get_elem?-none block p)
HoldsAt-le block p b (c ∷ bs) h = omega (arith, HoldsAt-le block (p + 1) c bs h.1)

pub copy_out_lem :
    (m : Malloc) (d : Dybuf) (p b : ℕ) (bs : List ℕ)
    → HoldsAt d.block p (b ∷ bs)
    → copy_out p (length (b ∷ bs)) m d ≡ ok (b ∷ bs) d
unfolding copy_out
copy_out_lem m d p b bs h = rw (
  le→leb (p + suc (length bs)) (length d.block) (HoldsAt-le d.block p b bs h),
  take-drop-HoldsAt d.block p (b ∷ bs) h,
)

-- Where a run of at least one byte stands next, all of it before the limit, the readers of runs
-- return the old position as the pointer and move behind the run.
pub next_run_lem :
    (m : Malloc) (d : Dybuf) (b : ℕ) (bs : List ℕ)
    → Holds d (b ∷ bs)
    → next_run (length (b ∷ bs)) m d ≡ ok (some d.position) (advance (length (b ∷ bs)) d)
unfolding next_run skip
next_run_lem m d b bs h =
    let p : add32 d.position (suc (length bs)) ≡ d.position + suc (length bs) =
      omega (arith, h.within, h.uint_range) in
    rw
      (
        p,
        ne→== (suc (length bs)) 0 (λ e. absurd (omega arith)),
        ltb-false d.limit (d.position + suc (length bs)) h.within,
      )
      (rw p)

-- For a length of 0, and for a run that goes past the limit without passing 2 ^ 32, the readers of
-- runs return null and change nothing.
pub next_run_null :
    (m : Malloc) (d : Dybuf) (len : ℕ)
    → (len ≡ 0) ⊎ (d.limit < d.position + len)
    → d.position + len < 2 ^ 32
    → next_run len m d ≡ ok none d
unfolding next_run
next_run_null m d len o h = ground arith

-- ===== src/Dybuf/Runs.antt =====
-- dybuf/dybuf.h: a run of bytes written at an index of a block.
use lc_clibs.Base.{
  ℕ, suc, ◌+◌, ◌^◌, ◌≤◌, ◌<◌, ◌≡◌, refl, ◌⊎◌, List, [], ◌∷◌, arith, length, get_elem?, set,
  length-set, get_elem?-set_self, get_elem?-set_ne, ◌∙◌, u8, add32, lt→ltb,
}
use lc_clibs.Mem.{Mem, Malloc}
use lc_clibs.Dybuf.State.{Dybuf, ok, M, pure, ◌>>◌, put_byte}
use lc_clibs.Dybuf.Reads.{HoldsAt}

abbrev pub set_run : Mem → ℕ → List ℕ → Mem
set_run block p [] = block
set_run block p (b ∷ bs) = set_run (set block p b) (p + 1) bs

pub length-set_run :
    (block : Mem) (p : ℕ) (bs : List ℕ) → length (set_run block p bs) ≡ length block
length-set_run block p [] = refl
length-set_run block p (b ∷ bs) = length-set_run (set block p b) (p + 1) bs ∙ length-set block p b

pub get_elem?-set_run :
    (block : Mem) (p : ℕ) (bs : List ℕ) (i : ℕ)
    → (i < p) ⊎ (p + length bs ≤ i)
    → get_elem? (set_run block p bs) i ≡ get_elem? block i
get_elem?-set_run block p [] i h = refl
get_elem?-set_run block p (b ∷ bs) i h =
    get_elem?-set_run (set block p b) (p + 1) bs i (omega arith)
    ∙ get_elem?-set_ne block p i b (omega arith)

pub HoldsAt-set_run :
    (block : Mem) (p : ℕ) (bs : List ℕ)
    → p + length bs ≤ length block
    → HoldsAt (set_run block p bs) p bs
HoldsAt-set_run block p [] h = tt
HoldsAt-set_run block p (b ∷ bs) h = (
  get_elem?-set_run (set block p b) (p + 1) bs p (omega arith)
      ∙ get_elem?-set_self block p b (omega arith),
  HoldsAt-set_run (set block p b) (p + 1) bs (omega (arith, length-set block p b)),
)

abbrev pub filled : List ℕ → Dybuf → Dybuf
filled bs d = record d { block = set_run d.block d.position bs; position = d.position + length bs }

-- Where there is room in the block, the call writes the bytes at the position, moves past them
-- and changes nothing else.
abbrev pub Fills : List ℕ → M (Unit {0}) → Type 0
Fills bs op =
    (m : Malloc) (d : Dybuf)
    → d.position + length bs ≤ length d.block
    → d.position + length bs < 2 ^ 32
    → op m d ≡ ok tt (filled bs d)

pub put_byte_lem : (x b : ℕ) → u8 x ≡ b → Fills (b ∷ []) (put_byte x)
unfolding put_byte
put_byte_lem x b e m d h k =
    let t = lt→ltb d.position (length d.block) (omega arith) in
    let p : add32 d.position 1 ≡ d.position + 1 = omega arith in rw (t, e, p)

pub Fills-pure : Fills [] (pure tt)
Fills-pure m d h k = let z : d.position ≡ d.position + 0 = omega arith in ground arith

pub Fills-byte :
    (x b : ℕ) (bs : List ℕ) (k : M (Unit {0}))
    → u8 x ≡ b
    → Fills bs k
    → Fills (b ∷ bs) (put_byte x >> k)
Fills-byte x b bs k e r m d h l =
    let p : d.position + 1 + length bs ≡ d.position + suc (length bs) = omega arith in
    rw
      (
        put_byte_lem x b e m d (omega arith) (omega arith),
        r m (filled (b ∷ []) d) (omega (arith, length-set d.block d.position b)) (omega arith),
      )
      (rw p)

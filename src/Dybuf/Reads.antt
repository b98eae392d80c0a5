-- ===== src/Dybuf/Reads.antt =====
-- dybuf/dybuf.h: what a reader needs of a buffer, and how two reads make one.
use lc_clibs.Base.{
  ℕ, ◌+◌, ◌^◌, ◌≤◌, ◌<◌, ◌≡◌, refl, some, List, [], ◌∷◌, ◌++◌, arith, length, get_elem?,
  length-append, ◌∙◌, ap, sym,
}
use lc_clibs.Mem.{Mem, Malloc}
use lc_clibs.Dybuf.State.{Dybuf, Outcome, ok, fault, M, pure, ◌>>=◌, take_byte, and_then}

-- The block holds the bytes from index `p` on.
abbrev pub HoldsAt : Mem → ℕ → List ℕ → Type 0
HoldsAt block p [] = Unit {0}
HoldsAt block p (b ∷ bs) = (get_elem? block p ≡ some b) × HoldsAt block (p + 1) bs

-- The next bytes of the buffer, all of them before its limit.
pub record Holds (d : Dybuf) (bs : List ℕ) : Type 0 where
  pub bytes : HoldsAt d.block d.position bs
  pub within : d.position + length bs ≤ d.limit
  pub uint_range : d.limit < 2 ^ 32

abbrev pub advance : ℕ → Dybuf → Dybuf
advance n d = record d { position = d.position + n }

-- Where the bytes stand next in a buffer, the call returns the value, moves past them and
-- changes nothing else.
abbrev pub Reads : {A : Type 0} → List ℕ → A → M A → Type 0
Reads bs a op = (m : Malloc) (d : Dybuf) → Holds d bs → op m d ≡ ok a (advance (length bs) d)

pub Holds-tail : {d : Dybuf} {b : ℕ} (bs : List ℕ) → Holds d (b ∷ bs) → Holds (advance 1 d) bs
Holds-tail bs h = record {
  bytes = h.bytes.1;
  within = omega (arith, h.within);
  uint_range = h.uint_range;
}

HoldsAt-split :
    (block : Mem) (p q : ℕ) (bs cs : List ℕ)
    → q ≡ p + length bs
    → HoldsAt block p (bs ++ cs)
    → HoldsAt block p bs × HoldsAt block q cs
HoldsAt-split block p q [] cs e h = let e' : q ≡ p = omega arith in (tt, rw e' h)
HoldsAt-split block p q (b ∷ bs) cs e h =
    let (f, s) = HoldsAt-split block (p + 1) q bs cs (omega arith) h.1 in ((h.0, f), s)

pub HoldsAt-join :
    (block : Mem) (p q : ℕ) (bs cs : List ℕ)
    → q ≡ p + length bs
    → HoldsAt block p bs
    → HoldsAt block q cs
    → HoldsAt block p (bs ++ cs)
HoldsAt-join block p q [] cs e h k = let e' : p ≡ q = omega arith in rw e' k
HoldsAt-join block p q (b ∷ bs) cs e h k =
    (h.0, HoldsAt-join block (p + 1) q bs cs (omega arith) h.1 k)

-- The bytes at an index are known from what the reads there return.
pub HoldsAt-same :
    (block old : Mem) (p : ℕ) (bs : List ℕ)
    → ((i : ℕ) → p ≤ i → i < p + length bs → get_elem? block i ≡ get_elem? old i)
    → HoldsAt old p bs
    → HoldsAt block p bs
HoldsAt-same block old p [] same h = tt
HoldsAt-same block old p (b ∷ bs) same h = (
  same p (omega arith) (omega arith) ∙ h.0,
  HoldsAt-same block old (p + 1) bs (λ i g k. same i (omega arith) (omega arith)) h.1,
)

pub Holds-split :
    {d : Dybuf} (bs cs : List ℕ)
    → Holds d (bs ++ cs)
    → Holds d bs × Holds (advance (length bs) d) cs
Holds-split {d} bs cs h =
    let (f, s) =
      HoldsAt-split d.block d.position (d.position + length bs) bs cs (omega arith) h.bytes in
    let e = length-append bs cs in
    (
      record { bytes = f; within = omega (arith, h.within, e); uint_range = h.uint_range },
      record { bytes = s; within = omega (arith, h.within, e); uint_range = h.uint_range },
    )

pub advance-advance : (d : Dybuf) (i j k : ℕ) → i + j ≡ k → advance j (advance i d) ≡ advance k d
advance-advance d i j k e = ground arith

pub Reads-pure : {A : Type 0} (a b : A) → a ≡ b → Reads [] b (pure a)
Reads-pure a b e m d h = let z : d.position ≡ d.position + 0 = omega arith in ground (arith, e)

pub Reads-bind :
    {A B : Type 0} {a : A} {b : B} (bs cs : List ℕ) (op : M A) (k : A → M B)
    → Reads bs a op
    → Reads cs b (k a)
    → Reads (bs ++ cs) b (op >>= k)
Reads-bind {b} bs cs op k r s m d h =
    let (f, t) = Holds-split bs cs h in
    rw (r m d f, s m (advance (length bs) d) t)
      (ap (ok b) (advance-advance d (length bs) (length cs) _ (sym (length-append bs cs))))

pub take_byte_lem :
    (m : Malloc) (d : Dybuf) (b : ℕ)
    → get_elem? d.block d.position ≡ some b
    → d.position + 1 < 2 ^ 32
    → take_byte m d ≡ ok b (advance 1 d)
unfolding take_byte
take_byte_lem m d b h k = ground arith

pub Reads-byte :
    {B : Type 0} {a : B} (b : ℕ) (bs : List ℕ) (k : ℕ → M B)
    → Reads bs a (k b)
    → Reads (b ∷ bs) a (take_byte >>= k)
Reads-byte b bs k r =
    Reads-bind (b ∷ []) bs take_byte k
      (λ m d h. take_byte_lem m d b h.bytes.0 (omega (arith, h.within, h.uint_range))) r

and_then_assoc :
    {A B C : Type 0} (o : Outcome A) (m : Malloc) (f : A → M B) (g : B → M C)
    → and_then (and_then o m f) m g ≡ and_then o m (λ a m' d'. and_then (f a m' d') m' g)
and_then_assoc (ok a d) m f g = refl
and_then_assoc fault m f g = refl

-- Where the binds stand does not matter to what is read.
pub Reads-assoc :
    {A B C : Type 0} {c : C} (bs : List ℕ) (op : M A) (f : A → M B) (g : B → M C)
    → Reads bs c (op >>= λ a. f a >>= g)
    → Reads bs c ((op >>= f) >>= g)
Reads-assoc bs op f g r m d h = and_then_assoc (op m d) m f g ∙ r m d h

pub Reads-assoc_back :
    {A B C : Type 0} {c : C} (bs : List ℕ) (op : M A) (f : A → M B) (g : B → M C)
    → Reads bs c ((op >>= f) >>= g)
    → Reads bs c (op >>= λ a. f a >>= g)
Reads-assoc_back bs op f g r m d h = sym (and_then_assoc (op m d) m f g) ∙ r m d h

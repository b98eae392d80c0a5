-- ===== src/Dybuf/State.antt =====
-- dybuf/dybuf.h: `struct dybuf`, and what a call does to it.
use lc_clibs.Base.{
  ℕ, ◌^◌, ◌≤◌, ◌<◌, ◌≡◌, Bool, none, some, add32, ltb, if◌then◌else◌, length, get_elem?, set, u8,
}
use lc_clibs.Mem.{Mem, Malloc}

-- `data` is the block that `_data` points to.
pub record Dybuf : Type 0 where
  pub block : Mem
  pub capacity : ℕ
  pub limit : ℕ
  pub position : ℕ
  pub mark : ℕ
  pub fixed_capacity : Bool
  pub should_release_instance : Bool
  pub should_release_data : Bool

-- `fault` is an access outside the block.
pub data Outcome (A : Type 0) : Type 0 where
  ok : A → Dybuf → Outcome A
  fault : Outcome A

abbrev pub M : Type 0 → Type 0
M A = Malloc → Dybuf → Outcome A

abbrev pub pure : {A : Type 0} → A → M A
pure a m d = ok a d

module _ {A B : Type 0} where
  abbrev pub and_then : Outcome A → Malloc → (A → M B) → Outcome B
  and_then (ok a d) m k = k a m d
  and_then fault m k = fault

  infixl 5 ◌>>=◌ ◌>>◌
  abbrev pub ◌>>=◌ : M A → (A → M B) → M B
  ◌>>=◌ f k m d = and_then (f m d) m k

  abbrev pub ◌>>◌ : M A → M B → M B
  ◌>>◌ f k m d = and_then (f m d) m (λ _. k)

abbrev pub this : M Dybuf
this m d = ok d d

-- `data[position++] = b` for a byte `b`; the cast to `byte` is made here.
unfoldable pub put_byte : ℕ → M (Unit {0})
put_byte b m d =
    if ltb d.position (length d.block)
    then ok tt (record d { block = set d.block d.position (u8 b); position = add32 d.position 1 })
    else fault

-- `data[position++]`
unfoldable pub take_byte : M ℕ
take_byte m d = elim (get_elem? d.block d.position) [
  | none ↦ fault
  | some b ↦ ok b (record d { position = add32 d.position 1 })
]

-- `data[position + i]`
unfoldable pub peek_byte : ℕ → M ℕ
peek_byte i m d = elim (get_elem? d.block (add32 d.position i)) [ none ↦ fault | some b ↦ ok b d ]

-- `position += n`
unfoldable pub skip : ℕ → M (Unit {0})
skip n m d = ok tt (record d { position = add32 d.position n })

-- The order that the comment above `struct dybuf` promises, for a block of `capacity` bytes
-- and the numbers of a `uint`.
pub record IsValid (d : Dybuf) : Type 0 where
  pub block_size : length d.block ≡ d.capacity
  pub uint_range : d.capacity < 2 ^ 32
  pub limit_le : d.limit ≤ d.capacity
  pub position_le : d.position ≤ d.limit
  pub mark_le : d.mark ≤ d.position

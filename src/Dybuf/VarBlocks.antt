-- ===== src/Dybuf/VarBlocks.antt =====
-- dybuf/dybuf.h: runs and C strings behind a variable length; platform/plat_string.h: `strlen`.
use lc_clibs.Base.{ℕ, suc, Option, none, some, [], ◌∷◌, u32, add32, sub32, ◌==◌, if◌then◌else◌}
use lc_clibs.Mem.{Mem}
use lc_clibs.Dybuf.State.{M, fault, pure, ◌>>=◌, ◌>>◌}
use lc_clibs.Dybuf.Blocks.{next_data_without_len, append_data_without_len, copy_out}
use lc_clibs.Dybuf.VarInt.{append_var_u64, next_var_u64}

unfoldable pub append_data_with_var_len : Mem → ℕ → M (Unit {0})
append_data_with_var_len src size = do append_var_u64 size; append_data_without_len src size

-- The pointer and `*size`.
unfoldable pub next_data_with_var_len : M (Option ℕ × ℕ)
next_data_with_var_len = do v ← next_var_u64; at ← next_data_without_len (u32 v); pure (at, u32 v)

-- `strlen`: none is a string without a terminator in its block.
abbrev pub strlen : Mem → Option ℕ
strlen [] = none
strlen (b ∷ bs) =
    if b == 0 then some 0 else elim (strlen bs) [ none ↦ none | some n ↦ some (suc n) ]

-- `plat_cstr_length` is a `uint`.
abbrev pub plat_cstr_length : Mem → Option ℕ
plat_cstr_length string = elim (strlen string) [ none ↦ none | some n ↦ some (u32 n) ]

unfoldable pub append_cstring_of_length : Mem → Option ℕ → M (Unit {0})
append_cstring_of_length string none = λ _ _. fault
append_cstring_of_length string (some size) = do
  append_var_u64 (add32 size 1)
  append_data_without_len string (add32 size 1)

unfoldable pub append_cstring_with_var_len : Mem → M (Unit {0})
unfolding append_cstring_of_length
append_cstring_with_var_len string = append_cstring_of_length string (plat_cstr_length string)

-- `*size` leaves the terminator out.
unfoldable pub next_cstring_with_var_len : M (Option ℕ × ℕ)
next_cstring_with_var_len = do
  v ← next_var_u64
  at ← next_data_without_len (u32 v)
  pure (at, sub32 (u32 v) 1)

-- What a caller finds behind the pointer: `size` bytes, or nothing behind null.
unfoldable pub bytes_behind : Option ℕ → ℕ → M (Option Mem)
bytes_behind none size = pure none
bytes_behind (some at) size = do bytes ← copy_out at size; pure (some bytes)

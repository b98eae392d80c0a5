-- ===== src/Dybuf/Append.antt =====
-- dybuf/dybuf.h: `dyb_append_bool` to `dyb_append_u64`, most significant byte first.
-- `value` is a number of the parameter's type; `put_byte` makes the cast to a byte.
use lc_clibs.Base.{ℕ, Bool, bit_and, shr, if◌then◌else◌}
use lc_clibs.Dybuf.State.{◌>>◌, M, put_byte}
use lc_clibs.Dybuf.Resize.{reserve}

unfoldable pub append_bool : Bool → M (Unit {0})
append_bool value = do reserve 1; put_byte (if value then 1 else 0)

unfoldable pub append_u8 : ℕ → M (Unit {0})
append_u8 value = do reserve 1; put_byte value

unfoldable pub append_u16 : ℕ → M (Unit {0})
append_u16 value = do
  reserve 2
  put_byte (bit_and (shr value 8) 0xff)
  put_byte (bit_and value 0xff)

unfoldable pub append_u24 : ℕ → M (Unit {0})
append_u24 value = do
  reserve 3
  put_byte (bit_and (shr value 16) 0xff)
  put_byte (bit_and (shr value 8) 0xff)
  put_byte (bit_and value 0xff)

unfoldable pub append_u32 : ℕ → M (Unit {0})
append_u32 value = do
  reserve 4
  put_byte (bit_and (shr value 24) 0xff)
  put_byte (bit_and (shr value 16) 0xff)
  put_byte (bit_and (shr value 8) 0xff)
  put_byte (bit_and value 0xff)

unfoldable pub append_u40 : ℕ → M (Unit {0})
append_u40 value = do
  reserve 5
  put_byte (bit_and (shr value 32) 0xff)
  put_byte (bit_and (shr value 24) 0xff)
  put_byte (bit_and (shr value 16) 0xff)
  put_byte (bit_and (shr value 8) 0xff)
  put_byte value

unfoldable pub append_u48 : ℕ → M (Unit {0})
append_u48 value = do
  reserve 6
  put_byte (bit_and (shr value 40) 0xff)
  put_byte (bit_and (shr value 32) 0xff)
  put_byte (bit_and (shr value 24) 0xff)
  put_byte (bit_and (shr value 16) 0xff)
  put_byte (bit_and (shr value 8) 0xff)
  put_byte value

unfoldable pub append_u56 : ℕ → M (Unit {0})
append_u56 value = do
  reserve 7
  put_byte (bit_and (shr value 48) 0xff)
  put_byte (bit_and (shr value 40) 0xff)
  put_byte (bit_and (shr value 32) 0xff)
  put_byte (bit_and (shr value 24) 0xff)
  put_byte (bit_and (shr value 16) 0xff)
  put_byte (bit_and (shr value 8) 0xff)
  put_byte value

unfoldable pub append_u64 : ℕ → M (Unit {0})
append_u64 value = do
  reserve 8
  put_byte (bit_and (shr value 56) 0xff)
  put_byte (bit_and (shr value 48) 0xff)
  put_byte (bit_and (shr value 40) 0xff)
  put_byte (bit_and (shr value 32) 0xff)
  put_byte (bit_and (shr value 24) 0xff)
  put_byte (bit_and (shr value 16) 0xff)
  put_byte (bit_and (shr value 8) 0xff)
  put_byte value

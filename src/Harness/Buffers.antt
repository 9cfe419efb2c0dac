-- ===== src/Harness/Buffers.antt =====
-- unit-tests/utils/helpers.ts, and the buffers of Node.js that all helpers write. `none` is a thrown
-- exception.
pub mod BigEndian
pub mod Bigint
use stacks_pyth_bridge.Prelude.{
  ℕ, zero, suc, ◌+◌, ◌-◌, ◌*◌, ◌/◌, ◌%◌, ◌^◌, ◌==◌, ltb, if◌then◌else◌, Option, none, some, List,
  [], ◌∷◌, ◌++◌, length,
}
use stacks_pyth_bridge.Prelude.Bytes.{Bytes, be_bytes, be_value}
use stacks_pyth_bridge.Prelude.Int.{ℤ, pos, negsuc}

infixl 5 ◌>>=◌
abbrev pub ◌>>=◌ {ℓ κ} : {A : Type ℓ} {B : Type κ} → Option A → (A → Option B) → Option B
some a >>= f = f a
none >>= f = none

-- `Buffer.alloc(n)` with `writeUint8`, `writeUInt16BE` or `writeUInt32BE` at 0: a RangeError if the
-- value does not fit.
unfoldable pub write_uint_be : ℕ → ℕ → Option Bytes
write_uint_be n v = if ltb v (256 ^ n) then some (be_bytes n v) else none

-- `Buffer.concat`
unfoldable pub concat : List Bytes → Bytes
concat [] = []
concat (b ∷ bs) = b ++ concat bs

-- `toString(16)` of a natural number, as the values of its digits.
unfoldable pub hex_loop : ℕ → ℕ → List ℕ → List ℕ
hex_loop zero v digits = digits
hex_loop (suc fuel) v digits =
    let rest = hex_loop fuel (v / 16) ((v % 16) ∷ digits) in if v == 0 then digits else rest

unfoldable pub to_hex : ℕ → List ℕ
unfolding hex_loop
to_hex v = if v == 0 then 0 ∷ [] else hex_loop v v []

-- `for (let i = 0; i < padding; i++) hexString = "0" + hexString`
unfoldable pub pad : ℕ → List ℕ → List ℕ
pad zero digits = digits
pad (suc padding) digits = 0 ∷ pad padding digits

-- `Buffer.from(hexString, "hex")`: two digits are a byte, and an odd digit at the end is dropped.
unfoldable pub from_hex : List ℕ → Bytes
from_hex [] = []
from_hex (d ∷ []) = []
from_hex (d ∷ e ∷ ds) = (d * 16 + e) ∷ from_hex ds

unfoldable pub natural_to_buffer : ℕ → ℕ → Bytes
unfolding to_hex pad from_hex
natural_to_buffer v byte_length =
    let hex_string = to_hex v in from_hex (pad (byte_length * 2 - length hex_string) hex_string)

-- `-(n + 1)`: the two's complement is taken until the value is not negative; n rounds are enough.
unfoldable pub negative_to_buffer : ℕ → ℕ → ℕ → Bytes
unfolding natural_to_buffer
negative_to_buffer zero n byte_length =
    natural_to_buffer (2 ^ (byte_length * 8) - 1 - n) byte_length
negative_to_buffer (suc fuel) n byte_length =
    let again = negative_to_buffer fuel (n - 2 ^ (byte_length * 8)) byte_length in
    if ltb n (2 ^ (byte_length * 8))
    then natural_to_buffer (2 ^ (byte_length * 8) - 1 - n) byte_length
    else again

unfoldable pub bigint_to_buffer : ℤ → ℕ → Bytes
unfolding natural_to_buffer negative_to_buffer
bigint_to_buffer (pos v) byte_length = natural_to_buffer v byte_length
bigint_to_buffer (negsuc n) byte_length = negative_to_buffer n n byte_length

-- `("0" + (byte & 0xff).toString(16)).slice(-2)` for each byte.
unfoldable pub buffer_to_hex_string : Bytes → List ℕ
buffer_to_hex_string [] = []
buffer_to_hex_string (byte ∷ bytes) = (byte % 256 / 16) ∷ (byte % 16) ∷ buffer_to_hex_string bytes

-- `BigInt("0x" + digits)`
unfoldable pub hex_value : ℕ → List ℕ → ℕ
hex_value acc [] = acc
hex_value acc (d ∷ ds) = hex_value (acc * 16 + d) ds

-- For a buffer that is not empty; `BigInt("0x")` throws.
unfoldable pub buffer_to_bigint : Bytes → ℕ
unfolding buffer_to_hex_string hex_value
buffer_to_bigint bytes = hex_value 0 (buffer_to_hex_string bytes)

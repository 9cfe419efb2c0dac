-- ===== src/Harness/Buffers/Bigint.antt =====
-- unit-tests/utils/helpers.ts: bigintToBuffer, then bufferToBigint.
use stacks_pyth_bridge.Prelude.{
  ℕ, ◌+◌, ◌*◌, ◌/◌, ◌%◌, ◌^◌, ◌<◌, ◌≡◌, refl, ap, ◌∙◌, [], ◌∷◌, All, arith,
}
use stacks_pyth_bridge.Prelude.Bytes.{
  Bytes, IsByte, be_bytes, be_from, be_bytes-IsByte, be_value-be_bytes,
}
use stacks_pyth_bridge.Prelude.Int.{pos}
use stacks_pyth_bridge.Harness.Buffers.{
  bigint_to_buffer, buffer_to_bigint, buffer_to_hex_string, hex_value,
}
use stacks_pyth_bridge.Harness.Buffers.BigEndian.{natural_to_buffer-be_bytes}

-- Two digits of a byte are the byte.
hex_value-be_from :
    (acc : ℕ) (bytes : Bytes)
    → All IsByte bytes
    → hex_value acc (buffer_to_hex_string bytes) ≡ be_from acc bytes
unfolding hex_value buffer_to_hex_string be_from
hex_value-be_from acc [] h = refl
hex_value-be_from acc (b ∷ bs) (p, h) =
    let e : (acc * 16 + b % 256 / 16) * 16 + b % 16 ≡ acc * 256 + b = omega arith in
    ap (λ (t : ℕ). hex_value t (buffer_to_hex_string bs)) e ∙ hex_value-be_from (acc * 256 + b) bs h

-- A natural number that fits n bytes, written to a buffer of n bytes by the one helper, is read
-- back by the other.
pub buffer_to_bigint-bigint_to_buffer :
    (n v : ℕ) → v < 256 ^ n → buffer_to_bigint (bigint_to_buffer (pos v) n) ≡ v
unfolding buffer_to_bigint bigint_to_buffer
buffer_to_bigint-bigint_to_buffer n v h =
    ap (λ (t : Bytes). hex_value 0 (buffer_to_hex_string t)) (natural_to_buffer-be_bytes n v h)
    ∙ hex_value-be_from 0 (be_bytes n v) (be_bytes-IsByte n v)
    ∙ be_value-be_bytes n v h

pub buffer_to_bigint-be_from :
    (bytes : Bytes) → All IsByte bytes → buffer_to_bigint bytes ≡ be_from 0 bytes
unfolding buffer_to_bigint
buffer_to_bigint-be_from bytes h = hex_value-be_from 0 bytes h

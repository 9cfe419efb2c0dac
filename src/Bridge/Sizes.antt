-- ===== src/Bridge/Sizes.antt =====
-- How long the VAAs are that unit-tests/wormhole/helpers.ts serializes.
use stacks_pyth_bridge.Prelude.{
  ℕ, ◌+◌, ◌*◌, ◌^◌, ◌<◌, ◌≡◌, ap, ◌∙◌, List, [], ◌∷◌, ◌++◌, length, length-append, map, some, arith,
  All,
}
use stacks_pyth_bridge.Prelude.Bytes.{Bytes, be_bytes, length-be_bytes}
use stacks_pyth_bridge.Clarity.Cursor.{HkCursor, HkCursorLaws}
use stacks_pyth_bridge.Clarity.Types.{Signature}
use stacks_pyth_bridge.Harness.Buffers.{concat}
use stacks_pyth_bridge.Harness.Wormhole.{
  VaaBody, serialize_vaa_body_to_buffer, serialize_vaa_to_buffer,
}
use stacks_pyth_bridge.Bridge.Signatures.{signature_bytes, IsSignature}
use stacks_pyth_bridge.Bridge.SignedVaa.{header_of}
use stacks_pyth_bridge.Bridge.SignedVaa
use stacks_pyth_bridge.Bridge.Vaa
use stacks_pyth_bridge.Wormhole.{Crypto}

-- A field of n bytes before the rest.
length-field : (n v : ℕ) (rest : Bytes) → length (be_bytes n v ++ rest) ≡ n + length rest
length-field n v rest = length-append (be_bytes n v) rest ∙ omega (arith, length-be_bytes n v)

length-concat :
    (xs : List Signature)
    → All IsSignature xs
    → length (concat (map signature_bytes xs)) ≡ 66 * length xs
unfolding concat
length-concat [] a = omega arith
length-concat (x ∷ xs) ((i, l), a) =
    let first = length-field 1 x.guardian_id x.signature in
    length-append (signature_bytes x) (concat (map signature_bytes xs))
    ∙ omega (arith, first, l, length-concat xs a)

module _ (k : HkCursor) (laws : HkCursorLaws k) (crypto : Crypto) where
  length-body :
      (b : VaaBody) (bytes : Bytes)
      → length b.emitter_address ≡ 32
      → b.sequence < 256 ^ 8
      → serialize_vaa_body_to_buffer b ≡ some bytes
      → length bytes ≡ 51 + length b.payload
  length-body b bytes size sequence h =
      let (fits, whole) = Vaa.serialized k laws crypto b bytes sequence h in
      let level = length-field 1 b.consistency_level b.payload in
      let from_level = be_bytes 1 b.consistency_level ++ b.payload in
      let from_sequence = be_bytes 8 b.sequence ++ from_level in
      let from_address = b.emitter_address ++ from_sequence in
      let from_chain = be_bytes 2 b.emitter_chain ++ from_address in
      let from_nonce = be_bytes 4 b.nonce ++ from_chain in
      ap length whole
      ∙ length-field 4 b.timestamp from_nonce
      ∙ omega (
        arith,
        length-field 4 b.nonce from_chain,
        length-field 2 b.emitter_chain from_address,
        length-append b.emitter_address from_sequence,
        length-field 8 b.sequence from_level,
        level,
        size,
      )

  -- A VAA takes 57 bytes, and 66 for each signature, beside its payload.
  pub length-serialize :
      (version set_id : ℕ) (signatures : List Signature) (b : VaaBody) (bytes : Bytes)
      → All IsSignature signatures
      → length b.emitter_address ≡ 32
      → b.sequence < 256 ^ 8
      → serialize_vaa_to_buffer (header_of version set_id signatures) b ≡ some bytes
      → length bytes ≡ 57 + 66 * length signatures + length b.payload
  length-serialize version set_id signatures b bytes a size sequence h =
      let (f1, f2, f3, body, e, whole) = SignedVaa.serialized version set_id signatures b bytes h in
      let signed = concat (map signature_bytes signatures) in
      let from_count = be_bytes 1 (length signatures) ++ (signed ++ body) in
      ap length whole
      ∙ length-field 1 version (be_bytes 4 set_id ++ from_count)
      ∙ omega (
        arith,
        length-field 4 set_id from_count,
        length-field 1 (length signatures) (signed ++ body),
        length-append signed body,
        length-concat signatures a,
        length-body b body size sequence e,
      )

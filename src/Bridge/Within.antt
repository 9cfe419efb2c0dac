-- ===== src/Bridge/Within.antt =====
-- The buffers that the helpers of unit-tests/ build, given to the contracts of contracts/ as their
-- arguments of type (buff 8192).
use stacks_pyth_bridge.Prelude.{
  ℕ, ◌+◌, ◌*◌, ◌^◌, ◌<◌, ◌≤◌, ◌≡◌, sym, ap, ◌∙◌, List, [], length, some, All, map, arith,
}
use stacks_pyth_bridge.Prelude.Bytes.{Bytes}
use stacks_pyth_bridge.Clarity.Outcome.{ok, ◌>>=◌, with_buff, with_buff-fits}
use stacks_pyth_bridge.Clarity.Cursor.{HkCursor, HkCursorLaws}
use stacks_pyth_bridge.Clarity.Types.{Signature, Vaa}
use stacks_pyth_bridge.Harness.Wormhole.{
  Noble, VaaBody, VaaHeader, generate_guardian_set_keychain, build_valid_vaa_header,
  serialize_vaa_body_to_buffer, serialize_vaa_to_buffer,
}
use stacks_pyth_bridge.Harness.Values.{serialize_vaa_to_clarity_value}
use stacks_pyth_bridge.Bridge.Signatures.{IsSignature}
use stacks_pyth_bridge.Bridge.Vaa.{body_of}
use stacks_pyth_bridge.Bridge.SignedVaa.{header_of, parse_vaa-serialize}
use stacks_pyth_bridge.Bridge.Sizes.{length-serialize}
use stacks_pyth_bridge.Bridge.Guardians.{NobleLaws, public_key_of, keys_of}
use stacks_pyth_bridge.Bridge.Accepted.{
  length-generate, length-signatures, parse_vaa-build, parse_and_verify_vaa-build,
}
use stacks_pyth_bridge.Bridge.Expected.{parse_vaa-serialize_to_clarity}
use stacks_pyth_bridge.Wormhole.{
  Crypto, Wormhole, Header, Recovered, vaa_of, parse_vaa, parse_and_verify_vaa, recover_public_keys,
}
use stacks_pyth_bridge.Wormhole.Keys.{IsDistinct}

module _ (k : HkCursor) (laws : HkCursorLaws k) (crypto : Crypto) where
  -- A VAA that the helpers serialize parses to the fields and the signatures it was made from, with
  -- the keys that are recovered from those signatures over the double hash of the serialized body.
  -- Given: at most 19 signatures of 65 bytes whose guardian ids fit a byte, an emitter address of
  -- 32 bytes, a sequence that fits 8 bytes, a payload of at most 6881 bytes (so that the VAA fits
  -- the argument's 8192), and a cursor contract that meets `HkCursorLaws`.
  pub parse_vaa-serialize_within :
      (version set_id : ℕ) (signatures : List Signature) (b : VaaBody) (bytes : Bytes)
      → All IsSignature signatures
      → length signatures ≤ 19
      → length b.emitter_address ≡ 32
      → b.sequence < 256 ^ 8
      → length b.payload ≤ 6881
      → serialize_vaa_to_buffer (header_of version set_id signatures) b ≡ some bytes
      → (header : Header) × (body : Bytes) × (header.version ≡ version)
        × (header.guardian_set_id ≡ set_id)
        × (header.signatures_len ≡ length signatures)
        × (serialize_vaa_body_to_buffer b ≡ some body)
        × (with_buff 8192 (parse_vaa k crypto) bytes ≡ (
            recover_public_keys crypto (crypto.keccak256 (crypto.keccak256 body)) signatures []
            >>= λ keys. ok (record {
              vaa = vaa_of header signatures (body_of b);
              recovered_public_keys = keys;
            })))
  parse_vaa-serialize_within version set_id signatures b bytes a m size sequence short h =
      let (header, body, x, y, z, e, parsed) =
        parse_vaa-serialize k laws crypto version set_id signatures b bytes a m size sequence h in
      let total =
        length-serialize k laws crypto version set_id signatures b bytes a size sequence h in
      (
        header,
        body,
        x,
        y,
        z,
        e,
        with_buff-fits 8192 (parse_vaa k crypto) bytes (omega (arith, total)) parsed,
      )

module _ (k : HkCursor) (laws : HkCursorLaws k) (noble : Noble) (crypto : Crypto)
    (noble_laws : NobleLaws noble crypto) where
  -- A VAA that is signed with a keychain is as long as its signatures and its payload make it.
  pub length-build :
      (secrets : List Bytes) (b : VaaBody) (id : ℕ) (header : VaaHeader) (bytes : Bytes)
      → length secrets ≤ 19
      → length b.emitter_address ≡ 32
      → b.sequence < 256 ^ 8
      → build_valid_vaa_header noble (generate_guardian_set_keychain noble 0 secrets) b 1 id
        ≡ some header
      → serialize_vaa_to_buffer header b ≡ some bytes
      → length bytes ≡ 57 + 66 * length secrets + length b.payload
  length-build secrets b id header bytes few size sequence made sent =
      let gs = generate_guardian_set_keychain noble 0 secrets in
      let (h, signatures, v, i, l, whole, hash, same, good, parsed) =
        parse_vaa-build k laws noble crypto noble_laws secrets b id header bytes few size sequence
          made sent in
      let sent' = ap (λ (t : VaaHeader). serialize_vaa_to_buffer t b) (sym whole) ∙ sent in
      let count : length signatures ≡ length secrets =
        ap (λ (t : List Signature). length t) same
        ∙ length-signatures _ gs
        ∙ length-generate noble 0 secrets in
      length-serialize k laws crypto 1 id signatures b bytes good size sequence sent'
      ∙ omega (arith, count)

  -- A VAA that the helpers build, sign with the whole keychain and serialize is accepted, with the
  -- fields of its body. Given: a keychain of 1 to 19 guardians with distinct keys that is the
  -- active set, an emitter address of 32 bytes, a sequence that fits 8 bytes, a payload of at most
  -- 6881 bytes (so that the VAA fits the argument's 8192), and a signing library and a cursor
  -- contract that meet their laws.
  pub parse_and_verify_vaa-build_within :
      (secrets : List Bytes) (b : VaaBody) (w : Wormhole) (header : VaaHeader) (bytes : Bytes)
      → 1 ≤ length secrets
      → length secrets ≤ 19
      → IsDistinct (keys_of (generate_guardian_set_keychain noble 0 secrets))
      → w.guardian_sets w.active_guardian_set_id
        ≡ some (map public_key_of (generate_guardian_set_keychain noble 0 secrets))
      → length b.emitter_address ≡ 32
      → b.sequence < 256 ^ 8
      → length b.payload ≤ 6881
      → build_valid_vaa_header noble
          (generate_guardian_set_keychain noble 0 secrets)
          b
          1
          w.active_guardian_set_id
        ≡ some header
      → serialize_vaa_to_buffer header b ≡ some bytes
      → (header' : Header) × (signatures : List Signature) × (with_buff 8192
            (λ t. parse_and_verify_vaa k crypto w t)
            bytes
          ≡ ok (vaa_of header' signatures (body_of b)))
  parse_and_verify_vaa-build_within secrets b w header bytes some_keys few distinct stored size
        sequence short made sent =
      let (h, signatures, done) =
        parse_and_verify_vaa-build k laws noble crypto noble_laws secrets b w header bytes some_keys
          few distinct stored size sequence made sent in
      let total =
        length-build secrets b w.active_guardian_set_id header bytes few size sequence made sent in
      (
        h,
        signatures,
        with_buff-fits 8192 (λ t. parse_and_verify_vaa k crypto w t) bytes (omega (arith, total))
            done,
      )

  -- For a VAA that the helpers build and sign with the whole keychain, the contract answers exactly
  -- the tuple and the keys that the helpers expect of it. Given: at most 19 guardians, an emitter
  -- address of 32 bytes, a sequence that fits 8 bytes, a payload of at most 6881 bytes (so that the
  -- VAA fits the argument's 8192), a VAA that is serialized, and a signing library and a cursor
  -- contract that meet their laws.
  pub parse_vaa-serialize_to_clarity_within :
      (secrets : List Bytes) (b : VaaBody) (id : ℕ) (header : VaaHeader) (bytes : Bytes)
      → length secrets ≤ 19
      → length b.emitter_address ≡ 32
      → b.sequence < 256 ^ 8
      → length b.payload ≤ 6881
      → build_valid_vaa_header noble (generate_guardian_set_keychain noble 0 secrets) b 1 id
        ≡ some header
      → serialize_vaa_to_buffer header b ≡ some bytes
      → (decoded : Vaa) × (keys : List Recovered) × (serialize_vaa_to_clarity_value header b
            (generate_guardian_set_keychain noble 0 secrets)
          ≡ some (decoded, keys))
        × (with_buff 8192 (parse_vaa k crypto) bytes
            ≡ ok (record { vaa = decoded; recovered_public_keys = keys }))
  parse_vaa-serialize_to_clarity_within secrets b id header bytes few size sequence short made
        sent =
      let (decoded, keys, expected, parsed) =
        parse_vaa-serialize_to_clarity k laws noble crypto noble_laws secrets b id header bytes few
          size sequence made sent in
      let total = length-build secrets b id header bytes few size sequence made sent in
      (
        decoded,
        keys,
        expected,
        with_buff-fits 8192 (parse_vaa k crypto) bytes (omega (arith, total)) parsed,
      )

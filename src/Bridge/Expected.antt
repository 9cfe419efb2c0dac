-- ===== src/Bridge/Expected.antt =====
-- The values that the unit tests expect (unit-tests/wormhole/helpers.ts, serializeVaaToClarityValue), and
-- those that contracts/wormhole/wormhole-core-v2.clar gives.
use stacks_pyth_bridge.Prelude.{
  ℕ, ◌/◌, ◌%◌, ◌^◌, ◌<◌, ◌≤◌, ◌≡◌, refl, sym, ap, ◌∙◌, subst, List, [], ◌∷◌, length, some, arith,
  map, take, take-append, append-nil, All,
}
use stacks_pyth_bridge.Prelude.Bytes.{Bytes, be_bytes}
use stacks_pyth_bridge.Clarity.Outcome.{ok}
use stacks_pyth_bridge.Clarity.Cursor.{HkCursor, HkCursorLaws}
use stacks_pyth_bridge.Clarity.Types.{Signature, Vaa}
use stacks_pyth_bridge.Harness.Values.{
  signature_tuple, signature_tuples, recovered_tuples, serialize_vaa_to_clarity_value,
}
use stacks_pyth_bridge.Harness.Wormhole.{
  Noble, Guardian, VaaBody, VaaHeader, generate_guardian_set_keychain, build_valid_vaa_header,
  serialize_vaa_to_buffer,
}
use stacks_pyth_bridge.Bridge.Accepted.{parse_vaa-build}
use stacks_pyth_bridge.Bridge.Guardians.{NobleLaws, recovered_of, signature_of}
use stacks_pyth_bridge.Bridge.SignedVaa.{header_of, length-map}
use stacks_pyth_bridge.Bridge.Signatures.{signature_bytes, IsSignature}
use stacks_pyth_bridge.Bridge.Vaa.{body_of}
use stacks_pyth_bridge.Wormhole.{Crypto, Header, Recovered, vaa_of, parse_vaa}

take_all : (n : ℕ) (b : Bytes) → length b ≡ n → take n b ≡ b
take_all n b h =
    rw (← h) (ap (λ (t : Bytes). take (length b) t) (sym (append-nil b)) ∙ take-append b [])

signature_tuple-bytes :
    (s : Signature) → IsSignature s → signature_tuple (signature_bytes s) ≡ some s
unfolding signature_tuple be_bytes
signature_tuple-bytes s (small, l) =
    let low : s.guardian_id / 256 ^ 0 % 256 ≡ s.guardian_id = omega arith in
    rw (low, take_all 65 s.signature l) refl

signature_tuples-bytes :
    (xs : List Signature) → All IsSignature xs → signature_tuples (map signature_bytes xs) ≡ some xs
unfolding signature_tuples
signature_tuples-bytes [] a = refl
signature_tuples-bytes (s ∷ xs) (p, a) =
    rw (signature_tuple-bytes s p, signature_tuples-bytes xs a) refl

module _ (noble : Noble) (crypto : Crypto) (noble_laws : NobleLaws noble crypto) where
  recovered_tuples-keychain :
      (hash : Bytes) (gs : List Guardian)
      → All IsSignature (map (signature_of noble crypto noble_laws hash) gs)
      → recovered_tuples
          (map signature_bytes (map (signature_of noble crypto noble_laws hash) gs))
          gs
        ≡ some (map recovered_of gs)
  unfolding recovered_tuples
  recovered_tuples-keychain hash [] a = refl
  recovered_tuples-keychain hash (g ∷ gs) (p, a) =
      rw
        (
          signature_tuple-bytes (signature_of noble crypto noble_laws hash g) p,
          recovered_tuples-keychain hash gs a,
        )
        refl

expected_value :
    (id : ℕ) (signatures : List Signature) (b : VaaBody) (gs : List Guardian) (h : Header)
    (header : VaaHeader) (keys : List Recovered)
    → h.version ≡ 1
    → h.guardian_set_id ≡ id
    → h.signatures_len ≡ length signatures
    → header ≡ header_of 1 id signatures
    → All IsSignature signatures
    → recovered_tuples (map signature_bytes signatures) gs ≡ some keys
    → serialize_vaa_to_clarity_value header b gs ≡ some (vaa_of h signatures (body_of b), keys)
unfolding serialize_vaa_to_clarity_value
expected_value id signatures b gs h header keys v i l whole good found =
    rw (whole, found, signature_tuples-bytes signatures good, v, i, l, length-map signatures) refl

module _ (k : HkCursor) (laws : HkCursorLaws k) (noble : Noble) (crypto : Crypto)
    (noble_laws : NobleLaws noble crypto) where
  -- The function parse_vaa, on bytes of any length, gives what the helpers expect for a VAA that is
  -- signed with the whole keychain.
  pub parse_vaa-serialize_to_clarity :
      (secrets : List Bytes) (b : VaaBody) (id : ℕ) (header : VaaHeader) (bytes : Bytes)
      → length secrets ≤ 19
      → length b.emitter_address ≡ 32
      → b.sequence < 256 ^ 8
      → build_valid_vaa_header noble (generate_guardian_set_keychain noble 0 secrets) b 1 id
        ≡ some header
      → serialize_vaa_to_buffer header b ≡ some bytes
      → (decoded : Vaa) × (keys : List Recovered) × (serialize_vaa_to_clarity_value header b
            (generate_guardian_set_keychain noble 0 secrets)
          ≡ some (decoded, keys))
        × (parse_vaa k crypto bytes ≡ ok (record { vaa = decoded; recovered_public_keys = keys }))
  parse_vaa-serialize_to_clarity secrets b id header bytes few size sequence made sent =
      let gs = generate_guardian_set_keychain noble 0 secrets in
      let (h, signatures, v, i, l, whole, hash, same, good, parsed) =
        parse_vaa-build k laws noble crypto noble_laws secrets b id header bytes few size sequence
          made sent in
      let found =
        recovered_tuples-keychain noble crypto noble_laws hash gs
          (subst (All IsSignature) same good) in
      (
        vaa_of h signatures (body_of b),
        map recovered_of gs,
        expected_value id signatures b gs h header (map recovered_of gs) v i l whole good
            (rw same found),
        parsed,
      )

-- ===== src/Bridge/Applied.antt =====
-- The updates that unit-tests/pyth/helpers.ts applies, on contracts/pyth-governance-v1.clar and
-- contracts/wormhole/wormhole-core-v2.clar.
use stacks_pyth_bridge.Prelude.{
  ℕ, ◌+◌, ◌*◌, ◌%◌, ◌^◌, ◌<◌, ◌≤◌, ◌≡◌, refl, ap, ◌∙◌, List, length, some, arith, map, ◌==◌,
  if◌then◌else◌,
}
use stacks_pyth_bridge.Prelude.Bytes.{Bytes}
use stacks_pyth_bridge.Clarity.Outcome.{ok}
use stacks_pyth_bridge.Clarity.Cursor.{HkCursor, HkCursorLaws}
use stacks_pyth_bridge.Clarity.Types.{Vaa}
use stacks_pyth_bridge.Governance.Ptgm.{Host}
use stacks_pyth_bridge.Harness.Buffers.{write_uint_be}
use stacks_pyth_bridge.Harness.Wormhole.{
  Noble, Guardian, Emitter, VaaBody, VaaHeader, generate_guardian_set_keychain, guardian_signatures,
  build_valid_vaa_header, build_valid_vaa_body_specs, serialize_vaa_body_to_buffer,
  serialize_vaa_header_to_buffer, serialize_vaa_to_buffer,
}
use stacks_pyth_bridge.Harness.Ptgm.{StacksTransactions}
use stacks_pyth_bridge.Harness.Apply.{specs_of, signed_vaa}
use stacks_pyth_bridge.Bridge.Fields.{write_uint_be_fits, IsMade, then-IsMade}
use stacks_pyth_bridge.Bridge.Ptgm.{IsEmitter}
use stacks_pyth_bridge.Bridge.Guardians.{
  NobleLaws, public_key_of, keys_of, generate-IsKeychain, signatures_made,
}
use stacks_pyth_bridge.Bridge.Within.{length-build}
use stacks_pyth_bridge.Bridge.Accepted.{length-generate, parse_and_verify_vaa-build}
use stacks_pyth_bridge.Bridge.Vaa.{body_of}
use stacks_pyth_bridge.Wormhole.{Crypto, Wormhole, vaa_of, parse_and_verify_vaa}
use stacks_pyth_bridge.Wormhole.Keys.{IsDistinct}

-- Numbers that fit their fields are written.
pub body-IsMade :
    (b : VaaBody)
    → b.timestamp < 256 ^ 4
    → b.nonce < 256 ^ 4
    → b.emitter_chain < 256 ^ 2
    → b.consistency_level < 256 ^ 1
    → IsMade (serialize_vaa_body_to_buffer b)
unfolding serialize_vaa_body_to_buffer
body-IsMade b t n e c =
    then-IsMade (write_uint_be 4 b.timestamp) _ _ (write_uint_be_fits 4 b.timestamp t) (
      then-IsMade (write_uint_be 4 b.nonce) _ _ (write_uint_be_fits 4 b.nonce n) (
        then-IsMade (write_uint_be 2 b.emitter_chain) _ _ (write_uint_be_fits 2 b.emitter_chain e) (
          then-IsMade (write_uint_be 1 b.consistency_level) _ _
            (write_uint_be_fits 1 b.consistency_level c) (_, refl))))

pub header-IsMade :
    (h : VaaHeader)
    → h.version < 256 ^ 1
    → h.guardian_set_id < 256 ^ 4
    → length h.signatures < 256 ^ 1
    → IsMade (serialize_vaa_header_to_buffer h)
unfolding serialize_vaa_header_to_buffer
header-IsMade h v i l =
    then-IsMade (write_uint_be 1 h.version) _ _ (write_uint_be_fits 1 h.version v) (
      then-IsMade (write_uint_be 4 h.guardian_set_id) _ _ (write_uint_be_fits 4 h.guardian_set_id i)
        (then-IsMade (write_uint_be 1 (length h.signatures)) _ _
          (write_uint_be_fits 1 (length h.signatures) l) (_, refl)))

-- The guardians of these secret keys are the active set, with the number 1.
pub record IsActiveSet (noble : Noble) (w : Wormhole) (secrets : List Bytes) : Type 0 where
  pub some_keys : 1 ≤ length secrets
  pub few : length secrets ≤ 19
  pub distinct : IsDistinct (keys_of (generate_guardian_set_keychain noble 0 secrets))
  pub active : w.active_guardian_set_id ≡ 1
  pub stored :
      w.guardian_sets w.active_guardian_set_id
      ≡ some (map public_key_of (generate_guardian_set_keychain noble 0 secrets))

sequence_kept : (s : ℕ) → 0 < s → (if s == 0 then 1 else s) ≡ s
sequence_kept s h = ground arith

-- The body that is built.
abbrev pub body_for : ℕ → Bytes → Emitter → ℕ → VaaBody
body_for date payload emitter sequence = record {
  timestamp = date % 2 ^ 32;
  nonce = 0;
  emitter_chain = emitter.chain;
  emitter_address = emitter.address;
  sequence = sequence;
  consistency_level = 0;
  payload = payload;
}

specs_body :
    (date : ℕ) (payload : Bytes) (emitter : Emitter) (sequence : ℕ)
    → 0 < sequence
    → build_valid_vaa_body_specs date (specs_of payload emitter sequence)
      ≡ body_for date payload emitter sequence
unfolding build_valid_vaa_body_specs
specs_body date payload emitter sequence h =
    ap (λ (t : ℕ). body_for date payload emitter t) (sequence_kept sequence h)

pub header_built :
    (noble : Noble) (gs : List Guardian) (b : VaaBody) (version set_id : ℕ) (body : Bytes)
    (sigs : List Bytes)
    → serialize_vaa_body_to_buffer b ≡ some body
    → guardian_signatures noble (noble.keccak_256 (noble.keccak_256 body)) gs ≡ some sigs
    → build_valid_vaa_header noble gs b version set_id
      ≡ some (record { version = version; guardian_set_id = set_id; signatures = sigs })
unfolding build_valid_vaa_header
header_built noble gs b version set_id body sigs e f = rw (e, f)

pub vaa-IsMade :
    (h : VaaHeader) (b : VaaBody)
    → IsMade (serialize_vaa_header_to_buffer h)
    → IsMade (serialize_vaa_body_to_buffer b)
    → IsMade (serialize_vaa_to_buffer h b)
unfolding serialize_vaa_to_buffer
vaa-IsMade h b (x, e) (y, f) =
    then-IsMade (serialize_vaa_header_to_buffer h) _ x e
      (then-IsMade (serialize_vaa_body_to_buffer b) _ y f (_, refl))

module _ (k : HkCursor) (laws : HkCursorLaws k) (host : Host) (noble : Noble) (crypto : Crypto)
    (noble_laws : NobleLaws noble crypto) (stacks : StacksTransactions) (date : ℕ) where
  -- The VAA is made, and it is accepted with the message it was made for.
  pub signed_vaa-accepted :
      (secrets : List Bytes) (w : Wormhole) (payload : Bytes) (emitter : Emitter) (sequence : ℕ)
      → IsActiveSet noble w secrets
      → IsEmitter emitter
      → 0 < sequence
      → sequence < 256 ^ 8
      → (bytes : Bytes) × (signed_vaa k host noble stacks date
            (generate_guardian_set_keychain noble 0 secrets)
            payload
            emitter
            sequence
          ≡ some bytes)
        × (vaa : Vaa) × (parse_and_verify_vaa k crypto w bytes ≡ ok vaa)
        × (vaa.payload ≡ payload)
        × (vaa.sequence ≡ sequence)
        × (vaa.emitter_chain ≡ emitter.chain)
        × (vaa.emitter_address ≡ emitter.address)
        × (length bytes ≡ 57 + 66 * length secrets + length payload)
  unfolding signed_vaa
  signed_vaa-accepted secrets w payload emitter sequence a (m, l) positive small =
      let gs = generate_guardian_set_keychain noble 0 secrets in
      let b = body_for date payload emitter sequence in
      let chain = generate-IsKeychain noble crypto noble_laws 0 secrets in
      let count = length-generate noble 0 secrets in
      let few = a.few in
      let (body, e) = body-IsMade b (omega arith) (omega arith) m (omega arith) in
      let hash = noble.keccak_256 (noble.keccak_256 body) in
      let (sigs, f, n) = signatures_made noble crypto noble_laws hash 0 gs chain (omega arith) in
      let header : VaaHeader = record { version = 1; guardian_set_id = 1; signatures = sigs } in
      let (bytes, g) =
        vaa-IsMade header b (header-IsMade header (omega arith) (omega arith) (omega arith))
          (body, e) in
      let built = header_built noble gs b 1 1 body sigs e f in
      let built' : build_valid_vaa_header noble gs b 1 w.active_guardian_set_id ≡ some header =
        ap (λ (i : ℕ). build_valid_vaa_header noble gs b 1 i) a.active ∙ built in
      let (h, signatures, verified) =
        parse_and_verify_vaa-build k laws noble crypto noble_laws secrets b w header bytes
          a.some_keys a.few a.distinct a.stored l small built' g in
      (
        bytes,
        rw (specs_body date payload emitter sequence positive, built) g,
        vaa_of h signatures (body_of b),
        verified,
        refl,
        refl,
        refl,
        refl,
        length-build k laws noble crypto noble_laws secrets b 1 header bytes a.few l small built g,
      )

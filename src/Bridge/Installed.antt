-- ===== src/Bridge/Installed.antt =====
-- A guardian set update from end to end: unit-tests/wormhole/helpers.ts builds, signs and applies it
-- (applyGuardianSetUpdate), and contracts/wormhole/wormhole-core-v2.clar installs the set.
use stacks_pyth_bridge.Prelude.{
  ℕ, suc, ◌-◌, ◌%◌, ◌^◌, ◌<◌, ◌≤◌, ◌≡◌, refl, ap, ◌∙◌, ◌⊎◌, inl, inr, List, [], ◌∷◌, length, map,
  some, none, arith, All, take, drop, length-drop, true, false,
}
use stacks_pyth_bridge.Prelude.Bytes.{Bytes, be_bytes, length-be_bytes}
use stacks_pyth_bridge.Clarity.Outcome.{ok}
use stacks_pyth_bridge.Clarity.Cursor.{HkCursor, HkCursorLaws}
use stacks_pyth_bridge.Clarity.Types.{Vaa}
use stacks_pyth_bridge.Harness.Wormhole.{
  Noble, Guardian, VaaBody, VaaHeader, generate_guardian_set_keychain, build_valid_vaa_body_specs,
  build_valid_vaa_header, serialize_vaa_to_buffer, governance_update_emitter,
}
use stacks_pyth_bridge.Harness.Apply.{apply_guardian_set_update}
use stacks_pyth_bridge.Harness.Merkle.Root.{take_within}
use stacks_pyth_bridge.Bridge.Guardians.{
  NobleLaws, public_key_of, keys_of, generate-IsKeychain, signatures_made,
}
use stacks_pyth_bridge.Bridge.Taken.{installed_by, first_taken, next_taken}
use stacks_pyth_bridge.Bridge.Accepted.{
  length-generate, parse_vaa-build, parse_and_verify_vaa-build,
}
use stacks_pyth_bridge.Bridge.Applied.{body-IsMade, header-IsMade, vaa-IsMade, header_built}
use stacks_pyth_bridge.Bridge.Proofs.{IsHash20}
use stacks_pyth_bridge.Bridge.Rotation.{addresses_of, parse_and_verify_guardians_set-serialize}
use stacks_pyth_bridge.Bridge.Rotated.{KeyLaws, keys_sent, consolidate-keychain, generate-IsWhole}
use stacks_pyth_bridge.Bridge.Vaa.{body_of}
use stacks_pyth_bridge.Wormhole.{Crypto, Wormhole, vaa_of}
use stacks_pyth_bridge.Wormhole.Guardians.{
  set_guardians, parse_and_verify_guardians_set, guardian_set_vaa_of,
}
use stacks_pyth_bridge.Wormhole.Keys.{IsDistinct}

-- There is no set yet, or the set before this one is that keychain, with distinct keys.
abbrev pub IsReady : Noble → List Bytes → Wormhole → ℕ → Type 0
IsReady noble secrets w set_id =
    (w.guardian_set_initialized ≡ false)
    ⊎ ((w.guardian_set_initialized ≡ true)
        × (w.active_guardian_set_id ≡ set_id - 1)
        × IsDistinct (keys_of (generate_guardian_set_keychain noble 0 secrets))
        × (w.guardian_sets w.active_guardian_set_id
            ≡ some (map public_key_of (generate_guardian_set_keychain noble 0 secrets))))

abbrev pub installed : Wormhole → ℕ → List Guardian → Wormhole
installed w set_id gs = record {
  guardian_set_initialized = true;
  active_guardian_set_id = set_id;
  guardian_sets = set_guardians w.guardian_sets set_id (map public_key_of gs);
}

generate-IsHash20 :
    (noble : Noble) (key_laws : KeyLaws noble) (n : ℕ) (secrets : List Bytes)
    → All IsHash20 (addresses_of (generate_guardian_set_keychain noble n secrets))
unfolding generate_guardian_set_keychain
generate-IsHash20 noble key_laws n [] = tt
generate-IsHash20 noble key_laws n (s ∷ secrets) =
    let hash = noble.keccak_256 (take 64 (drop 1 (noble.uncompressed_key s))) in
    (
      take_within 20 (drop 12 hash) (
          omega (
            arith,
            length-drop 12 hash,
            key_laws.length-keccak_256 (take 64 (drop 1 (noble.uncompressed_key s))),
          )),
      generate-IsHash20 noble key_laws (suc n) secrets,
    )

length-keys_sent : (gs : List Guardian) → length (keys_sent gs) ≡ length (addresses_of gs)
length-keys_sent [] = refl
length-keys_sent (g ∷ gs) = ap suc (length-keys_sent gs)

-- The body that is built.
abbrev body_for : ℕ → Bytes → VaaBody
body_for date payload = record {
  timestamp = date % 2 ^ 32;
  nonce = 0;
  emitter_chain = 1;
  emitter_address = be_bytes 32 4;
  sequence = 1;
  consistency_level = 0;
  payload = payload;
}

specs_body :
    (date : ℕ) (payload : Bytes)
    → build_valid_vaa_body_specs date (record {
      payload = some payload;
      emitter = some governance_update_emitter;
      sequence = none;
    })
      ≡ body_for date payload
unfolding build_valid_vaa_body_specs
specs_body date payload = refl

module _ (k : HkCursor) (laws : HkCursorLaws k) (noble : Noble) (crypto : Crypto)
    (noble_laws : NobleLaws noble crypto) (key_laws : KeyLaws noble) (date : ℕ) where
  -- The VAA is taken, be it the first one or checked against the set before.
  taken_vaa :
      (secrets : List Bytes) (w : Wormhole) (set_id : ℕ) (b : VaaBody) (header : VaaHeader)
      (bytes : Bytes)
      → 1 ≤ length secrets
      → length secrets ≤ 19
      → length b.emitter_address ≡ 32
      → b.sequence < 256 ^ 8
      → build_valid_vaa_header noble
          (generate_guardian_set_keychain noble 0 secrets)
          b
          1
          (set_id - 1)
        ≡ some header
      → serialize_vaa_to_buffer header b ≡ some bytes
      → IsReady noble secrets w set_id
      → (vaa : Vaa) × (guardian_set_vaa_of k crypto w bytes ≡ ok vaa)
        × (vaa.payload ≡ b.payload)
        × (vaa.emitter_address ≡ b.emitter_address)
        × (vaa.emitter_chain ≡ b.emitter_chain)
  taken_vaa secrets w set_id b header bytes some_keys few address small built sent (inl first) =
      let (h, signatures, v, i, _, _, _, _, _, parsed) =
        parse_vaa-build k laws noble crypto noble_laws secrets b (set_id - 1) header bytes few
          address small built sent in
      (
        vaa_of h signatures (body_of b),
        first_taken k crypto w bytes _ first parsed,
        refl,
        refl,
        refl,
      )
  taken_vaa secrets w set_id b header bytes some_keys few address small built sent
        (inr (started, id, distinct, stored)) =
      let built' =
        ap
          (λ (t : ℕ).
            build_valid_vaa_header noble (generate_guardian_set_keychain noble 0 secrets) b 1 t)
          id
        ∙ built in
      let (h, signatures, verified) =
        parse_and_verify_vaa-build k laws noble crypto noble_laws secrets b w header bytes some_keys
          few distinct stored address small built' sent in
      (
        vaa_of h signatures (body_of b),
        next_taken k crypto w bytes _ started verified,
        refl,
        refl,
        refl,
      )

  -- The network installs the keychain that the helpers build, sign and apply an update for: the
  -- update answers `ok`, the contract is initialized, the new number is the active one and has the
  -- keys of the whole keychain, and no other set changes; nothing on the way fails. Given: 1 to 19
  -- guardians, a new number above the active one that fits 4 bytes, a contract that has no set yet
  -- or whose active set, one below, is that keychain with distinct keys, and a signing library, its
  -- key forms and a cursor contract that meet their laws.
  pub apply_guardian_set_update-sent :
      (secrets : List Bytes) (w : Wormhole) (set_id : ℕ)
      → 1 ≤ length secrets
      → length secrets ≤ 19
      → w.active_guardian_set_id < set_id
      → set_id < 256 ^ 4
      → IsReady noble secrets w set_id
      → (vaa : Vaa) × (header : VaaHeader) × (body : VaaBody) × (apply_guardian_set_update k crypto
            noble date w
            (generate_guardian_set_keychain noble 0 secrets)
            set_id
          ≡ some (
            ok (vaa, installed w set_id (generate_guardian_set_keychain noble 0 secrets)),
            (header, body),
          ))
  unfolding apply_guardian_set_update
  apply_guardian_set_update-sent secrets w set_id some_keys few newer fits ready =
      let gs = generate_guardian_set_keychain noble 0 secrets in
      let count = length-generate noble 0 secrets in
      let (payload, e0, parsed) =
        parse_and_verify_guardians_set-serialize k laws w gs set_id
          (generate-IsHash20 noble key_laws 0 secrets) (omega arith) newer fits in
      let b = body_for date payload in
      let (body, e1) = body-IsMade b (omega arith) (omega arith) (omega arith) (omega arith) in
      let hash = noble.keccak_256 (noble.keccak_256 body) in
      let (sigs, e2, n) =
        signatures_made noble crypto noble_laws hash 0 gs
          (generate-IsKeychain noble crypto noble_laws 0 secrets) (omega arith) in
      let header : VaaHeader = record {
        version = 1;
        guardian_set_id = set_id - 1;
        signatures = sigs;
      } in
      let (bytes, e3) =
        vaa-IsMade header b (header-IsMade header (omega arith) (omega arith) (omega arith))
          (body, e1) in
      let built = header_built noble gs b 1 (set_id - 1) body sigs e1 e2 in
      let address : length b.emitter_address ≡ 32 = length-be_bytes 32 4 in
      let entries =
        consolidate-keychain crypto [] gs
          (generate-IsWhole noble crypto noble_laws.keccak256_lem key_laws 0 secrets)
          (omega arith) in
      let (vaa, taken, carries, from, chain) =
        taken_vaa secrets w set_id b header bytes some_keys few address (omega arith) built e3
          ready in
      let parsed' = ap (λ (t : Bytes). parse_and_verify_guardians_set k w t) carries ∙ parsed in
      let done =
        installed_by k crypto w bytes (keys_sent gs) vaa _ _ taken parsed' entries
          (length-keys_sent gs) from chain in
      (vaa, header, b, rw (e0, specs_body date payload, built, e3, done))

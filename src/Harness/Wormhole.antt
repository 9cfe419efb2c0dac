-- ===== src/Harness/Wormhole.antt =====
-- unit-tests/wormhole/helpers.ts: VAAs and guardian set updates as buffers.
use stacks_pyth_bridge.Prelude.{
  ℕ, suc, ◌%◌, ◌^◌, Option, none, some, List, [], ◌∷◌, length, map, take, drop,
}
use stacks_pyth_bridge.Prelude.{◌==◌, if◌then◌else◌}
use stacks_pyth_bridge.Prelude.Bytes.{Bytes, be_bytes}
use stacks_pyth_bridge.Prelude.Int.{pos}
use stacks_pyth_bridge.Harness.Buffers.{◌>>=◌, write_uint_be, concat, bigint_to_buffer}

pub record Guardian : Type 0 where
  pub guardian_id : ℕ
  pub secret_key : Bytes
  pub compressed_public_key : Bytes
  pub uncompressed_public_key : Bytes
  pub ethereum_address : Bytes

pub record Emitter : Type 0 where
  pub chain : ℕ
  pub address : Bytes

pub record VaaHeader : Type 0 where
  pub version : ℕ
  pub guardian_set_id : ℕ
  pub signatures : List Bytes

-- The sequence is a bigint that is not negative.
pub record VaaBody : Type 0 where
  pub timestamp : ℕ
  pub emitter_chain : ℕ
  pub nonce : ℕ
  pub emitter_address : Bytes
  pub sequence : ℕ
  pub consistency_level : ℕ
  pub payload : Bytes

pub record VaaBodyOptions : Type 0 where
  pub payload : Option Bytes
  pub emitter : Option Emitter
  pub sequence : Option ℕ

-- @noble/hashes and @noble/secp256k1: the hash, the public key of a secret key (65 bytes, or 33
-- compressed) and a signature with its recovery bit.
pub record Noble : Type 0 where
  pub keccak_256 : Bytes → Bytes
  pub uncompressed_key : Bytes → Bytes
  pub compressed_key : Bytes → Bytes
  pub sign : Bytes → Bytes → Bytes
  pub recovery : Bytes → Bytes → ℕ

abbrev pub governance_update_emitter : Emitter
governance_update_emitter = record { chain = 1; address = be_bytes 32 4 }

abbrev pub initial_governance_data_source : Emitter
initial_governance_data_source = record {
  chain = 1;
  address = be_bytes 32 0x5635979a221c34931e32620b9293a463065555ea71fe97cd6237ade875b12e9e;
}

abbrev pub valid_guardian_rotation_module : Bytes
valid_guardian_rotation_module = be_bytes 32 0x436f7265

unfoldable pub serialize_vaa_body_to_buffer : VaaBody → Option Bytes
unfolding concat
serialize_vaa_body_to_buffer vaa_body = do
  timestamp ← write_uint_be 4 vaa_body.timestamp
  nonce ← write_uint_be 4 vaa_body.nonce
  emitter_chain ← write_uint_be 2 vaa_body.emitter_chain
  consistency_level ← write_uint_be 1 vaa_body.consistency_level
  some (
      concat (
        timestamp
        ∷ nonce
        ∷ emitter_chain
        ∷ vaa_body.emitter_address
        ∷ bigint_to_buffer (pos vaa_body.sequence) 8
        ∷ consistency_level
        ∷ vaa_body.payload
        ∷ []))

unfoldable pub serialize_vaa_header_to_buffer : VaaHeader → Option Bytes
unfolding concat
serialize_vaa_header_to_buffer vaa_header = do
  version ← write_uint_be 1 vaa_header.version
  guardian_set_id ← write_uint_be 4 vaa_header.guardian_set_id
  len ← write_uint_be 1 (length vaa_header.signatures)
  some (concat (version ∷ guardian_set_id ∷ len ∷ concat vaa_header.signatures ∷ []))

unfoldable pub serialize_vaa_to_buffer : VaaHeader → VaaBody → Option Bytes
unfolding serialize_vaa_header_to_buffer serialize_vaa_body_to_buffer concat
serialize_vaa_to_buffer vaa_header vaa_body = do
  header ← serialize_vaa_header_to_buffer vaa_header
  body ← serialize_vaa_body_to_buffer vaa_body
  some (concat (header ∷ body ∷ []))

unfoldable pub serialize_guardian_update_vaa_payload_to_buffer :
    List Guardian → ℕ → ℕ → ℕ → Bytes → Option Bytes
unfolding concat
serialize_guardian_update_vaa_payload_to_buffer key_chain action chain set_id module_id = do
  action_byte ← write_uint_be 1 action
  chain_bytes ← write_uint_be 2 chain
  set_id_bytes ← write_uint_be 4 set_id
  len ← write_uint_be 1 (length key_chain)
  some (
      concat (
        module_id
        ∷ action_byte
        ∷ chain_bytes
        ∷ set_id_bytes
        ∷ len
        ∷ map (λ (guardian : Guardian). guardian.ethereum_address) key_chain))

-- `date` is the present time in seconds, of which `>>> 0` keeps 32 bits; a sequence of 0 counts as none.
unfoldable pub build_valid_vaa_body_specs : ℕ → VaaBodyOptions → VaaBody
build_valid_vaa_body_specs date opts =
    let emitter : Emitter = elim opts.emitter [
      | none ↦ initial_governance_data_source
      | some e ↦ e
    ] in
    record {
      timestamp = date % 2 ^ 32;
      nonce = 0;
      emitter_chain = emitter.chain;
      emitter_address = emitter.address;
      sequence = elim opts.sequence [ none ↦ 1 | some s ↦ if s == 0 then 1 else s ];
      consistency_level = 0;
      payload = elim opts.payload [ none ↦ be_bytes 32 0 | some p ↦ p ];
    }

module _ (noble : Noble) where
  -- The guardians for these random secret keys, numbered from `first` on.
  unfoldable pub generate_guardian_set_keychain : ℕ → List Bytes → List Guardian
  generate_guardian_set_keychain first [] = []
  generate_guardian_set_keychain first (secret_key ∷ keys) =
      let uncompressed = take 64 (drop 1 (noble.uncompressed_key secret_key)) in
      record {
        guardian_id = first;
        secret_key = secret_key;
        compressed_public_key = noble.compressed_key secret_key;
        uncompressed_public_key = uncompressed;
        ethereum_address = take 20 (drop 12 (noble.keccak_256 uncompressed));
      }
      ∷ generate_guardian_set_keychain (suc first) keys

  -- One guardian's signature: its id, the compact signature, the recovery bit.
  unfoldable pub guardian_signature : Bytes → Guardian → Option Bytes
  unfolding concat
  guardian_signature message_hash guardian = do
    id ← write_uint_be 1 guardian.guardian_id
    rec ← write_uint_be 1 (noble.recovery message_hash guardian.secret_key)
    some (concat (id ∷ noble.sign message_hash guardian.secret_key ∷ rec ∷ []))

  unfoldable pub guardian_signatures : Bytes → List Guardian → Option (List Bytes)
  unfolding guardian_signature
  guardian_signatures message_hash [] = some []
  guardian_signatures message_hash (guardian ∷ keychain) = do
    signature ← guardian_signature message_hash guardian
    signatures ← guardian_signatures message_hash keychain
    some (signature ∷ signatures)

  unfoldable pub build_valid_vaa_header : List Guardian → VaaBody → ℕ → ℕ → Option VaaHeader
  unfolding guardian_signatures
  build_valid_vaa_header keychain body version guardian_set_id = do
    bytes ← serialize_vaa_body_to_buffer body
    signatures ← guardian_signatures (noble.keccak_256 (noble.keccak_256 bytes)) keychain
    some (record { version = version; guardian_set_id = guardian_set_id; signatures = signatures })

-- ===== src/Runs/Wormhole.antt =====
-- Runs of contracts/wormhole/wormhole-core-v2.clar: a VAA with one guardian's signature, and the first
-- set of guardians.
use stacks_pyth_bridge.Prelude.{
  ℕ, ◌≡◌, ◌≢◌, refl, some, none, false, true, List, [], ◌∷◌, ◌++◌, arith,
}
use stacks_pyth_bridge.Prelude.Bytes.{Bytes, bytes_eq, be_bytes, be_from}
use stacks_pyth_bridge.Clarity.Outcome.{ok, append_max, with_buff}
use stacks_pyth_bridge.Clarity.Cursor.{flat}
use stacks_pyth_bridge.Clarity.Types.{Vaa, Signature}
use stacks_pyth_bridge.Wormhole.{
  Crypto, Wormhole, Message, parse_vaa, parse_and_verify_vaa, parse_header, parse_body,
  read_signatures, batch_read_signatures, recover_public_keys, recover_public_key,
  check_active_public_keys, check_active_public_key, is_member, get_quorum,
}
use stacks_pyth_bridge.Wormhole.Guardians.{
  GuardiansSet, consolidated_entry, consolidate_public_keys, parse_and_verify_guardians_set,
  guardian_set_vaa_of, update_guardians_set, guardian_cues, parse_guardians, compress_public_key,
  is_eth_address_matching_public_key, set_guardians,
}
use stacks_pyth_bridge.Harness.Buffers.{write_uint_be, concat, bigint_to_buffer}
use stacks_pyth_bridge.Harness.Wormhole.{
  VaaBody, serialize_vaa_to_buffer, serialize_vaa_header_to_buffer, serialize_vaa_body_to_buffer,
}
use stacks_pyth_bridge.Bridge.Vaa.{body_of}
use stacks_pyth_bridge.Bridge.Signatures.{IsSignature}
use stacks_pyth_bridge.Bridge.SignedVaa.{header_of}
use stacks_pyth_bridge.Bridge.Within.{parse_vaa-serialize_within}
use stacks_pyth_bridge.Prelude.{length, All}
use stacks_pyth_bridge.Clarity.Cursor.{flat_laws}
use stacks_pyth_bridge.Clarity.Outcome.{◌>>=◌}
use stacks_pyth_bridge.Wormhole.{Header, vaa_of}
use stacks_pyth_bridge.Wormhole.Quorum.{IsSignedBody, IsQuorum, parse_and_verify_vaa-IsQuorum}
use stacks_pyth_bridge.Wormhole.Rotation.{IsRotation, update_guardians_set-IsRotation}
use stacks_pyth_bridge.Wormhole.Mismatch.{update_guardians_set-Mismatched}

-- Every key has the address 5, and every signature is by the key 2.
abbrev pub sample_crypto : ℕ → Crypto
sample_crypto hash = record {
  keccak256 = λ _. be_bytes 32 hash;
  secp256k1_recover = λ _ _. some (2 ∷ []);
}

abbrev pub sample_guardians : Wormhole
sample_guardians = record {
  guardian_set_initialized = true;
  active_guardian_set_id = 7;
  guardian_sets =
      λ _. some (record { compressed_public_key = 2 ∷ []; uncompressed_public_key = 9 ∷ [] } ∷ []);
}

abbrev pub body_bytes : Bytes
body_bytes =
    be_bytes 4 100
    ++ (be_bytes 4 0 ++ (be_bytes 2 1 ++ (be_bytes 32 4 ++ (be_bytes 8 6 ++ 0 ∷ []))))

abbrev pub signed_bytes : Bytes
signed_bytes = 1 ∷ 0 ∷ 0 ∷ 0 ∷ 7 ∷ 1 ∷ 0 ∷ (be_bytes 65 3 ++ (body_bytes ++ 8 ∷ []))

abbrev pub signed_vaa : Vaa
signed_vaa = record {
  version = 1;
  guardian_set_id = 7;
  signatures_len = 1;
  signatures = record { guardian_id = 0; signature = be_bytes 65 3 } ∷ [];
  timestamp = 100;
  nonce = 0;
  emitter_chain = 1;
  emitter_address = be_bytes 32 4;
  sequence = 6;
  consistency_level = 0;
  payload = 8 ∷ [];
}

vaa_run : parse_and_verify_vaa flat (sample_crypto 5) sample_guardians signed_bytes ≡ ok signed_vaa
unfolding parse_and_verify_vaa parse_vaa parse_header parse_body read_signatures
    batch_read_signatures recover_public_keys recover_public_key check_active_public_keys
    check_active_public_key is_member get_quorum append_max flat bytes_eq be_bytes be_from
vaa_run = refl

parse_and_verify_vaa-IsQuorum_example :
    (message : Message) × (parse_vaa flat (sample_crypto 5) signed_bytes ≡ ok message)
    × (message.vaa ≡ signed_vaa)
    × IsSignedBody flat (sample_crypto 5) message
    × IsQuorum flat (sample_crypto 5) sample_guardians message
parse_and_verify_vaa-IsQuorum_example =
    parse_and_verify_vaa-IsQuorum flat (sample_crypto 5) sample_guardians signed_bytes signed_vaa
      vaa_run

abbrev no_guardians : Wormhole
no_guardians = record {
  guardian_set_initialized = false;
  active_guardian_set_id = 0;
  guardian_sets = λ _. none;
}

abbrev set_payload : Bytes
set_payload = be_bytes 32 0x436f7265 ++ 2 ∷ 0 ∷ 0 ∷ 0 ∷ 0 ∷ 0 ∷ 1 ∷ 1 ∷ be_bytes 20 5

abbrev set_bytes : Bytes
set_bytes = 1 ∷ 0 ∷ 0 ∷ 0 ∷ 0 ∷ 0 ∷ (body_bytes ++ set_payload)

abbrev set_vaa : Vaa
set_vaa = record signed_vaa {
  guardian_set_id = 0;
  signatures_len = 0;
  signatures = [];
  payload = set_payload;
}

abbrev one_key : List Bytes
one_key = be_bytes 64 9 ∷ []

abbrev first_set : Wormhole
first_set = record {
  guardian_set_initialized = true;
  active_guardian_set_id = 1;
  guardian_sets =
      set_guardians (λ _. none) 1
        (record {
          compressed_public_key = 3 ∷ be_bytes 32 0;
          uncompressed_public_key = be_bytes 64 9;
        }
          ∷ []);
}

set_run :
    update_guardians_set flat (sample_crypto 5) no_guardians set_bytes one_key
    ≡ ok (set_vaa, first_set)
unfolding update_guardians_set guardian_set_vaa_of parse_vaa parse_header parse_body read_signatures
    batch_read_signatures recover_public_keys parse_and_verify_guardians_set guardian_cues
    parse_guardians consolidate_public_keys consolidated_entry compress_public_key
    is_eth_address_matching_public_key append_max flat bytes_eq be_bytes be_from
set_run = refl

update_guardians_set-IsRotation_example :
    IsRotation flat (sample_crypto 5) no_guardians set_bytes set_vaa first_set
update_guardians_set-IsRotation_example =
    update_guardians_set-IsRotation flat (sample_crypto 5) no_guardians first_set set_bytes one_key
      set_vaa set_run

abbrev set_data : GuardiansSet
set_data = record {
  guardians_eth_addresses = be_bytes 20 5 ∷ [];
  module_id = be_bytes 32 0x436f7265;
  action = 2;
  chain = 0;
  new_index = 1;
}

set_vaa_run : guardian_set_vaa_of flat (sample_crypto 6) no_guardians set_bytes ≡ ok set_vaa
unfolding guardian_set_vaa_of parse_vaa parse_header parse_body read_signatures
    batch_read_signatures recover_public_keys flat be_bytes be_from
set_vaa_run = refl

set_data_run : parse_and_verify_guardians_set flat no_guardians set_payload ≡ ok set_data
unfolding parse_and_verify_guardians_set guardian_cues parse_guardians append_max flat bytes_eq
    be_bytes be_from
set_data_run = refl

mismatch :
    consolidated_entry (sample_crypto 6) (be_bytes 64 9) (be_bytes 20 5)
    ≡ ok (record { compressed_public_key = []; uncompressed_public_key = [] })
unfolding consolidated_entry compress_public_key is_eth_address_matching_public_key bytes_eq
    be_bytes
mismatch = refl

never_empty :
    (hash signature : Bytes) → (sample_crypto 6).secp256k1_recover hash signature ≢ some []
never_empty hash signature h = cc h

update_guardians_set-Mismatched_example :
    (w' : Wormhole) × (update_guardians_set flat (sample_crypto 6) no_guardians set_bytes one_key
      ≡ ok (set_vaa, w'))
    × (parse_and_verify_vaa flat (sample_crypto 6) w' signed_bytes ≢ ok signed_vaa)
update_guardians_set-Mismatched_example =
    update_guardians_set-Mismatched flat (sample_crypto 6) no_guardians set_bytes signed_bytes
      one_key set_vaa signed_vaa set_data set_vaa_run set_data_run refl refl (mismatch, tt)
      (omega arith) never_empty

abbrev sample_body : VaaBody
sample_body = record {
  timestamp = 100;
  emitter_chain = 1;
  nonce = 0;
  emitter_address = be_bytes 32 4;
  sequence = 6;
  consistency_level = 0;
  payload = 8 ∷ [];
}

abbrev one_signature : List Signature
one_signature = record { guardian_id = 0; signature = be_bytes 65 3 } ∷ []

serialize_run :
    serialize_vaa_to_buffer (header_of 1 7 one_signature) sample_body ≡ some signed_bytes
unfolding serialize_vaa_to_buffer serialize_vaa_header_to_buffer serialize_vaa_body_to_buffer concat
    write_uint_be bigint_to_buffer be_bytes
serialize_run = refl

entries-IsSignature : All IsSignature one_signature
unfolding be_bytes
entries-IsSignature = ((omega arith, refl), tt)

address_length : length sample_body.emitter_address ≡ 32
unfolding be_bytes
address_length = refl

parse_vaa-serialize_within_example :
    (header : Header) × (body : Bytes) × (header.version ≡ 1)
    × (header.guardian_set_id ≡ 7)
    × (header.signatures_len ≡ 1)
    × (serialize_vaa_body_to_buffer sample_body ≡ some body)
    × (with_buff 8192 (parse_vaa flat (sample_crypto 5)) signed_bytes ≡ (
        recover_public_keys (sample_crypto 5) (be_bytes 32 5) one_signature [] >>= λ keys.
        ok (record {
          vaa = vaa_of header one_signature (body_of sample_body);
          recovered_public_keys = keys;
        })))
parse_vaa-serialize_within_example =
    parse_vaa-serialize_within flat flat_laws (sample_crypto 5) 1 7 one_signature sample_body
      signed_bytes entries-IsSignature (omega arith) address_length (omega arith) (omega arith)
      serialize_run

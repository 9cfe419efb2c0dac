-- ===== src/Runs/Guardians.antt =====
-- A run of a keychain of two guardians that sign a VAA.
use stacks_pyth_bridge.Prelude.{
  ℕ, ◌≡◌, ◌≤◌, ◌<◌, ◌*◌, refl, ap, subst, some, true, List, [], ◌∷◌, ◌++◌, arith, length, take,
  take-append, map,
}
use stacks_pyth_bridge.Prelude.Bytes.{Bytes, be_bytes, be_value, be_from, length-be_bytes}
use stacks_pyth_bridge.Clarity.Outcome.{ok, with_buff}
use stacks_pyth_bridge.Clarity.Cursor.{flat, flat_laws}
use stacks_pyth_bridge.Clarity.Types.{Signature}
use stacks_pyth_bridge.Harness.Buffers.{write_uint_be, concat, bigint_to_buffer}
use stacks_pyth_bridge.Harness.Wormhole.{
  Noble, VaaBody, VaaHeader, generate_guardian_set_keychain, guardian_signature,
  guardian_signatures, build_valid_vaa_header, serialize_vaa_body_to_buffer,
  serialize_vaa_header_to_buffer, serialize_vaa_to_buffer,
}
use stacks_pyth_bridge.Wormhole.{Crypto, Wormhole, Header, vaa_of, get_quorum, parse_and_verify_vaa}
use stacks_pyth_bridge.Wormhole.Keys.{IsDistinct}
use stacks_pyth_bridge.Bridge.Vaa.{body_of}
use stacks_pyth_bridge.Bridge.Guardians.{NobleLaws, public_key_of, keys_of}
use stacks_pyth_bridge.Bridge.Accepted.{get_quorum-bounds}
use stacks_pyth_bridge.Bridge.Within.{parse_and_verify_vaa-build_within}

get_quorum-bounds_example : (get_quorum 19 ≤ 19) × (2 * 19 < 3 * get_quorum 19)
get_quorum-bounds_example = get_quorum-bounds 19 (omega arith)

-- A signature shows the secret key.
abbrev shown : Bytes → Bytes
shown secret_key = be_bytes 64 (be_value secret_key)

abbrev pub toy_noble : Noble
toy_noble = record {
  keccak_256 = λ b. be_bytes 32 (length b);
  uncompressed_key = λ s. be_bytes 65 (be_value s);
  compressed_key = λ s. be_bytes 33 (be_value (shown s));
  sign = λ h s. shown s;
  recovery = λ h s. 0;
}

abbrev pub toy_crypto : Crypto
toy_crypto = record {
  keccak256 = λ b. be_bytes 32 (length b);
  secp256k1_recover = λ h s. some (be_bytes 33 (be_value (take 64 s)));
}

take-shown : (s rest : Bytes) → take 64 (shown s ++ rest) ≡ shown s
take-shown s rest =
    subst (λ (n : ℕ). take n (shown s ++ rest) ≡ shown s) (length-be_bytes 64 (be_value s))
      (take-append (shown s) rest)

pub toy_laws : NobleLaws toy_noble toy_crypto
toy_laws = record {
  keccak256_lem = λ b. refl;
  length-sign = λ h s. length-be_bytes 64 (be_value s);
  recovery_small = λ h s. omega arith;
  recovered =
      λ h s. ap (λ (t : Bytes). some (be_bytes 33 (be_value t))) (take-shown s (be_bytes 1 0));
}

abbrev pub secrets : List Bytes
secrets = (1 ∷ 2 ∷ []) ∷ (3 ∷ []) ∷ []

abbrev guardians : Wormhole
guardians = record {
  guardian_set_initialized = true;
  active_guardian_set_id = 4;
  guardian_sets =
      λ _. some (map public_key_of (generate_guardian_set_keychain toy_noble 0 secrets));
}

abbrev pub body : VaaBody
body = record {
  timestamp = 100;
  nonce = 0;
  emitter_chain = 1;
  emitter_address = be_bytes 32 4;
  sequence = 6;
  consistency_level = 0;
  payload = 8 ∷ 9 ∷ [];
}

-- The guardian, the key, the bit.
abbrev signature_by : ℕ → Bytes → Bytes
signature_by id secret_key = id ∷ (shown secret_key ++ 0 ∷ [])

abbrev pub header : VaaHeader
header = record {
  version = 1;
  guardian_set_id = 4;
  signatures = signature_by 0 (1 ∷ 2 ∷ []) ∷ signature_by 1 (3 ∷ []) ∷ [];
}

abbrev pub vaa_bytes : Bytes
vaa_bytes =
    1
    ∷ 0
    ∷ 0
    ∷ 0
    ∷ 4
    ∷ 2
    ∷ (signature_by 0 (1 ∷ 2 ∷ [])
        ++ (signature_by 1 (3 ∷ [])
            ++ (be_bytes 4 100
                ++ (be_bytes 4 0
                    ++ (be_bytes 2 1 ++ (be_bytes 32 4 ++ (be_bytes 8 6 ++ 0 ∷ 8 ∷ 9 ∷ [])))))))

pub header_run :
    build_valid_vaa_header toy_noble (generate_guardian_set_keychain toy_noble 0 secrets) body 1 4
    ≡ some header
unfolding build_valid_vaa_header guardian_signatures guardian_signature
    generate_guardian_set_keychain serialize_vaa_body_to_buffer write_uint_be concat
    bigint_to_buffer be_bytes
header_run = refl

pub vaa_run : serialize_vaa_to_buffer header body ≡ some vaa_bytes
unfolding serialize_vaa_to_buffer serialize_vaa_header_to_buffer serialize_vaa_body_to_buffer
    write_uint_be concat bigint_to_buffer be_bytes be_from
vaa_run = refl

pub distinct : IsDistinct (keys_of (generate_guardian_set_keychain toy_noble 0 secrets))
unfolding generate_guardian_set_keychain be_bytes be_from
distinct = ((λ e. cc e, tt), (tt, tt))

parse_and_verify_vaa-build_within_example :
    (header' : Header) × (signatures : List Signature) × (with_buff 8192
        (λ t. parse_and_verify_vaa flat toy_crypto guardians t)
        vaa_bytes
      ≡ ok (vaa_of header' signatures (body_of body)))
parse_and_verify_vaa-build_within_example =
    parse_and_verify_vaa-build_within flat flat_laws toy_noble toy_crypto toy_laws secrets body
      guardians header vaa_bytes (omega arith) (omega arith) distinct refl (length-be_bytes 32 4)
      (omega arith) (omega arith) header_run vaa_run

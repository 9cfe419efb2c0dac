-- ===== src/Runs/Canonical.antt =====
-- Runs of VAAs that are parsed, against what the unit tests expect and what the helpers write.
use stacks_pyth_bridge.Prelude.{◌≡◌, refl, some, List, [], ◌∷◌, arith, All}
use stacks_pyth_bridge.Prelude.Bytes.{IsByte, be_bytes, be_from, length-be_bytes}
use stacks_pyth_bridge.Clarity.Outcome.{ok, append_max, with_buff}
use stacks_pyth_bridge.Clarity.Cursor.{flat, flat_laws}
use stacks_pyth_bridge.Clarity.Types.{Vaa}
use stacks_pyth_bridge.Harness.Wormhole.{generate_guardian_set_keychain, serialize_vaa_to_buffer}
use stacks_pyth_bridge.Harness.Values.{serialize_vaa_to_clarity_value}
use stacks_pyth_bridge.Bridge.Within.{parse_vaa-serialize_to_clarity_within}
use stacks_pyth_bridge.Bridge.Reprinted.{
  IsTyped, vaa_body_of, parse_vaa-IsTyped, serialize-parse_vaa,
}
use stacks_pyth_bridge.Bridge.SignedVaa.{header_of}
use stacks_pyth_bridge.Wormhole.{
  Message, Recovered, parse_vaa, parse_header, parse_body, read_signatures, batch_read_signatures,
  recover_public_keys, recover_public_key,
}
use stacks_pyth_bridge.Runs.Guardians.{
  toy_noble, toy_crypto, toy_laws, secrets, body, header, vaa_bytes, header_run, vaa_run,
}
use stacks_pyth_bridge.Runs.Wormhole.{sample_crypto, signed_vaa, signed_bytes}

parse_vaa-serialize_to_clarity_within_example :
    (decoded : Vaa) × (keys : List Recovered) × (serialize_vaa_to_clarity_value header body
        (generate_guardian_set_keychain toy_noble 0 secrets)
      ≡ some (decoded, keys))
    × (with_buff 8192 (parse_vaa flat toy_crypto) vaa_bytes
        ≡ ok (record { vaa = decoded; recovered_public_keys = keys }))
parse_vaa-serialize_to_clarity_within_example =
    parse_vaa-serialize_to_clarity_within flat flat_laws toy_noble toy_crypto toy_laws secrets body
      4 header vaa_bytes (omega arith) (length-be_bytes 32 4) (omega arith) (omega arith) header_run
      vaa_run

abbrev message : Message
message = record {
  vaa = signed_vaa;
  recovered_public_keys = record { recovered_compressed_public_key = 2 ∷ []; guardian_id = 0 } ∷ [];
}

parse_run : parse_vaa flat (sample_crypto 5) signed_bytes ≡ ok message
unfolding parse_vaa parse_header parse_body read_signatures batch_read_signatures
    recover_public_keys recover_public_key append_max flat be_bytes be_from
parse_run = refl

signed-IsByte : All IsByte signed_bytes
unfolding be_bytes
signed-IsByte = omega arith

parse_vaa-IsTyped_example : IsTyped signed_vaa
parse_vaa-IsTyped_example =
    parse_vaa-IsTyped flat flat_laws (sample_crypto 5) signed_bytes message signed-IsByte
      (omega arith) parse_run

serialize-parse_vaa_example :
    serialize_vaa_to_buffer (header_of 1 7 signed_vaa.signatures) (vaa_body_of signed_vaa)
    ≡ some signed_bytes
serialize-parse_vaa_example =
    serialize-parse_vaa flat flat_laws (sample_crypto 5) signed_bytes message signed-IsByte
      (omega arith) parse_run

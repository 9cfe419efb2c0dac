-- ===== src/Harness/Values.antt =====
-- unit-tests/wormhole/helpers.ts and unit-tests/pyth/helpers.ts: the Clarity values that the unit tests
-- expect. A value of @stacks/transactions is the tuple, list, number or buffer of the model that it
-- stands for.
use stacks_pyth_bridge.Prelude.{Option, none, some, List, [], ◌∷◌, length, take}
use stacks_pyth_bridge.Prelude.Bytes.{Bytes}
use stacks_pyth_bridge.Clarity.Types.{Signature, Vaa}
use stacks_pyth_bridge.Harness.Buffers.{◌>>=◌}
use stacks_pyth_bridge.Harness.Pnau.{PriceUpdate}
use stacks_pyth_bridge.Harness.Wormhole.{Guardian, VaaHeader, VaaBody}
use stacks_pyth_bridge.Store.{PriceEntry}
use stacks_pyth_bridge.Wormhole.{Recovered}

-- The guardian's id and the signature behind it; an empty buffer has no number for the id.
unfoldable pub signature_tuple : Bytes → Option Signature
signature_tuple [] = none
signature_tuple (id ∷ bytes) = some (record { guardian_id = id; signature = take 65 bytes })

-- The key for a signature is that of the guardian in the same position, while there is one.
unfoldable pub recovered_tuples : List Bytes → List Guardian → Option (List Recovered)
unfolding signature_tuple
recovered_tuples [] keychain = some []
recovered_tuples (signature ∷ signatures) [] = some []
recovered_tuples (signature ∷ signatures) (guardian ∷ keychain) = do
  s ← signature_tuple signature
  rest ← recovered_tuples signatures keychain
  some (
      record {
        guardian_id = s.guardian_id;
        recovered_compressed_public_key = guardian.compressed_public_key;
      }
      ∷ rest)

unfoldable pub signature_tuples : List Bytes → Option (List Signature)
unfolding signature_tuple
signature_tuples [] = some []
signature_tuples (signature ∷ signatures) = do
  s ← signature_tuple signature
  rest ← signature_tuples signatures
  some (s ∷ rest)

unfoldable pub serialize_vaa_to_clarity_value :
    VaaHeader → VaaBody → List Guardian → Option (Vaa × List Recovered)
unfolding recovered_tuples signature_tuples
serialize_vaa_to_clarity_value header body keychain = do
  guardians_public_keys ← recovered_tuples header.signatures keychain
  guardians_signatures ← signature_tuples header.signatures
  some (
    record {
      version = header.version;
      guardian_set_id = header.guardian_set_id;
      signatures_len = length header.signatures;
      signatures = guardians_signatures;
      timestamp = body.timestamp;
      nonce = body.nonce;
      emitter_chain = body.emitter_chain;
      emitter_address = body.emitter_address;
      sequence = body.sequence;
      consistency_level = body.consistency_level;
      payload = body.payload;
    },
    guardians_public_keys,
  )

abbrev pub serialize_price_update_to_clarity_value : PriceUpdate → PriceEntry
serialize_price_update_to_clarity_value price_update = record {
  price_identifier = price_update.price_identifier.bytes;
  price = price_update.price;
  conf = price_update.conf;
  expo = price_update.expo;
  ema_price = price_update.ema_price;
  ema_conf = price_update.ema_conf;
  publish_time = price_update.publish_time;
  prev_publish_time = price_update.prev_publish_time;
}

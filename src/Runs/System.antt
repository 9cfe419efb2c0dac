-- ===== src/Runs/System.antt =====
-- A run of the contracts together: a price update that is signed by a guardian of the active set.
use stacks_pyth_bridge.Prelude.{◌≡◌, ◌==◌, refl, List, [], ◌∷◌, ◌++◌, arith, if◌then◌else◌, All}
use stacks_pyth_bridge.Prelude.Bytes.{Bytes, bytes_eq, be_bytes, be_from, be_signed}
use stacks_pyth_bridge.Prelude.Int.{pos, negsuc}
use stacks_pyth_bridge.Clarity.Outcome.{ok, append_max, uint_sub, uint_mul, uint_pow}
use stacks_pyth_bridge.Clarity.Cursor.{flat, flat_laws}
use stacks_pyth_bridge.Clarity.Types.{data_source_eq}
use stacks_pyth_bridge.Clarity.Walk.{walk, walk_step}
use stacks_pyth_bridge.Governance.{Governance, check_execution_flow, get_fee_info}
use stacks_pyth_bridge.Harness.Buffers.{buffer_to_bigint}
use stacks_pyth_bridge.Harness.Merkle.{keccak160_hash_nodes, keccak160_hash_leaf}
use stacks_pyth_bridge.Store.{
  PriceEntry, empty, price_of, write, write_batch_entry, map_write_batch_entry, filter_ok,
  map_unwrapped,
}
use stacks_pyth_bridge.Store.Batch.{IsLive, stored_all}
use stacks_pyth_bridge.Store.Newest.{NewestWins}
use stacks_pyth_bridge.Store.Safety.{IsNews}
use stacks_pyth_bridge.Oracle.{Ledger, fee_amount, stx_transfer, verify_and_update_price_feeds}
use stacks_pyth_bridge.Pnau.{
  is_authorized, cast_decoded_price, parse_merkle_root_data_from_vaa_payload, parse_pnau_header,
  decode_pnau_price_update, decode_and_verify_price_feeds,
}
use stacks_pyth_bridge.Pnau.Updates.{
  read_hash, parse_proof, read_message, read_price_info, check_merkle_proofs,
  parse_and_verify_prices_updates,
}
use stacks_pyth_bridge.Pnau.Sound.{IsSound, decode_pnau_price_update-IsSound}
use stacks_pyth_bridge.System.{
  Addresses, IsSigned, deployed, wormhole_core, verify_and_update_price_feeds-Signed,
}
use stacks_pyth_bridge.Wormhole.{
  parse_vaa, parse_and_verify_vaa, parse_header, parse_body, read_signatures, batch_read_signatures,
  recover_public_keys, recover_public_key, check_active_public_keys, check_active_public_key,
  is_member, get_quorum,
}
use stacks_pyth_bridge.Runs.Governance.{sample_state, sample-IsDistinct}
use stacks_pyth_bridge.Runs.Store.{sample_chain}
use stacks_pyth_bridge.Runs.Wormhole.{sample_crypto, sample_guardians, body_bytes}
use stacks_pyth_bridge.Runs.Feeds.{toy_merkle, root_payload, pnau_of}

abbrev pub live_state : Governance
live_state = record sample_state {
  prices_data_sources = record { emitter_chain = 1; emitter_address = be_bytes 32 4 } ∷ [];
}

abbrev pub addresses : Addresses
addresses = record { oracle = 1; store = 3; decoder = 2; core = 4 }

abbrev signed_update : Bytes
signed_update =
    pnau_of (1 ∷ 0 ∷ 0 ∷ 0 ∷ 7 ∷ 1 ∷ 0 ∷ (be_bytes 65 3 ++ (body_bytes ++ root_payload)))

abbrev entry : PriceEntry
entry = record {
  price_identifier = be_bytes 32 2;
  price = pos 100;
  conf = 10;
  expo = negsuc 3;
  ema_price = pos 95;
  ema_conf = 9;
  publish_time = 1000;
  prev_publish_time = 990;
}

decode_run :
    decode_pnau_price_update flat toy_merkle live_state signed_update
      (wormhole_core flat (sample_crypto 5) 4 sample_guardians)
    ≡ ok (entry ∷ [])
unfolding decode_pnau_price_update parse_pnau_header parse_merkle_root_data_from_vaa_payload
    is_authorized cast_decoded_price parse_and_verify_prices_updates read_price_info read_message
    parse_proof read_hash walk walk_step check_merkle_proofs parse_and_verify_vaa parse_vaa
    parse_header parse_body read_signatures batch_read_signatures recover_public_keys
    recover_public_key check_active_public_keys check_active_public_key is_member get_quorum
    append_max flat bytes_eq be_bytes be_from be_signed data_source_eq keccak160_hash_nodes
    keccak160_hash_leaf buffer_to_bigint
decode_run = refl

decode_pnau_price_update-IsSound_example :
    IsSound flat toy_merkle live_state
      (wormhole_core flat (sample_crypto 5) 4 sample_guardians)
      signed_update
      (entry ∷ [])
decode_pnau_price_update-IsSound_example =
    decode_pnau_price_update-IsSound flat toy_merkle flat_laws live_state
      (wormhole_core flat (sample_crypto 5) 4 sample_guardians) signed_update (entry ∷ [])
      decode_run

abbrev ledger : Ledger
ledger = record { store = empty; balances = λ _. 1000 }

abbrev updated : Ledger
updated = record {
  store = stored_all 800 empty (entry ∷ []);
  balances = λ p. if p == 5 then 990 else if p == 8 then 1010 else 1000;
}

live : IsLive live_state sample_chain 800
live = record { time = 8000; started = omega arith; known = refl; room = omega arith; bound = refl }

update_run :
    verify_and_update_price_feeds 1 live_state 5 5 ledger signed_update (
      deployed flat (sample_crypto 5) toy_merkle addresses live_state sample_chain sample_guardians)
    ≡ ok (entry ∷ [], updated)
unfolding decode_and_verify_price_feeds decode_pnau_price_update parse_pnau_header
    parse_merkle_root_data_from_vaa_payload is_authorized cast_decoded_price
    parse_and_verify_prices_updates read_price_info read_message parse_proof read_hash walk
    walk_step check_merkle_proofs parse_and_verify_vaa parse_vaa parse_header parse_body
    read_signatures batch_read_signatures recover_public_keys recover_public_key
    check_active_public_keys check_active_public_key is_member get_quorum append_max flat bytes_eq
    be_bytes be_from be_signed data_source_eq keccak160_hash_nodes keccak160_hash_leaf
    buffer_to_bigint verify_and_update_price_feeds write check_execution_flow write_batch_entry
    map_write_batch_entry filter_ok map_unwrapped price_of uint_sub stored_all fee_amount
    stx_transfer get_fee_info uint_mul uint_pow
update_run = refl

verify_and_update_price_feeds-Signed_example :
    (decoded : List PriceEntry) × (sound : IsSound flat toy_merkle live_state
      (wormhole_core flat (sample_crypto 5) 4 sample_guardians)
      signed_update
      decoded)
    × IsSigned flat (sample_crypto 5) sample_guardians sound.body.value sound.vaa
    × All (IsNews 800 empty decoded) (entry ∷ [])
    × ((key : Bytes) → NewestWins 800 key empty decoded updated.store)
verify_and_update_price_feeds-Signed_example =
    verify_and_update_price_feeds-Signed flat (sample_crypto 5) toy_merkle flat_laws addresses
      live_state sample_chain sample_guardians 800 5 5 ledger updated signed_update (entry ∷ [])
      live sample-IsDistinct refl update_run

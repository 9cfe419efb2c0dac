-- ===== src/Runs/Sent.antt =====
-- Runs of governance updates that two guardians sign.
use stacks_pyth_bridge.Prelude.{◌≡◌, ◌≤◌, refl, some, true, [], ◌∷◌, arith, map, length}
use stacks_pyth_bridge.Prelude.Bytes.{Bytes, be_bytes, length-be_bytes}
use stacks_pyth_bridge.Clarity.Outcome.{ok}
use stacks_pyth_bridge.Clarity.Cursor.{flat, flat_laws}
use stacks_pyth_bridge.Governance.{Governance}
use stacks_pyth_bridge.Harness.Wormhole.{Emitter, generate_guardian_set_keychain}
use stacks_pyth_bridge.Harness.Ptgm.{StacksTransactions, no_options}
use stacks_pyth_bridge.Harness.Apply.{
  apply_stale_price_threshold_update, apply_governance_data_source_update,
  apply_prices_data_source_update, signed_vaa,
}
use stacks_pyth_bridge.Bridge.Guardians.{public_key_of}
use stacks_pyth_bridge.Bridge.Ptgm.{source_of}
use stacks_pyth_bridge.Bridge.Updates.{encode}
use stacks_pyth_bridge.Bridge.Sent.{
  IsSender, apply_stale_price_threshold_update-sent, apply_governance_data_source_update-sent,
  apply_prices_data_source_update-sent,
}
use stacks_pyth_bridge.System.{wormhole_core}
use stacks_pyth_bridge.Wormhole.{Wormhole}
use stacks_pyth_bridge.Runs.Governance.{sample_state, sample_host}
use stacks_pyth_bridge.Runs.Guardians.{toy_noble, toy_crypto, toy_laws, secrets, distinct}

abbrev first_set : Wormhole
first_set = record {
  guardian_set_initialized = true;
  active_guardian_set_id = 1;
  guardian_sets =
      λ _. some (map public_key_of (generate_guardian_set_keychain toy_noble 0 secrets));
}

abbrev emitter : Emitter
emitter = record { chain = 1; address = be_bytes 32 4 }

abbrev governed : Governance
governed = record sample_state { governance_data_source = source_of emitter }

abbrev stacks : StacksTransactions
stacks = record {
  contract_principal_cv = λ address name. address;
  principal_cv = λ address. address;
}

sender : IsSender toy_noble first_set 4 governed secrets emitter 6
sender = record {
  set = record {
    some_keys = omega arith;
    few = omega arith;
    distinct = distinct;
    active = refl;
    stored = refl;
  };
  active = refl;
  source = refl;
  shape = (omega arith, length-be_bytes 32 4);
  newer = omega arith;
  bound = omega arith;
}

apply_stale_price_threshold_update-sent_example :
    apply_stale_price_threshold_update flat sample_host toy_noble stacks 100 governed
      (wormhole_core flat toy_crypto 4 first_set)
      emitter
      (generate_guardian_set_keychain toy_noble 0 secrets)
      6
      (record { threshold = 60 })
    ≡ some (ok (60, record governed { last_sequence_processed = 6; stale_price_threshold = 60 }))
apply_stale_price_threshold_update-sent_example =
    apply_stale_price_threshold_update-sent flat flat_laws sample_host refl toy_noble toy_crypto
      toy_laws stacks 100 first_set 4 governed secrets emitter 6 sender (record { threshold = 60 })
      (omega arith)

abbrev other : Emitter
other = record { chain = 2; address = be_bytes 32 7 }

apply_governance_data_source_update-sent_example :
    apply_governance_data_source_update flat sample_host toy_noble stacks 100 governed
      (wormhole_core flat toy_crypto 4 first_set)
      emitter
      (generate_guardian_set_keychain toy_noble 0 secrets)
      6
      other
    ≡ some (
        ok (
          source_of other,
          record governed { last_sequence_processed = 6; governance_data_source = source_of other },
        ))
apply_governance_data_source_update-sent_example =
    apply_governance_data_source_update-sent flat flat_laws sample_host refl toy_noble toy_crypto
      toy_laws stacks 100 first_set 4 governed secrets emitter 6 sender other
      (omega arith, length-be_bytes 32 7)

apply_prices_data_source_update-sent_example :
    (payload bytes : Bytes) × (encode stacks
        (record no_options { update_prices_data_sources = some (other ∷ emitter ∷ []) })
      ≡ some payload)
    × (signed_vaa flat sample_host toy_noble stacks 100
          (generate_guardian_set_keychain toy_noble 0 secrets)
          payload
          emitter
          6
        ≡ some bytes)
    × (length bytes ≤ 8192)
    × (apply_prices_data_source_update flat sample_host toy_noble stacks 100 governed
          (wormhole_core flat toy_crypto 4 first_set)
          emitter
          (generate_guardian_set_keychain toy_noble 0 secrets)
          6
          (other ∷ emitter ∷ [])
        ≡ some (
            ok (
              map source_of (other ∷ emitter ∷ []),
              record governed {
                last_sequence_processed = 6;
                prices_data_sources = map source_of (other ∷ emitter ∷ []);
              },
            )))
apply_prices_data_source_update-sent_example =
    apply_prices_data_source_update-sent flat flat_laws sample_host refl toy_noble toy_crypto
      toy_laws stacks 100 first_set 4 governed secrets emitter 6 sender (other ∷ emitter ∷ [])
      ((omega arith, length-be_bytes 32 7), ((omega arith, length-be_bytes 32 4), tt)) (omega arith)

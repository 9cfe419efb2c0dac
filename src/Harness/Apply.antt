-- ===== src/Harness/Apply.antt =====
-- The updates that the unit tests apply to a simulated network: unit-tests/pyth/helpers.ts builds,
-- signs and sends a governance message. The network runs contracts/pyth-governance-v1.clar.
use stacks_pyth_bridge.Prelude.{ℕ, ◌-◌, Option, some, none, List, map}
use stacks_pyth_bridge.Prelude.Bytes.{Bytes}
use stacks_pyth_bridge.Clarity.Outcome.{Outcome}
use stacks_pyth_bridge.Clarity.Cursor.{HkCursor}
use stacks_pyth_bridge.Clarity.Types.{DataSource, Vaa, WormholeCore}
use stacks_pyth_bridge.Governance.{Governance}
use stacks_pyth_bridge.Governance.Ptgm.{Host}
use stacks_pyth_bridge.Governance.Update.{
  update_stale_price_threshold, update_governance_data_source, update_prices_data_sources,
}
use stacks_pyth_bridge.Wormhole.{Crypto, Wormhole}
use stacks_pyth_bridge.Wormhole.Guardians.{update_guardians_set}
use stacks_pyth_bridge.Harness.Buffers.{◌>>=◌}
use stacks_pyth_bridge.Harness.Wormhole.{
  Noble, Guardian, Emitter, VaaBodyOptions, build_valid_vaa_body_specs, build_valid_vaa_header,
  serialize_vaa_to_buffer, VaaHeader, VaaBody, governance_update_emitter,
  valid_guardian_rotation_module, serialize_guardian_update_vaa_payload_to_buffer,
}
use stacks_pyth_bridge.Harness.Ptgm.{
  StacksTransactions, PtgmUpdateStalePriceThreshold, no_options, build_ptgm_vaa_payload,
  serialize_ptgm_vaa_payload_to_buffer,
}

abbrev pub specs_of : Bytes → Emitter → ℕ → VaaBodyOptions
specs_of payload emitter sequence = record {
  payload = some payload;
  emitter = some emitter;
  sequence = some sequence;
}

-- `date` is the present time in seconds.
module _ (k : HkCursor) (host : Host) (noble : Noble) (stacks : StacksTransactions) (date : ℕ) where
  -- The VAA of a message, in the name of the guardian set 1.
  unfoldable pub signed_vaa : List Guardian → Bytes → Emitter → ℕ → Option Bytes
  signed_vaa guardian_set payload emitter sequence = do
    let body = build_valid_vaa_body_specs date (specs_of payload emitter sequence)
    header ← build_valid_vaa_header noble guardian_set body 1 1
    serialize_vaa_to_buffer header body

  module _ (g : Governance) (core : WormholeCore) (emitter : Emitter) (guardian_set : List Guardian)
      (sequence : ℕ) where
    unfoldable pub apply_governance_data_source_update :
        Emitter → Option (Outcome (DataSource × Governance))
    unfolding signed_vaa
    apply_governance_data_source_update source = do
      ptgm_vaa_payload ←
          build_ptgm_vaa_payload (record no_options { update_governance_data_source = some source })
      payload ← serialize_ptgm_vaa_payload_to_buffer stacks ptgm_vaa_payload
      vaa ← signed_vaa guardian_set payload emitter sequence
      some (update_governance_data_source k host g vaa core)

    unfoldable pub apply_prices_data_source_update :
        List Emitter → Option (Outcome (List DataSource × Governance))
    unfolding signed_vaa
    apply_prices_data_source_update sources = do
      ptgm_vaa_payload ←
          build_ptgm_vaa_payload (record no_options { update_prices_data_sources = some sources })
      payload ← serialize_ptgm_vaa_payload_to_buffer stacks ptgm_vaa_payload
      vaa ← signed_vaa guardian_set payload emitter sequence
      some (update_prices_data_sources k host g vaa core)

    unfoldable pub apply_stale_price_threshold_update :
        PtgmUpdateStalePriceThreshold → Option (Outcome (ℕ × Governance))
    unfolding signed_vaa
    apply_stale_price_threshold_update update = do
      ptgm_vaa_payload ←
          build_ptgm_vaa_payload (record no_options { update_stale_price_threshold = some update })
      payload ← serialize_ptgm_vaa_payload_to_buffer stacks ptgm_vaa_payload
      vaa ← signed_vaa guardian_set payload emitter sequence
      some (update_stale_price_threshold k host g vaa core)

-- The guardian set update that the keychain signs in the name of the set before.
module _ (k : HkCursor) (crypto : Crypto) (noble : Noble) (date : ℕ) where
  unfoldable pub apply_guardian_set_update :
      Wormhole → List Guardian → ℕ → Option (Outcome (Vaa × Wormhole) × (VaaHeader × VaaBody))
  apply_guardian_set_update w keychain guardian_set_id = do
    guardian_rotation_payload ←
        serialize_guardian_update_vaa_payload_to_buffer keychain 2 0 guardian_set_id
          valid_guardian_rotation_module
    let vaa_body = build_valid_vaa_body_specs date (record {
      payload = some guardian_rotation_payload;
      emitter = some governance_update_emitter;
      sequence = none;
    })
    vaa_header ← build_valid_vaa_header noble keychain vaa_body 1 (guardian_set_id - 1)
    vaa ← serialize_vaa_to_buffer vaa_header vaa_body
    let uncompressed_public_key = map (λ (g : Guardian). g.uncompressed_public_key) keychain
    some (update_guardians_set k crypto w vaa uncompressed_public_key, (vaa_header, vaa_body))

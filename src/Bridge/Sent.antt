-- ===== src/Bridge/Sent.antt =====
-- Governance updates from end to end: unit-tests/pyth/helpers.ts builds, signs and applies them
-- (applyStalePriceThresholdUpdate, applyGovernanceDataSourceUpdate, applyPricesDataSourceUpdate), and
-- contracts/pyth-governance-v1.clar stores them.
use stacks_pyth_bridge.Prelude.{
  ℕ, ◌+◌, ◌*◌, ◌^◌, ◌<◌, ◌≤◌, ◌≡◌, ap, ◌∙◌, List, length, some, arith, All, map, false,
}
use stacks_pyth_bridge.Prelude.Bytes.{Bytes}
use stacks_pyth_bridge.Clarity.Outcome.{ok}
use stacks_pyth_bridge.Clarity.Cursor.{HkCursor, HkCursorLaws}
use stacks_pyth_bridge.Clarity.Types.{Principal, Vaa}
use stacks_pyth_bridge.Governance.{Governance}
use stacks_pyth_bridge.Governance.Ptgm.{Host}
use stacks_pyth_bridge.Harness.Wormhole.{Noble, Emitter, generate_guardian_set_keychain}
use stacks_pyth_bridge.Harness.Ptgm.{
  StacksTransactions, PtgmUpdateStalePriceThreshold, no_options, build_ptgm_vaa_payload,
}
use stacks_pyth_bridge.Harness.Apply.{
  signed_vaa, apply_governance_data_source_update, apply_prices_data_source_update,
  apply_stale_price_threshold_update,
}
use stacks_pyth_bridge.Bridge.Ptgm.{IsEmitter, source_of}
use stacks_pyth_bridge.Bridge.Updates.{
  IsDelivered, update_stale_price_threshold-encode, update_governance_data_source-encode,
  update_prices_data_sources-encode, encode, length-encode,
}
use stacks_pyth_bridge.Bridge.Guardians.{NobleLaws}
use stacks_pyth_bridge.Bridge.Applied.{IsActiveSet, signed_vaa-accepted}
use stacks_pyth_bridge.System.{wormhole_core}
use stacks_pyth_bridge.Wormhole.{Crypto, Wormhole}
use stacks_pyth_bridge.Bridge.Encoded.{chained, threshold-IsMade, source-IsMade, sources-IsMade}

-- The Wormhole contract of the plan, whose active set is the keychain, and the sender of a message
-- that is new.
pub record IsSender (noble : Noble) (w : Wormhole) (core : Principal) (g : Governance)
    (secrets : List Bytes) (emitter : Emitter) (sequence : ℕ) : Type 0 where
  pub set : IsActiveSet noble w secrets
  pub active : core ≡ g.current_execution_plan.wormhole_core_contract
  pub source : source_of emitter ≡ g.governance_data_source
  pub shape : IsEmitter emitter
  pub newer : g.last_sequence_processed < sequence
  pub bound : sequence < 256 ^ 8

module _ (k : HkCursor) (laws : HkCursorLaws k) (host : Host)
    (test_network : host.is_in_mainnet ≡ false) (noble : Noble) (crypto : Crypto)
    (noble_laws : NobleLaws noble crypto) (stacks : StacksTransactions) (date : ℕ) (w : Wormhole)
    (core : Principal) (g : Governance) (secrets : List Bytes) (emitter : Emitter) (sequence : ℕ)
    (sender : IsSender noble w core g secrets emitter sequence) where
  delivered :
      (payload : Bytes)
      → (bytes : Bytes) × (signed_vaa k host noble stacks date
            (generate_guardian_set_keychain noble 0 secrets)
            payload
            emitter
            sequence
          ≡ some bytes)
        × (vaa : Vaa) × IsDelivered g (wormhole_core k crypto core w) bytes payload vaa
        × (vaa.sequence ≡ sequence)
        × (length bytes ≡ 57 + 66 * length secrets + length payload)
  delivered payload =
      let newer = sender.newer in
      let (bytes, e, vaa, v, p, s, c, a, size) =
        signed_vaa-accepted k laws host noble crypto noble_laws stacks date secrets w payload
          emitter sequence sender.set sender.shape (omega arith) sender.bound in
      let source = sender.source in
      (
        bytes,
        e,
        vaa,
        record {
          verified = v;
          carries = p;
          newer = omega (arith, s);
          chain = c ∙ ap (λ t. t.emitter_chain) source;
          address = a ∙ ap (λ t. t.emitter_address) source;
          active = sender.active;
        },
        s,
        size,
      )

  -- The network answers the update of the stale price threshold that the helpers build, sign with
  -- the whole keychain and apply with that threshold and stores it, and changes nothing else but
  -- the last sequence; nothing on the way fails. Given: a test network, the keychain as the active
  -- set 1 (1 to 19 guardians with distinct keys), the governance data source as emitter, a sequence
  -- above the last one that fits 8 bytes, a threshold that fits 8 bytes, and a signing library and
  -- a cursor contract that meet their laws.
  pub apply_stale_price_threshold_update-sent :
      (update : PtgmUpdateStalePriceThreshold)
      → update.threshold < 256 ^ 8
      → apply_stale_price_threshold_update k host noble stacks date g
          (wormhole_core k crypto core w)
          emitter
          (generate_guardian_set_keychain noble 0 secrets)
          sequence
          update
        ≡ some (
            ok (
              update.threshold,
              record g {
                last_sequence_processed = sequence;
                stale_price_threshold = update.threshold;
              },
            ))
  unfolding apply_stale_price_threshold_update
  apply_stale_price_threshold_update-sent update small =
      let (payload, e) = threshold-IsMade stacks update in
      let (bytes, s, vaa, d, n, size) = delivered payload in
      let done =
        update_stale_price_threshold-encode k laws host stacks update g
          (wormhole_core k crypto core w) bytes payload vaa test_network small e d in
      chained
        (build_ptgm_vaa_payload (record no_options { update_stale_price_threshold = some update }))
        _ _ _ payload bytes e s
      ∙ ap (λ t. some t)
          (done
            ∙ ap
                (λ (t : ℕ). ok (
                  update.threshold,
                  record g {
                    last_sequence_processed = t;
                    stale_price_threshold = update.threshold;
                  },
                ))
                n)

  -- The network answers the update of the governance data source that the helpers build, sign with
  -- the whole keychain and apply with the new source and stores it, and changes nothing else but
  -- the last sequence; nothing on the way fails. Given: a test network, the keychain as the active
  -- set 1 (1 to 19 guardians with distinct keys), the governance data source as emitter, a sequence
  -- above the last one that fits 8 bytes, a new source whose chain fits 2 bytes and whose address
  -- has 32, and a signing library and a cursor contract that meet their laws.
  pub apply_governance_data_source_update-sent :
      (new_source : Emitter)
      → IsEmitter new_source
      → apply_governance_data_source_update k host noble stacks date g
          (wormhole_core k crypto core w)
          emitter
          (generate_guardian_set_keychain noble 0 secrets)
          sequence
          new_source
        ≡ some (
            ok (
              source_of new_source,
              record g {
                last_sequence_processed = sequence;
                governance_data_source = source_of new_source;
              },
            ))
  unfolding apply_governance_data_source_update
  apply_governance_data_source_update-sent new_source m =
      let (payload, e) = source-IsMade stacks new_source m in
      let (bytes, s, vaa, d, n, size) = delivered payload in
      let done =
        update_governance_data_source-encode k laws host stacks new_source g
          (wormhole_core k crypto core w) bytes payload vaa test_network m e d in
      chained
        (build_ptgm_vaa_payload
          (record no_options { update_governance_data_source = some new_source }))
        _ _ _ payload bytes e s
      ∙ ap (λ t. some t)
          (done
            ∙ ap
                (λ (t : ℕ). ok (
                  source_of new_source,
                  record g {
                    last_sequence_processed = t;
                    governance_data_source = source_of new_source;
                  },
                ))
                n)

  -- The network answers the update of the price data sources that the helpers build, sign with the
  -- whole keychain and apply with the new list and stores it, and changes nothing else but the last
  -- sequence; nothing on the way fails, and the VAA that it is sent in has at most 8192 bytes, as
  -- the argument holds. Given: a test network, the keychain as the active set 1 (1 to 19 guardians
  -- with distinct keys), the governance data source as emitter, a sequence above the last one that
  -- fits 8 bytes, at most 202 sources whose chains fit 2 bytes and whose addresses have 32, and a
  -- signing library and a cursor contract that meet their laws.
  pub apply_prices_data_source_update-sent :
      (sources : List Emitter)
      → All IsEmitter sources
      → length sources ≤ 202
      → (payload bytes : Bytes) × (encode stacks
            (record no_options { update_prices_data_sources = some sources })
          ≡ some payload)
        × (signed_vaa k host noble stacks date
              (generate_guardian_set_keychain noble 0 secrets)
              payload
              emitter
              sequence
            ≡ some bytes)
        × (length bytes ≤ 8192)
        × (apply_prices_data_source_update k host noble stacks date g
              (wormhole_core k crypto core w)
              emitter
              (generate_guardian_set_keychain noble 0 secrets)
              sequence
              sources
            ≡ some (
                ok (
                  map source_of sources,
                  record g {
                    last_sequence_processed = sequence;
                    prices_data_sources = map source_of sources;
                  },
                )))
  unfolding apply_prices_data_source_update
  apply_prices_data_source_update-sent sources m few =
      let (payload, e) = sources-IsMade stacks sources m (omega arith) in
      let (bytes, s, vaa, d, n, size) = delivered payload in
      let done =
        update_prices_data_sources-encode k laws host stacks sources g
          (wormhole_core k crypto core w) bytes payload vaa test_network m (omega arith) e d in
      let secrets_few = sender.set.few in
      let long = length-encode k laws host stacks sources payload m (omega arith) e in
      (
        payload,
        bytes,
        e,
        s,
        omega (arith, size, long),
        chained
              (build_ptgm_vaa_payload
                (record no_options { update_prices_data_sources = some sources }))
              _ _ _ payload bytes e s
            ∙ ap (λ t. some t)
                (done
                  ∙ ap
                      (λ (t : ℕ). ok (
                        map source_of sources,
                        record g {
                          last_sequence_processed = t;
                          prices_data_sources = map source_of sources;
                        },
                      ))
                      n),
      )

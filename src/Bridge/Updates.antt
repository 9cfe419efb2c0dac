-- ===== src/Bridge/Updates.antt =====
-- Governance updates from end to end: the options given to unit-tests/pyth/helpers.ts are what
-- contracts/pyth-governance-v1.clar stores.
use stacks_pyth_bridge.Prelude.{
  ℕ, ◌+◌, ◌*◌, ◌^◌, ◌<◌, ◌≡◌, refl, sym, ap, ◌∙◌, List, [], ◌∷◌, length, map, Option, some, arith,
  false, append-nil, All, ==_refl,
}
use stacks_pyth_bridge.Prelude.Bytes.{Bytes, be_bytes, bytes_eq_refl}
use stacks_pyth_bridge.Clarity.Outcome.{ok}
use stacks_pyth_bridge.Clarity.Cursor.{HkCursor, HkCursorLaws}
use stacks_pyth_bridge.Clarity.Types.{Vaa, WormholeCore, data_source_eq}
use stacks_pyth_bridge.Governance.{
  Governance, FeeValue, check_update_source, expect_active_wormhole_contract,
}
use stacks_pyth_bridge.Governance.Ptgm.{Host}
use stacks_pyth_bridge.Governance.Update.{
  begin_update, update_fee_value, update_prices_data_sources, update_governance_data_source,
  update_stale_price_threshold,
}
use stacks_pyth_bridge.Harness.Buffers.{◌>>=◌, write_uint_be, concat}
use stacks_pyth_bridge.Harness.Wormhole.{Emitter}
use stacks_pyth_bridge.Harness.Ptgm.{
  PtgmUpdateFeeValue, PtgmUpdateStalePriceThreshold, PtgmVaaPayload, PtgmOptions,
  StacksTransactions, no_options, ptgm_magic_bytes, build_ptgm_vaa_payload,
  serialize_ptgm_vaa_payload_to_buffer, serialize_body,
}
use stacks_pyth_bridge.Bridge.Fields.{write_uint_be_fits}
use stacks_pyth_bridge.Bridge.Sources.{parse_prices_sources, length-serialize_prices_data_sources}
use stacks_pyth_bridge.Bridge.Ptgm.{
  message, parse_message, parse_fee, parse_threshold, parse_governance_source, IsEmitter, source_of,
  bind-some,
}

-- A VAA with this payload, from the governance data source, which the Wormhole contract of the plan
-- verifies and whose sequence is new.
pub record IsDelivered (g : Governance) (core : WormholeCore) (b payload : Bytes) (vaa : Vaa)
    : Type 0 where
  pub verified : core.parse_and_verify_vaa b ≡ ok vaa
  pub carries : vaa.payload ≡ payload
  pub newer : g.last_sequence_processed < vaa.sequence
  pub chain : vaa.emitter_chain ≡ g.governance_data_source.emitter_chain
  pub address : vaa.emitter_address ≡ g.governance_data_source.emitter_address
  pub active : core.address ≡ g.current_execution_plan.wormhole_core_contract

abbrev pub fee_of : PtgmUpdateFeeValue → FeeValue
fee_of fee = record { mantissa = fee.mantissa; exponent = fee.exponent }

-- The serialization of what the options build.
abbrev pub encode : StacksTransactions → PtgmOptions → Option Bytes
encode stacks opts =
    build_ptgm_vaa_payload opts >>= λ payload. serialize_ptgm_vaa_payload_to_buffer stacks payload

-- The message has the header that the contract expects on a test network.
pub encode_shape :
    (stacks : StacksTransactions) (p : PtgmVaaPayload) (bytes : Bytes) (action : ℕ)
    → p.magic_bytes ≡ ptgm_magic_bytes
    → p.module_id ≡ 3
    → p.target_chain_id ≡ 50039
    → p.action ≡ action
    → write_uint_be 1 action ≡ some (action ∷ [])
    → serialize_ptgm_vaa_payload_to_buffer stacks p ≡ some bytes
    → (body : Bytes) × (serialize_body stacks p ≡ some body)
      × (bytes ≡ message action 0xc3 0x77 body)
unfolding serialize_ptgm_vaa_payload_to_buffer concat be_bytes
encode_shape stacks p bytes action a b c d w h =
    let one : write_uint_be 1 3 ≡ some (3 ∷ []) = write_uint_be_fits 1 3 (omega arith) in
    let two : write_uint_be 2 50039 ≡ some (0xc3 ∷ 0x77 ∷ []) =
      write_uint_be_fits 2 50039 (omega arith) in
    let (body, e, f) = bind-some (serialize_body stacks p) _ (rw (a, b, c, d, one, two, w) at h) in
    (
      body,
      e,
      sym (cc f)
          ∙ ap (λ (t : Bytes). 0x50 ∷ 0x54 ∷ 0x47 ∷ 0x4d ∷ 3 ∷ action ∷ 0xc3 ∷ 0x77 ∷ t)
              (append-nil body),
    )

module _ (k : HkCursor) (laws : HkCursorLaws k) (host : Host) where
  pub begin_complete :
      (g : Governance) (core : WormholeCore) (b payload body : Bytes) (vaa : Vaa) (action : ℕ)
      → host.is_in_mainnet ≡ false
      → IsDelivered g core b payload vaa
      → payload ≡ message action 0xc3 0x77 body
      → begin_update k host (action ∷ []) g b core
        ≡ ok (body, record g { last_sequence_processed = vaa.sequence })
  unfolding begin_update check_update_source expect_active_wormhole_contract data_source_eq
  begin_complete g core b payload body vaa action net d whole =
      let (p, e, x, y) =
        parse_message k laws host g action 0xc3 0x77 vaa.sequence body (rw net) d.newer in
      rw (
        d.verified,
        d.carries,
        whole,
        e,
        x,
        y,
        bytes_eq_refl (action ∷ []),
        d.chain,
        d.address,
        d.active,
        ==_refl g.governance_data_source.emitter_chain,
        bytes_eq_refl g.governance_data_source.emitter_address,
        ==_refl g.current_execution_plan.wormhole_core_contract,
      )

  -- The governance message that the helpers build and serialize from a fee makes the contract
  -- answer with that fee and store it, and changes nothing else but the last sequence. The mantissa
  -- and the exponent fit 8 bytes. Given: a test network, a cursor contract that meets
  -- `HkCursorLaws`, and a VAA with the message that the active Wormhole contract verifies, from the
  -- governance data source and with a sequence above the last one (`IsDelivered`).
  pub update_fee_value-encode :
      (stacks : StacksTransactions) (fee : PtgmUpdateFeeValue) (g : Governance)
      (core : WormholeCore) (b payload : Bytes) (vaa : Vaa)
      → host.is_in_mainnet ≡ false
      → fee.mantissa < 256 ^ 8
      → fee.exponent < 256 ^ 8
      → encode stacks (record no_options { update_fee_value = some fee }) ≡ some payload
      → IsDelivered g core b payload vaa
      → update_fee_value k host g b core
        ≡ ok (
          fee_of fee,
          record g { last_sequence_processed = vaa.sequence; fee_value = fee_of fee },
        )
  unfolding build_ptgm_vaa_payload update_fee_value serialize_body write_uint_be be_bytes
  update_fee_value-encode stacks fee g core b payload vaa net m x h d =
      let (body, e, f) = encode_shape stacks _ payload 3 refl refl refl refl refl h in
      rw
        (begin_complete g core b payload body vaa 3 net d f, parse_fee k laws stacks fee body m x e)

  -- The governance message that the helpers build and serialize from a stale price threshold makes
  -- the contract answer with that threshold and store it, and changes nothing else but the last
  -- sequence. The threshold fits 8 bytes. Given: a test network, a cursor contract that meets
  -- `HkCursorLaws`, and a VAA with the message that the active Wormhole contract verifies, from the
  -- governance data source and with a sequence above the last one (`IsDelivered`).
  pub update_stale_price_threshold-encode :
      (stacks : StacksTransactions) (update : PtgmUpdateStalePriceThreshold) (g : Governance)
      (core : WormholeCore) (b payload : Bytes) (vaa : Vaa)
      → host.is_in_mainnet ≡ false
      → update.threshold < 256 ^ 8
      → encode stacks (record no_options { update_stale_price_threshold = some update })
        ≡ some payload
      → IsDelivered g core b payload vaa
      → update_stale_price_threshold k host g b core
        ≡ ok (
          update.threshold,
          record g {
            last_sequence_processed = vaa.sequence;
            stale_price_threshold = update.threshold;
          },
        )
  unfolding build_ptgm_vaa_payload update_stale_price_threshold serialize_body write_uint_be
      be_bytes
  update_stale_price_threshold-encode stacks update g core b payload vaa net m h d =
      let (body, e, f) = encode_shape stacks _ payload 4 refl refl refl refl refl h in
      rw (
        begin_complete g core b payload body vaa 4 net d f,
        parse_threshold k laws stacks update body m e,
      )

  -- The governance message that the helpers build and serialize from a governance data source makes
  -- the contract answer with that source and store it, and changes nothing else but the last
  -- sequence. The chain fits 2 bytes and the address has 32 bytes. Given: a test network, a cursor
  -- contract that meets `HkCursorLaws`, and a VAA with the message that the active Wormhole
  -- contract verifies, from the governance data source and with a sequence above the last one
  -- (`IsDelivered`).
  pub update_governance_data_source-encode :
      (stacks : StacksTransactions) (source : Emitter) (g : Governance) (core : WormholeCore)
      (b payload : Bytes) (vaa : Vaa)
      → host.is_in_mainnet ≡ false
      → IsEmitter source
      → encode stacks (record no_options { update_governance_data_source = some source })
        ≡ some payload
      → IsDelivered g core b payload vaa
      → update_governance_data_source k host g b core
        ≡ ok (
          source_of source,
          record g {
            last_sequence_processed = vaa.sequence;
            governance_data_source = source_of source;
          },
        )
  unfolding build_ptgm_vaa_payload update_governance_data_source serialize_body write_uint_be
      be_bytes
  update_governance_data_source-encode stacks source g core b payload vaa net m h d =
      let (body, e, f) = encode_shape stacks _ payload 1 refl refl refl refl refl h in
      rw (
        begin_complete g core b payload body vaa 1 net d f,
        parse_governance_source k laws source body m e,
      )

  -- The governance message that the helpers build and serialize from a list of price data sources
  -- makes the contract answer with the whole list, in its order, and store it, and changes nothing
  -- else but the last sequence. The list has fewer than 256 sources, each with a chain that fits 2
  -- bytes and an address of 32 bytes. Given: a test network, a cursor contract that meets
  -- `HkCursorLaws`, and a VAA with the message that the active Wormhole contract verifies, from the
  -- governance data source and with a sequence above the last one (`IsDelivered`).
  pub update_prices_data_sources-encode :
      (stacks : StacksTransactions) (sources : List Emitter) (g : Governance) (core : WormholeCore)
      (b payload : Bytes) (vaa : Vaa)
      → host.is_in_mainnet ≡ false
      → All IsEmitter sources
      → length sources < 256
      → encode stacks (record no_options { update_prices_data_sources = some sources })
        ≡ some payload
      → IsDelivered g core b payload vaa
      → update_prices_data_sources k host g b core
        ≡ ok (
          map source_of sources,
          record g {
            last_sequence_processed = vaa.sequence;
            prices_data_sources = map source_of sources;
          },
        )
  unfolding build_ptgm_vaa_payload update_prices_data_sources serialize_body write_uint_be be_bytes
  update_prices_data_sources-encode stacks sources g core b payload vaa net m n h d =
      let (body, e, f) = encode_shape stacks _ payload 2 refl refl refl refl refl h in
      rw (
        begin_complete g core b payload body vaa 2 net d f,
        parse_prices_sources k laws stacks sources body m n e,
      )

  -- The message takes 9 bytes and 34 for each source.
  pub length-encode :
      (stacks : StacksTransactions) (sources : List Emitter) (payload : Bytes)
      → All IsEmitter sources
      → length sources < 256
      → encode stacks (record no_options { update_prices_data_sources = some sources })
        ≡ some payload
      → length payload ≡ 9 + 34 * length sources
  unfolding build_ptgm_vaa_payload serialize_body write_uint_be be_bytes
  length-encode stacks sources payload m n h =
      let (body, e, f) = encode_shape stacks _ payload 2 refl refl refl refl refl h in
      let size = length-serialize_prices_data_sources k laws stacks sources body m n e in
      ap length f ∙ omega (arith, size)

-- ===== src/Bridge/Contracts.antt =====
-- Governance updates that carry a principal, from end to end: the fee recipient and the contracts of
-- the execution plan, from unit-tests/pyth/helpers.ts to contracts/pyth-governance-v1.clar.
use stacks_pyth_bridge.Prelude.{◌<◌, ◌≡◌, refl, length, some, false}
use stacks_pyth_bridge.Prelude.Bytes.{Bytes, be_bytes}
use stacks_pyth_bridge.Clarity.Outcome.{Outcome, ok}
use stacks_pyth_bridge.Clarity.Cursor.{HkCursor, HkCursorLaws}
use stacks_pyth_bridge.Clarity.Types.{Principal, Vaa, WormholeCore}
use stacks_pyth_bridge.Governance.{Governance, ExecutionPlan}
use stacks_pyth_bridge.Governance.Ptgm.{Host}
use stacks_pyth_bridge.Governance.Update.{
  update_wormhole_core_contract, update_pyth_oracle_contract, update_pyth_decoder_contract,
  update_pyth_store_contract, update_fee_recipient_address,
}
use stacks_pyth_bridge.Harness.Buffers.{write_uint_be}
use stacks_pyth_bridge.Harness.Ptgm.{
  PtgmPrincipal, PtgmOptions, StacksTransactions, no_options, build_ptgm_vaa_payload,
  serialize_body, principal_bytes,
}
use stacks_pyth_bridge.Bridge.Ptgm.{parse_principal_bytes}
use stacks_pyth_bridge.Bridge.Updates.{IsDelivered, encode, encode_shape, begin_complete}

-- Which contract of the plan an update replaces, with the update, its message and its result.
pub data PlanContract : Type 0 where
  wormhole_core : PlanContract
  oracle : PlanContract
  decoder : PlanContract
  storage : PlanContract

abbrev pub update_plan_contract :
    PlanContract
    → HkCursor
    → Host
    → Governance
    → Bytes
    → WormholeCore
    → Outcome (ExecutionPlan × Governance)
update_plan_contract PlanContract.wormhole_core = update_wormhole_core_contract
update_plan_contract PlanContract.oracle = update_pyth_oracle_contract
update_plan_contract PlanContract.decoder = update_pyth_decoder_contract
update_plan_contract PlanContract.storage = update_pyth_store_contract

abbrev pub plan_options : PlanContract → PtgmPrincipal → PtgmOptions
plan_options PlanContract.wormhole_core p = record no_options { update_wormhole_contract = some p }
plan_options PlanContract.oracle p = record no_options { update_oracle_contract = some p }
plan_options PlanContract.decoder p = record no_options { update_decoder_contract = some p }
plan_options PlanContract.storage p = record no_options { update_store_contract = some p }

abbrev pub replaced : PlanContract → ExecutionPlan → Principal → ExecutionPlan
replaced PlanContract.wormhole_core plan p = record plan { wormhole_core_contract = p }
replaced PlanContract.oracle plan p = record plan { pyth_oracle_contract = p }
replaced PlanContract.decoder plan p = record plan { pyth_decoder_contract = p }
replaced PlanContract.storage plan p = record plan { pyth_storage_contract = p }

module _ (k : HkCursor) (laws : HkCursorLaws k) (host : Host) where
  -- The network and the library agree on the bytes of a principal, which one byte can count.
  abbrev pub IsPrincipal : StacksTransactions → PtgmPrincipal → Principal → Type 0
  IsPrincipal stacks payload p =
      (host.from_consensus_buff (principal_bytes stacks payload.address payload.contract_name)
        ≡ some p)
      × (length (principal_bytes stacks payload.address payload.contract_name) < 256)

  -- The governance message that the helpers build and serialize from a fee recipient makes the
  -- contract answer with the principal `p` and store it as the recipient, and changes nothing else
  -- but the last sequence. The network reads the serialized principal, of fewer than 256 bytes, as
  -- `p` (`IsPrincipal`). Given: a test network, a cursor contract that meets `HkCursorLaws`, and a
  -- VAA with the message that the active Wormhole contract verifies, from the governance data
  -- source and with a sequence above the last one (`IsDelivered`).
  pub update_fee_recipient_address-encode :
      (stacks : StacksTransactions) (payload : PtgmPrincipal) (p : Principal) (g : Governance)
      (core : WormholeCore) (b bytes : Bytes) (vaa : Vaa)
      → host.is_in_mainnet ≡ false
      → IsPrincipal stacks payload p
      → encode stacks (record no_options { update_fee_recipient = some payload }) ≡ some bytes
      → IsDelivered g core b bytes vaa
      → update_fee_recipient_address k host g b core
        ≡ ok (p, record g { last_sequence_processed = vaa.sequence; fee_recipient_address = p })
  unfolding build_ptgm_vaa_payload update_fee_recipient_address serialize_body write_uint_be
      be_bytes
  update_fee_recipient_address-encode stacks payload p g core b bytes vaa net (m, n) h d =
      let (body, e, f) = encode_shape stacks _ bytes 160 refl refl refl refl refl h in
      rw (
        begin_complete k laws host g core b bytes body vaa 160 net d f,
        parse_principal_bytes k laws stacks host payload p body m n e,
      )

  -- The round trip for the Wormhole contract of the plan.
  pub update_wormhole_core_contract-encode :
      (stacks : StacksTransactions) (payload : PtgmPrincipal) (p : Principal) (g : Governance)
      (core : WormholeCore) (b bytes : Bytes) (vaa : Vaa)
      → host.is_in_mainnet ≡ false
      → IsPrincipal stacks payload p
      → encode stacks (record no_options { update_wormhole_contract = some payload }) ≡ some bytes
      → IsDelivered g core b bytes vaa
      → update_wormhole_core_contract k host g b core
        ≡ ok (
          record g.current_execution_plan { wormhole_core_contract = p },
          record g {
            last_sequence_processed = vaa.sequence;
            current_execution_plan = record g.current_execution_plan { wormhole_core_contract = p };
          },
        )
  unfolding build_ptgm_vaa_payload update_wormhole_core_contract serialize_body write_uint_be
      be_bytes
  update_wormhole_core_contract-encode stacks payload p g core b bytes vaa net (m, n) h d =
      let (body, e, f) = encode_shape stacks _ bytes 6 refl refl refl refl refl h in
      rw (
        begin_complete k laws host g core b bytes body vaa 6 net d f,
        parse_principal_bytes k laws stacks host payload p body m n e,
      )

  -- The round trip for the oracle contract of the plan.
  pub update_pyth_oracle_contract-encode :
      (stacks : StacksTransactions) (payload : PtgmPrincipal) (p : Principal) (g : Governance)
      (core : WormholeCore) (b bytes : Bytes) (vaa : Vaa)
      → host.is_in_mainnet ≡ false
      → IsPrincipal stacks payload p
      → encode stacks (record no_options { update_oracle_contract = some payload }) ≡ some bytes
      → IsDelivered g core b bytes vaa
      → update_pyth_oracle_contract k host g b core
        ≡ ok (
          record g.current_execution_plan { pyth_oracle_contract = p },
          record g {
            last_sequence_processed = vaa.sequence;
            current_execution_plan = record g.current_execution_plan { pyth_oracle_contract = p };
          },
        )
  unfolding build_ptgm_vaa_payload update_pyth_oracle_contract serialize_body write_uint_be be_bytes
  update_pyth_oracle_contract-encode stacks payload p g core b bytes vaa net (m, n) h d =
      let (body, e, f) = encode_shape stacks _ bytes 0 refl refl refl refl refl h in
      rw (
        begin_complete k laws host g core b bytes body vaa 0 net d f,
        parse_principal_bytes k laws stacks host payload p body m n e,
      )

  -- The round trip for the decoder contract of the plan.
  pub update_pyth_decoder_contract-encode :
      (stacks : StacksTransactions) (payload : PtgmPrincipal) (p : Principal) (g : Governance)
      (core : WormholeCore) (b bytes : Bytes) (vaa : Vaa)
      → host.is_in_mainnet ≡ false
      → IsPrincipal stacks payload p
      → encode stacks (record no_options { update_decoder_contract = some payload }) ≡ some bytes
      → IsDelivered g core b bytes vaa
      → update_pyth_decoder_contract k host g b core
        ≡ ok (
          record g.current_execution_plan { pyth_decoder_contract = p },
          record g {
            last_sequence_processed = vaa.sequence;
            current_execution_plan = record g.current_execution_plan { pyth_decoder_contract = p };
          },
        )
  unfolding build_ptgm_vaa_payload update_pyth_decoder_contract serialize_body write_uint_be
      be_bytes
  update_pyth_decoder_contract-encode stacks payload p g core b bytes vaa net (m, n) h d =
      let (body, e, f) = encode_shape stacks _ bytes 162 refl refl refl refl refl h in
      rw (
        begin_complete k laws host g core b bytes body vaa 162 net d f,
        parse_principal_bytes k laws stacks host payload p body m n e,
      )

  -- The round trip for the storage contract of the plan.
  pub update_pyth_store_contract-encode :
      (stacks : StacksTransactions) (payload : PtgmPrincipal) (p : Principal) (g : Governance)
      (core : WormholeCore) (b bytes : Bytes) (vaa : Vaa)
      → host.is_in_mainnet ≡ false
      → IsPrincipal stacks payload p
      → encode stacks (record no_options { update_store_contract = some payload }) ≡ some bytes
      → IsDelivered g core b bytes vaa
      → update_pyth_store_contract k host g b core
        ≡ ok (
          record g.current_execution_plan { pyth_storage_contract = p },
          record g {
            last_sequence_processed = vaa.sequence;
            current_execution_plan = record g.current_execution_plan { pyth_storage_contract = p };
          },
        )
  unfolding build_ptgm_vaa_payload update_pyth_store_contract serialize_body write_uint_be be_bytes
  update_pyth_store_contract-encode stacks payload p g core b bytes vaa net (m, n) h d =
      let (body, e, f) = encode_shape stacks _ bytes 161 refl refl refl refl refl h in
      rw (
        begin_complete k laws host g core b bytes body vaa 161 net d f,
        parse_principal_bytes k laws stacks host payload p body m n e,
      )

  -- For each of the four contracts of the execution plan: the governance message that the helpers
  -- build and serialize from a new contract makes the governance contract answer with the plan with
  -- the principal `p` in its place, and store that plan, and changes nothing else but the last
  -- sequence. The network reads the serialized principal, of fewer than 256 bytes, as `p`
  -- (`IsPrincipal`). Given: a test network, a cursor contract that meets `HkCursorLaws`, and a VAA
  -- with the message that the active Wormhole contract verifies, from the governance data source
  -- and with a sequence above the last one (`IsDelivered`).
  pub update_plan_contract-encode :
      (which : PlanContract) (stacks : StacksTransactions) (payload : PtgmPrincipal) (p : Principal)
      (g : Governance) (core : WormholeCore) (b bytes : Bytes) (vaa : Vaa)
      → host.is_in_mainnet ≡ false
      → IsPrincipal stacks payload p
      → encode stacks (plan_options which payload) ≡ some bytes
      → IsDelivered g core b bytes vaa
      → update_plan_contract which k host g b core
        ≡ ok (
          replaced which g.current_execution_plan p,
          record g {
            last_sequence_processed = vaa.sequence;
            current_execution_plan = replaced which g.current_execution_plan p;
          },
        )
  update_plan_contract-encode PlanContract.wormhole_core = update_wormhole_core_contract-encode
  update_plan_contract-encode PlanContract.oracle = update_pyth_oracle_contract-encode
  update_plan_contract-encode PlanContract.decoder = update_pyth_decoder_contract-encode
  update_plan_contract-encode PlanContract.storage = update_pyth_store_contract-encode

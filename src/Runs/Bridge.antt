-- ===== src/Runs/Bridge.antt =====
-- Runs of the helpers of unit-tests/ and of what contracts/pyth-governance-v1.clar reads from them.
use stacks_pyth_bridge.Prelude.{ℕ, ◌<◌, ◌^◌, ◌≡◌, refl, some, List, [], ◌∷◌, ◌++◌, arith}
use stacks_pyth_bridge.Prelude.Bytes.{Bytes, be_bytes, be_signed}
use stacks_pyth_bridge.Prelude.Int.{negsuc}
use stacks_pyth_bridge.Clarity.Outcome.{ok}
use stacks_pyth_bridge.Clarity.Cursor.{flat, flat_laws}
use stacks_pyth_bridge.Governance.Update.{update_fee_value, update_fee_recipient_address}
use stacks_pyth_bridge.Harness.Buffers.{write_uint_be, concat, natural_to_buffer, bigint_to_buffer}
use stacks_pyth_bridge.Harness.Buffers.BigEndian.{
  FitsSigned, natural_to_buffer-be_bytes, bigint_to_buffer-be_signed,
}
use stacks_pyth_bridge.Harness.Wormhole.{Emitter}
use stacks_pyth_bridge.Harness.Ptgm.{
  PtgmUpdateFeeValue, PtgmUpdateStalePriceThreshold, PtgmPrincipal, StacksTransactions, no_options,
  build_ptgm_vaa_payload, serialize_ptgm_vaa_payload_to_buffer, serialize_data_source,
}
use stacks_pyth_bridge.Bridge.Ptgm.{IsEmitter}
use stacks_pyth_bridge.Bridge.Updates.{IsDelivered, encode, fee_of, update_fee_value-encode}
use stacks_pyth_bridge.Bridge.Contracts.{
  update_fee_recipient_address-encode, PlanContract, update_plan_contract,
  update_plan_contract-encode,
}
use stacks_pyth_bridge.Runs.Governance.{
  sample_state, sample_plan, sample_host, sample_core, sample_vaa,
}

abbrev stacks : StacksTransactions
stacks = record { contract_principal_cv = λ a n. 6 ∷ (a ++ n); principal_cv = λ a. 5 ∷ a }

delivered :
    (payload : Bytes)
    → IsDelivered sample_state (sample_core payload) [] payload (sample_vaa payload)
delivered payload = record {
  verified = refl;
  carries = refl;
  newer = omega arith;
  chain = refl;
  address = refl;
  active = refl;
}

-- The header of a message.
abbrev header : ℕ → Bytes → Bytes
header action body = 0x50 ∷ 0x54 ∷ 0x47 ∷ 0x4d ∷ 3 ∷ action ∷ 0xc3 ∷ 0x77 ∷ body

abbrev sample_fee : PtgmUpdateFeeValue
sample_fee = record { mantissa = 515; exponent = 2 }

abbrev fee_bytes : Bytes
fee_bytes = header 3 (0 ∷ 0 ∷ 0 ∷ 0 ∷ 0 ∷ 0 ∷ 2 ∷ 3 ∷ 0 ∷ 0 ∷ 0 ∷ 0 ∷ 0 ∷ 0 ∷ 0 ∷ 2 ∷ [])

fee_encoded :
    encode stacks (record no_options { update_fee_value = some sample_fee }) ≡ some fee_bytes
unfolding build_ptgm_vaa_payload serialize_ptgm_vaa_payload_to_buffer write_uint_be be_bytes concat
    bigint_to_buffer
fee_encoded = refl

update_fee_value-encode_example :
    update_fee_value flat sample_host sample_state [] (sample_core fee_bytes)
    ≡ ok (
      fee_of sample_fee,
      record sample_state { last_sequence_processed = 5; fee_value = fee_of sample_fee },
    )
update_fee_value-encode_example =
    update_fee_value-encode flat flat_laws sample_host stacks sample_fee sample_state
      (sample_core fee_bytes) [] fee_bytes (sample_vaa fee_bytes) refl (omega arith) (omega arith)
      fee_encoded (delivered fee_bytes)

abbrev sample_threshold : PtgmUpdateStalePriceThreshold
sample_threshold = record { threshold = 300 }

abbrev threshold_bytes : Bytes
threshold_bytes = header 4 (0 ∷ 0 ∷ 0 ∷ 0 ∷ 0 ∷ 0 ∷ 1 ∷ 44 ∷ [])

threshold_encoded :
    encode stacks (record no_options { update_stale_price_threshold = some sample_threshold })
    ≡ some threshold_bytes
unfolding build_ptgm_vaa_payload serialize_ptgm_vaa_payload_to_buffer write_uint_be be_bytes concat
    bigint_to_buffer serialize_data_source
threshold_encoded = refl

abbrev sample_emitter : ℕ → Emitter
sample_emitter chain = record { chain = chain; address = be_bytes 32 7 }

sample_emitter-IsEmitter : (chain : ℕ) → chain < 256 ^ 2 → IsEmitter (sample_emitter chain)
unfolding be_bytes
sample_emitter-IsEmitter chain h = (h, refl)

abbrev source_bytes : Bytes
source_bytes = header 1 (1 ∷ 2 ∷ be_bytes 32 7)

source_encoded :
    encode stacks (record no_options { update_governance_data_source = some (sample_emitter 258) })
    ≡ some source_bytes
unfolding build_ptgm_vaa_payload serialize_ptgm_vaa_payload_to_buffer write_uint_be be_bytes concat
    bigint_to_buffer serialize_data_source
source_encoded = refl

abbrev two_sources : List Emitter
two_sources = sample_emitter 258 ∷ sample_emitter 1 ∷ []

abbrev sources_bytes : Bytes
sources_bytes = header 2 (2 ∷ 1 ∷ 2 ∷ (be_bytes 32 7 ++ 0 ∷ 1 ∷ be_bytes 32 7))

sources_encoded :
    encode stacks (record no_options { update_prices_data_sources = some two_sources })
    ≡ some sources_bytes
unfolding build_ptgm_vaa_payload serialize_ptgm_vaa_payload_to_buffer write_uint_be be_bytes concat
    bigint_to_buffer serialize_data_source
sources_encoded = refl

abbrev sample_contract : PtgmPrincipal
sample_contract = record { address = 40 ∷ 41 ∷ []; contract_name = some (42 ∷ []) }

abbrev contract_bytes : ℕ → Bytes
contract_bytes action = header action (4 ∷ 6 ∷ 40 ∷ 41 ∷ 42 ∷ [])

fee_recipient_encoded :
    encode stacks (record no_options { update_fee_recipient = some sample_contract })
    ≡ some (contract_bytes 160)
unfolding build_ptgm_vaa_payload serialize_ptgm_vaa_payload_to_buffer write_uint_be be_bytes concat
    bigint_to_buffer serialize_data_source
fee_recipient_encoded = refl

update_fee_recipient_address-encode_example :
    update_fee_recipient_address flat sample_host sample_state [] (sample_core (contract_bytes 160))
    ≡ ok (77, record sample_state { last_sequence_processed = 5; fee_recipient_address = 77 })
update_fee_recipient_address-encode_example =
    update_fee_recipient_address-encode flat flat_laws sample_host stacks sample_contract 77
      sample_state (sample_core (contract_bytes 160)) [] (contract_bytes 160)
      (sample_vaa (contract_bytes 160)) refl (refl, omega arith) fee_recipient_encoded
      (delivered (contract_bytes 160))

wormhole_contract_encoded :
    encode stacks (record no_options { update_wormhole_contract = some sample_contract })
    ≡ some (contract_bytes 6)
unfolding build_ptgm_vaa_payload serialize_ptgm_vaa_payload_to_buffer write_uint_be be_bytes concat
    bigint_to_buffer serialize_data_source
wormhole_contract_encoded = refl

oracle_contract_encoded :
    encode stacks (record no_options { update_oracle_contract = some sample_contract })
    ≡ some (contract_bytes 0)
unfolding build_ptgm_vaa_payload serialize_ptgm_vaa_payload_to_buffer write_uint_be be_bytes concat
    bigint_to_buffer serialize_data_source
oracle_contract_encoded = refl

decoder_contract_encoded :
    encode stacks (record no_options { update_decoder_contract = some sample_contract })
    ≡ some (contract_bytes 162)
unfolding build_ptgm_vaa_payload serialize_ptgm_vaa_payload_to_buffer write_uint_be be_bytes concat
    bigint_to_buffer serialize_data_source
decoder_contract_encoded = refl

store_contract_encoded :
    encode stacks (record no_options { update_store_contract = some sample_contract })
    ≡ some (contract_bytes 161)
unfolding build_ptgm_vaa_payload serialize_ptgm_vaa_payload_to_buffer write_uint_be be_bytes concat
    bigint_to_buffer serialize_data_source
store_contract_encoded = refl

minus_five-FitsSigned : FitsSigned 4 (negsuc 4)
minus_five-FitsSigned = omega arith

bigint_to_buffer-be_signed_example : be_signed 4 (bigint_to_buffer (negsuc 4) 4) ≡ negsuc 4
bigint_to_buffer-be_signed_example = bigint_to_buffer-be_signed 4 (negsuc 4) minus_five-FitsSigned

natural_to_buffer-be_bytes_example : natural_to_buffer 515 8 ≡ be_bytes 8 515
natural_to_buffer-be_bytes_example = natural_to_buffer-be_bytes 8 515 (omega arith)

update_plan_contract-encode_example :
    update_plan_contract PlanContract.decoder flat sample_host sample_state []
      (sample_core (contract_bytes 162))
    ≡ ok (
      record sample_plan { pyth_decoder_contract = 77 },
      record sample_state {
        last_sequence_processed = 5;
        current_execution_plan = record sample_plan { pyth_decoder_contract = 77 };
      },
    )
update_plan_contract-encode_example =
    update_plan_contract-encode flat flat_laws sample_host PlanContract.decoder stacks
      sample_contract 77 sample_state (sample_core (contract_bytes 162)) [] (contract_bytes 162)
      (sample_vaa (contract_bytes 162)) refl (refl, omega arith) decoder_contract_encoded
      (delivered (contract_bytes 162))

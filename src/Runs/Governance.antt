-- ===== src/Runs/Governance.antt =====
-- Runs of contracts/pyth-governance-v1.clar: an update of the fee, and the checks around it.
use stacks_pyth_bridge.Prelude.{◌≡◌, ◌⊎◌, refl, some, none, false, true, [], ◌∷◌, arith}
use stacks_pyth_bridge.Prelude.Bytes.{Bytes, bytes_eq, be_from}
use stacks_pyth_bridge.Clarity.Outcome.{ok, err}
use stacks_pyth_bridge.Clarity.Cursor.{flat}
use stacks_pyth_bridge.Clarity.Types.{DataSource, Vaa, WormholeCore, data_source_eq}
use stacks_pyth_bridge.Governance.{
  Governance, ExecutionPlan, check_update_source, expect_active_wormhole_contract,
  check_execution_flow, err_unauthorized_access,
}
use stacks_pyth_bridge.Governance.Ptgm.{
  Host, Ptgm, parse_and_verify_ptgm, parse_and_verify_fee_value, err_outdated,
}
use stacks_pyth_bridge.Governance.Update.{begin_update, update, Update, update_fee_value}
use stacks_pyth_bridge.Governance.Update.Replay.{
  Authorized, Reach, update-Authorized, update-Reach_outdated,
}
use stacks_pyth_bridge.Governance.Flow.{IsDistinct, IsAllowed, check_execution_flow_exact}

abbrev pub sample_plan : ExecutionPlan
sample_plan = record {
  pyth_oracle_contract = 1;
  pyth_decoder_contract = 2;
  pyth_storage_contract = 3;
  wormhole_core_contract = 4;
}

abbrev pub sample_source : DataSource
sample_source = record { emitter_chain = 1; emitter_address = 9 ∷ [] }

abbrev pub sample_state : Governance
sample_state = record {
  governance_data_source = sample_source;
  prices_data_sources = [];
  fee_value = record { mantissa = 1; exponent = 1 };
  stale_price_threshold = 7200;
  fee_recipient_address = 8;
  last_sequence_processed = 4;
  current_execution_plan = sample_plan;
}

abbrev pub sample_host : Host
sample_host = record { is_in_mainnet = false; from_consensus_buff = λ _. some 77 }

abbrev pub sample_vaa : Bytes → Vaa
sample_vaa payload = record {
  version = 1;
  guardian_set_id = 1;
  signatures_len = 0;
  signatures = [];
  timestamp = 0;
  nonce = 0;
  emitter_chain = 1;
  emitter_address = 9 ∷ [];
  sequence = 5;
  consistency_level = 0;
  payload = payload;
}

-- A Wormhole contract that accepts every buffer as a VAA with this payload.
abbrev pub sample_core : Bytes → WormholeCore
sample_core payload = record { address = 4; parse_and_verify_vaa = λ _. ok (sample_vaa payload) }

abbrev fee_payload : Bytes
fee_payload =
    0x50 ∷ 0x54 ∷ 0x47 ∷ 0x4d ∷ 3 ∷ 3 ∷ 0xc3 ∷ 0x77 ∷ 0 ∷ 0 ∷ 0 ∷ 0 ∷ 0 ∷ 0 ∷ 0 ∷ 2 ∷ 0 ∷ 0 ∷ 0 ∷ 0
    ∷ 0 ∷ 0 ∷ 0 ∷ 3 ∷ []

abbrev updated_state : Governance
updated_state = record sample_state {
  last_sequence_processed = 5;
  fee_value = record { mantissa = 2; exponent = 3 };
}

fee_run :
    update flat sample_host Update.fee_value sample_state [] (sample_core fee_payload)
    ≡ ok updated_state
unfolding update update_fee_value begin_update parse_and_verify_ptgm parse_and_verify_fee_value flat
    bytes_eq check_update_source expect_active_wormhole_contract data_source_eq be_from
fee_run = refl

update-Authorized_example :
    (vaa : Vaa) × ((sample_core fee_payload).parse_and_verify_vaa [] ≡ ok vaa)
    × (p : Ptgm) × (g1 : Governance) × (parse_and_verify_ptgm flat sample_host sample_state
          vaa.payload vaa.sequence
        ≡ ok (p, g1))
    × (p.action ≡ 3 ∷ [])
    × Authorized sample_state (sample_core fee_payload) vaa updated_state
update-Authorized_example =
    update-Authorized flat sample_host Update.fee_value sample_state updated_state []
      (sample_core fee_payload) fee_run

update-Reach_outdated_example :
    update flat sample_host Update.stale_price_threshold updated_state
      (1 ∷ [])
      (sample_core fee_payload)
    ≡ err err_outdated
update-Reach_outdated_example =
    update-Reach_outdated flat sample_host Update.fee_value Update.stale_price_threshold
      sample_state updated_state updated_state [] (1 ∷ []) (sample_core fee_payload)
      (sample_core fee_payload) fee_run Reach.here refl

pub sample-IsDistinct : IsDistinct sample_plan
sample-IsDistinct = record {
  storage_decoder = λ e. absurd (omega arith);
  storage_oracle = λ e. absurd (omega arith);
  decoder_oracle = λ e. absurd (omega arith);
}

check_execution_flow_exact_example :
    (IsAllowed sample_plan 3 1 none × (check_execution_flow sample_state 3 1 none ≡ ok true))
    ⊎ ((IsAllowed sample_plan 3 1 none → ⊥)
        × (check_execution_flow sample_state 3 1 none ≡ err err_unauthorized_access))
check_execution_flow_exact_example =
    check_execution_flow_exact sample_state 3 1 none sample-IsDistinct

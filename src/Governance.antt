-- ===== src/Governance.antt =====
-- contracts/pyth-governance-v1.clar: the data vars, the control flow checks and the read-only
-- functions.
pub mod Ptgm
pub mod Update
pub mod Flow
use stacks_pyth_bridge.Prelude.{ℕ, ◌*◌, Bool, true, false, ◌==◌, List, [], ◌∷◌}
use stacks_pyth_bridge.Prelude.{Option, if◌then◌else◌}
use stacks_pyth_bridge.Prelude.Bytes.{Bytes, be_bytes}
use stacks_pyth_bridge.Clarity.Outcome.{Outcome, ok, err, ◌>>=◌, ◌>>◌, asserts, unwrap_some}
use stacks_pyth_bridge.Clarity.Types.{Principal, DataSource, data_source_eq}

abbrev pub err_unauthorized_access : ℕ
err_unauthorized_access = 4004

abbrev pub err_unauthorized_update : ℕ
err_unauthorized_update = 4006

pub record ExecutionPlan : Type 0 where
  pub pyth_oracle_contract : Principal
  pub pyth_decoder_contract : Principal
  pub pyth_storage_contract : Principal
  pub wormhole_core_contract : Principal

-- The trait references that a caller of the oracle passes, by `contract-of`.
pub record TraitPlan : Type 0 where
  pub pyth_storage_contract : Principal
  pub pyth_decoder_contract : Principal
  pub wormhole_core_contract : Principal

pub record FeeValue : Type 0 where
  pub mantissa : ℕ
  pub exponent : ℕ

pub record FeeInfo : Type 0 where
  pub mantissa : ℕ
  pub exponent : ℕ
  pub address : Principal

pub record Governance : Type 0 where
  pub governance_data_source : DataSource
  pub prices_data_sources : List DataSource
  pub fee_value : FeeValue
  pub stale_price_threshold : ℕ
  pub fee_recipient_address : Principal
  pub last_sequence_processed : ℕ
  pub current_execution_plan : ExecutionPlan

-- The values of the `define-data-var` forms, for the network, the recipient and the contracts of
-- the deployment.
unfoldable pub initial : Bool → Principal → ExecutionPlan → Governance
initial is_in_mainnet recipient plan = record {
  governance_data_source = record {
    emitter_chain = 1;
    emitter_address =
        be_bytes 32 0x5635979a221c34931e32620b9293a463065555ea71fe97cd6237ade875b12e9e;
  };
  prices_data_sources =
      record {
        emitter_chain = 1;
        emitter_address =
            be_bytes 32 0x6bb14509a612f01fbbc4cffeebd4bbfb492a86df717ebe92eb6df432a3f00a25;
      }
      ∷ record {
        emitter_chain = 26;
        emitter_address =
            be_bytes 32 0xf8cd23c2ab91237730770bbea08d61005cdda0984348f3f6eecb559638c0bba0;
      }
      ∷ record {
        emitter_chain = 26;
        emitter_address =
            be_bytes 32 0xe101faedac5851e32b9b23b5f9411a8c2bac4aae3ed4dd7b811dd1a72ea4aa71;
      }
      ∷ [];
  fee_value = record { mantissa = 1; exponent = 1 };
  stale_price_threshold = if is_in_mainnet then 2 * 60 * 60 else 5 * 365 * 24 * 60 * 60;
  fee_recipient_address = recipient;
  last_sequence_processed = 0;
  current_execution_plan = plan;
}

unfoldable pub expect_contract_call_performed_by_expected_oracle_contract :
    Principal → ExecutionPlan → Outcome Bool
expect_contract_call_performed_by_expected_oracle_contract former_contract_caller expected_plan = do
  asserts (former_contract_caller == expected_plan.pyth_oracle_contract) err_unauthorized_access
  ok true

unfoldable pub expect_active_storage_contract : Principal → ExecutionPlan → Outcome Bool
expect_active_storage_contract storage_contract expected_plan = do
  asserts (storage_contract == expected_plan.pyth_storage_contract) err_unauthorized_access
  ok true

unfoldable pub expect_active_decoder_contract : Principal → ExecutionPlan → Outcome Bool
expect_active_decoder_contract decoder_contract expected_plan = do
  asserts (decoder_contract == expected_plan.pyth_decoder_contract) err_unauthorized_access
  ok true

unfoldable pub expect_active_wormhole_contract : Principal → ExecutionPlan → Outcome Bool
expect_active_wormhole_contract wormhole_contract expected_plan = do
  asserts (wormhole_contract == expected_plan.wormhole_core_contract) err_unauthorized_access
  ok true

-- The branch of the oracle: the three references are those of the plan.
unfoldable pub check_plan : Option TraitPlan → ExecutionPlan → Outcome Bool
unfolding expect_active_storage_contract expect_active_decoder_contract
    expect_active_wormhole_contract
check_plan execution_plan_opt expected = do
  execution_plan ← unwrap_some execution_plan_opt err_unauthorized_access
  _ ← expect_active_storage_contract execution_plan.pyth_storage_contract expected
  _ ← expect_active_decoder_contract execution_plan.pyth_decoder_contract expected
  expect_active_wormhole_contract execution_plan.wormhole_core_contract expected

-- `contract_caller` is the contract that calls, `former_contract_caller` the caller that it reports.
unfoldable pub check_execution_flow :
    Governance → Principal → Principal → Option TraitPlan → Outcome Bool
unfolding check_plan expect_contract_call_performed_by_expected_oracle_contract
check_execution_flow g contract_caller former_contract_caller execution_plan_opt = do
  let expected = g.current_execution_plan
  success ←
      if contract_caller == expected.pyth_storage_contract
      then expect_contract_call_performed_by_expected_oracle_contract former_contract_caller
          expected
      else if contract_caller == expected.pyth_decoder_contract
      then expect_contract_call_performed_by_expected_oracle_contract former_contract_caller
          expected
      else if contract_caller == expected.pyth_oracle_contract
      then check_plan execution_plan_opt expected
      else ok false
  if success then ok true else err err_unauthorized_access

unfoldable pub check_storage_contract : Governance → Principal → Outcome Bool
unfolding expect_active_storage_contract
check_storage_contract g storage_contract =
    expect_active_storage_contract storage_contract g.current_execution_plan

unfoldable pub get_fee_info : Governance → FeeInfo
get_fee_info g = record {
  mantissa = g.fee_value.mantissa;
  exponent = g.fee_value.exponent;
  address = g.fee_recipient_address;
}

unfoldable pub check_update_source : Governance → ℕ → Bytes → Outcome Bool
unfolding data_source_eq
check_update_source g emitter_chain emitter_address = do
  asserts
      (data_source_eq g.governance_data_source
        (record { emitter_chain = emitter_chain; emitter_address = emitter_address }))
      err_unauthorized_update
  ok true

-- ===== src/Governance/Update.antt =====
-- The nine public updates of contracts/pyth-governance-v1.clar. Each returns the value that it
-- stores and the new state; an error rolls back whatever the call has set.
pub mod Replay
use stacks_pyth_bridge.Prelude.{ℕ, List, [], ◌∷◌}
use stacks_pyth_bridge.Prelude.Bytes.{Bytes, bytes_eq}
use stacks_pyth_bridge.Clarity.Outcome.{Outcome, ok, ◌>>=◌, ◌>>◌, asserts}
use stacks_pyth_bridge.Clarity.Cursor.{HkCursor}
use stacks_pyth_bridge.Clarity.Types.{Principal, DataSource, Vaa, WormholeCore}
use stacks_pyth_bridge.Governance.{
  Governance, ExecutionPlan, FeeValue, check_update_source, expect_active_wormhole_contract,
}
use stacks_pyth_bridge.Governance.Ptgm.{
  Host, parse_and_verify_ptgm, parse_principal, parse_and_verify_fee_value,
  parse_and_verify_stale_price_threshold, parse_and_verify_governance_data_source,
  parse_and_verify_prices_data_sources,
}

abbrev pub err_unexpected_action : ℕ
err_unexpected_action = 4001

abbrev pub ptgm_update_pyth_oracle_address : Bytes
ptgm_update_pyth_oracle_address = 0x00 ∷ []

abbrev pub ptgm_update_governance_data_source : Bytes
ptgm_update_governance_data_source = 0x01 ∷ []

abbrev pub ptgm_update_prices_data_sources : Bytes
ptgm_update_prices_data_sources = 0x02 ∷ []

abbrev pub ptgm_update_fee : Bytes
ptgm_update_fee = 0x03 ∷ []

abbrev pub ptgm_stale_price_threshold : Bytes
ptgm_stale_price_threshold = 0x04 ∷ []

abbrev pub ptgm_update_wormhole_core_address : Bytes
ptgm_update_wormhole_core_address = 0x06 ∷ []

abbrev pub ptgm_update_recipient_address : Bytes
ptgm_update_recipient_address = 0xa0 ∷ []

abbrev pub ptgm_update_pyth_store_address : Bytes
ptgm_update_pyth_store_address = 0xa1 ∷ []

abbrev pub ptgm_update_pyth_decoder_address : Bytes
ptgm_update_pyth_decoder_address = 0xa2 ∷ []

module _ (k : HkCursor) (host : Host) where
  -- The steps with which every update begins: the VAA, the message in it, the action, the source
  -- and the Wormhole contract. Gives the body of the message and the state with its sequence.
  unfoldable pub begin_update :
      Bytes → Governance → Bytes → WormholeCore → Outcome (Bytes × Governance)
  begin_update action g vaa_bytes core = do
    vaa ← core.parse_and_verify_vaa vaa_bytes
    (ptgm, g') ← parse_and_verify_ptgm k host g vaa.payload vaa.sequence
    asserts (bytes_eq ptgm.action action) err_unexpected_action
    _ ← check_update_source g' vaa.emitter_chain vaa.emitter_address
    _ ← expect_active_wormhole_contract core.address g.current_execution_plan
    ok (ptgm.body, g')

  unfoldable pub update_fee_value :
      Governance → Bytes → WormholeCore → Outcome (FeeValue × Governance)
  update_fee_value g vaa_bytes core = do
    (body, g') ← begin_update ptgm_update_fee g vaa_bytes core
    updated_data ← parse_and_verify_fee_value k body
    ok (updated_data, record g' { fee_value = updated_data })

  unfoldable pub update_stale_price_threshold :
      Governance → Bytes → WormholeCore → Outcome (ℕ × Governance)
  update_stale_price_threshold g vaa_bytes core = do
    (body, g') ← begin_update ptgm_stale_price_threshold g vaa_bytes core
    updated_data ← parse_and_verify_stale_price_threshold k body
    ok (updated_data, record g' { stale_price_threshold = updated_data })

  unfoldable pub update_fee_recipient_address :
      Governance → Bytes → WormholeCore → Outcome (Principal × Governance)
  update_fee_recipient_address g vaa_bytes core = do
    (body, g') ← begin_update ptgm_update_recipient_address g vaa_bytes core
    updated_data ← parse_principal k host body
    ok (updated_data, record g' { fee_recipient_address = updated_data })

  -- The four updates of the execution plan merge one contract into the plan that stood before.
  unfoldable pub update_wormhole_core_contract :
      Governance → Bytes → WormholeCore → Outcome (ExecutionPlan × Governance)
  update_wormhole_core_contract g vaa_bytes core = do
    (body, g') ← begin_update ptgm_update_wormhole_core_address g vaa_bytes core
    updated_data ← parse_principal k host body
    let plan = record g.current_execution_plan { wormhole_core_contract = updated_data }
    ok (plan, record g' { current_execution_plan = plan })

  unfoldable pub update_pyth_oracle_contract :
      Governance → Bytes → WormholeCore → Outcome (ExecutionPlan × Governance)
  update_pyth_oracle_contract g vaa_bytes core = do
    (body, g') ← begin_update ptgm_update_pyth_oracle_address g vaa_bytes core
    updated_data ← parse_principal k host body
    let plan = record g.current_execution_plan { pyth_oracle_contract = updated_data }
    ok (plan, record g' { current_execution_plan = plan })

  unfoldable pub update_pyth_decoder_contract :
      Governance → Bytes → WormholeCore → Outcome (ExecutionPlan × Governance)
  update_pyth_decoder_contract g vaa_bytes core = do
    (body, g') ← begin_update ptgm_update_pyth_decoder_address g vaa_bytes core
    updated_data ← parse_principal k host body
    let plan = record g.current_execution_plan { pyth_decoder_contract = updated_data }
    ok (plan, record g' { current_execution_plan = plan })

  unfoldable pub update_pyth_store_contract :
      Governance → Bytes → WormholeCore → Outcome (ExecutionPlan × Governance)
  update_pyth_store_contract g vaa_bytes core = do
    (body, g') ← begin_update ptgm_update_pyth_store_address g vaa_bytes core
    updated_data ← parse_principal k host body
    let plan = record g.current_execution_plan { pyth_storage_contract = updated_data }
    ok (plan, record g' { current_execution_plan = plan })

  unfoldable pub update_prices_data_sources :
      Governance → Bytes → WormholeCore → Outcome (List DataSource × Governance)
  update_prices_data_sources g vaa_bytes core = do
    (body, g') ← begin_update ptgm_update_prices_data_sources g vaa_bytes core
    updated_data ← parse_and_verify_prices_data_sources k body
    ok (updated_data, record g' { prices_data_sources = updated_data })

  unfoldable pub update_governance_data_source :
      Governance → Bytes → WormholeCore → Outcome (DataSource × Governance)
  update_governance_data_source g vaa_bytes core = do
    (body, g') ← begin_update ptgm_update_governance_data_source g vaa_bytes core
    updated_data ← parse_and_verify_governance_data_source k body
    ok (updated_data, record g' { governance_data_source = updated_data })

-- Which of the nine functions a transaction calls.
pub data Update : Type 0 where
  fee_value stale_price_threshold fee_recipient_address wormhole_core_contract : Update
  pyth_oracle_contract pyth_decoder_contract pyth_store_contract : Update
  prices_data_sources governance_data_source : Update

abbrev pub action : Update → Bytes
action fee_value = ptgm_update_fee
action stale_price_threshold = ptgm_stale_price_threshold
action fee_recipient_address = ptgm_update_recipient_address
action wormhole_core_contract = ptgm_update_wormhole_core_address
action pyth_oracle_contract = ptgm_update_pyth_oracle_address
action pyth_decoder_contract = ptgm_update_pyth_decoder_address
action pyth_store_contract = ptgm_update_pyth_store_address
action prices_data_sources = ptgm_update_prices_data_sources
action governance_data_source = ptgm_update_governance_data_source

abbrev new_state : {A : Type 0} → Outcome (A × Governance) → Outcome Governance
new_state r = r >>= λ t. ok (t.1)

module _ (k : HkCursor) (host : Host) where
  -- The state after a call of one of the nine.
  unfoldable pub update : Update → Governance → Bytes → WormholeCore → Outcome Governance
  unfolding update_fee_value update_stale_price_threshold update_fee_recipient_address
      update_wormhole_core_contract update_pyth_oracle_contract update_pyth_decoder_contract
      update_pyth_store_contract update_prices_data_sources update_governance_data_source
  update fee_value g b c = new_state (update_fee_value k host g b c)
  update stale_price_threshold g b c = new_state (update_stale_price_threshold k host g b c)
  update fee_recipient_address g b c = new_state (update_fee_recipient_address k host g b c)
  update wormhole_core_contract g b c = new_state (update_wormhole_core_contract k host g b c)
  update pyth_oracle_contract g b c = new_state (update_pyth_oracle_contract k host g b c)
  update pyth_decoder_contract g b c = new_state (update_pyth_decoder_contract k host g b c)
  update pyth_store_contract g b c = new_state (update_pyth_store_contract k host g b c)
  update prices_data_sources g b c = new_state (update_prices_data_sources k host g b c)
  update governance_data_source g b c = new_state (update_governance_data_source k host g b c)

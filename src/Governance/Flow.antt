-- ===== src/Governance/Flow.antt =====
-- Which calls the control flow check of contracts/pyth-governance-v1.clar lets through.
use stacks_pyth_bridge.Prelude.{◌≡◌, ◌≢◌, ◌⊎◌, true, Option, some, none, arith}
use stacks_pyth_bridge.Clarity.Outcome.{ok, err}
use stacks_pyth_bridge.Clarity.Types.{Principal}
use stacks_pyth_bridge.Governance.{
  Governance, ExecutionPlan, TraitPlan, check_execution_flow, err_unauthorized_access,
}

-- The plan names three contracts.
pub record IsDistinct (p : ExecutionPlan) : Type 0 where
  pub storage_decoder : p.pyth_storage_contract ≢ p.pyth_decoder_contract
  pub storage_oracle : p.pyth_storage_contract ≢ p.pyth_oracle_contract
  pub decoder_oracle : p.pyth_decoder_contract ≢ p.pyth_oracle_contract

-- The references are those of the plan.
abbrev pub Matches : TraitPlan → ExecutionPlan → Type 0
Matches t p =
    (t.pyth_storage_contract ≡ p.pyth_storage_contract)
    × (t.pyth_decoder_contract ≡ p.pyth_decoder_contract)
    × (t.wormhole_core_contract ≡ p.wormhole_core_contract)

-- The storage and the decoder serve the oracle; the oracle serves anyone who names the contracts of
-- the plan.
abbrev pub IsAllowed : ExecutionPlan → Principal → Principal → Option TraitPlan → Type 0
IsAllowed p caller former opt =
    ((caller ≡ p.pyth_storage_contract) × (former ≡ p.pyth_oracle_contract))
    ⊎ ((caller ≡ p.pyth_decoder_contract) × (former ≡ p.pyth_oracle_contract))
    ⊎ ((caller ≡ p.pyth_oracle_contract) × (t : TraitPlan) × (opt ≡ some t) × Matches t p)

-- If the plan names three different contracts, the check answers `ok true` to exactly the allowed
-- calls (storage or decoder called by the oracle, or the oracle with the contracts of the plan),
-- and the error for unauthorized access to every other call.
pub check_execution_flow_exact :
    (g : Governance) (caller former : Principal) (opt : Option TraitPlan)
    → IsDistinct g.current_execution_plan
    → (IsAllowed g.current_execution_plan caller former opt
        × (check_execution_flow g caller former opt ≡ ok true))
      ⊎ ((IsAllowed g.current_execution_plan caller former opt → ⊥)
          × (check_execution_flow g caller former opt ≡ err err_unauthorized_access))
unfolding check_execution_flow
check_execution_flow_exact g caller former none d = ground arith
check_execution_flow_exact g caller former (some t) d = ground arith

-- ===== src/Governance/Ptgm.antt =====
-- The parsers of contracts/pyth-governance-v1.clar: the governance message (PTGM) and the bodies
-- of its actions.
use stacks_pyth_bridge.Prelude.{ℕ, ◌+◌, Bool, Option, none, some, List, [], ◌∷◌, ltb, if◌then◌else◌}
use stacks_pyth_bridge.Prelude.Bytes.{Bytes, bytes_eq}
use stacks_pyth_bridge.Clarity.Outcome.{
  Outcome, ok, ◌>>=◌, ◌>>◌, asserts, unwrap, unwrap_some, unwrap_panic,
}
use stacks_pyth_bridge.Clarity.Cursor.{Reading, HkCursor}
use stacks_pyth_bridge.Clarity.Walk.{walk}
use stacks_pyth_bridge.Clarity.Types.{Principal, DataSource}
use stacks_pyth_bridge.Governance.{Governance, FeeValue}

abbrev pub ptgm_magic : Bytes
ptgm_magic = 0x50 ∷ 0x54 ∷ 0x47 ∷ 0x4d ∷ []

abbrev pub expected_module : Bytes
expected_module = 0x03 ∷ []

abbrev pub err_unexpected_action_payload : ℕ
err_unexpected_action_payload = 4002

abbrev pub err_invalid_action_payload : ℕ
err_invalid_action_payload = 4003

abbrev pub err_outdated : ℕ
err_outdated = 4005

abbrev pub err_invalid_ptgm : ℕ
err_invalid_ptgm = 4007

-- What the chain gives the contract: `is-in-mainnet`, and `from-consensus-buff?` at `principal`.
pub record Host : Type 0 where
  pub is_in_mainnet : Bool
  pub from_consensus_buff : Bytes → Option Principal

abbrev pub expected_chain_id : Host → Bytes
expected_chain_id host = if host.is_in_mainnet then 0xea ∷ 0x86 ∷ [] else 0xc3 ∷ 0x77 ∷ []

pub record Ptgm : Type 0 where
  pub action : Bytes
  pub target_chain_id : Bytes
  pub module_id : Bytes
  pub cursor : Reading Bytes
  pub body : Bytes

module _ (k : HkCursor) (host : Host) where
  -- The message, and the state with the sequence recorded.
  unfoldable pub parse_and_verify_ptgm : Governance → Bytes → ℕ → Outcome (Ptgm × Governance)
  parse_and_verify_ptgm g ptgm_bytes sequence = do
    cursor_magic ← unwrap (k.read_buff 4 (record { bytes = ptgm_bytes; pos = 0 })) err_invalid_ptgm
    cursor_module ← unwrap (k.read_buff 1 cursor_magic.next) err_invalid_ptgm
    cursor_action ← unwrap (k.read_buff 1 cursor_module.next) err_invalid_ptgm
    cursor_target_chain_id ← unwrap (k.read_buff 2 cursor_action.next) err_invalid_ptgm
    cursor_body ← unwrap (k.read_buff_8192_max cursor_target_chain_id.next none) err_invalid_ptgm
    asserts (bytes_eq cursor_magic.value ptgm_magic) err_invalid_ptgm
    asserts (bytes_eq cursor_target_chain_id.value (expected_chain_id host)) err_invalid_ptgm
    asserts (bytes_eq cursor_module.value expected_module) err_invalid_ptgm
    asserts (ltb g.last_sequence_processed sequence) err_outdated
    ok (
      record {
        action = cursor_action.value;
        target_chain_id = cursor_target_chain_id.value;
        module_id = cursor_module.value;
        cursor = cursor_target_chain_id;
        body = cursor_body.value;
      },
      record g { last_sequence_processed = sequence },
    )

  unfoldable pub parse_principal : Bytes → Outcome Principal
  parse_principal ptgm_body = do
    cursor_principal_len ← k.read_uint 1 (k.new ptgm_body none)
    let principal_bytes = k.slice cursor_principal_len.next (some cursor_principal_len.value)
    unwrap_some (host.from_consensus_buff principal_bytes) err_unexpected_action_payload

module _ (k : HkCursor) where
  unfoldable pub parse_and_verify_fee_value : Bytes → Outcome FeeValue
  parse_and_verify_fee_value ptgm_body = do
    cursor_mantissa ← unwrap (k.read_uint 8 (k.new ptgm_body none)) err_invalid_action_payload
    cursor_exponent ← unwrap (k.read_uint 8 cursor_mantissa.next) err_invalid_action_payload
    ok (record { mantissa = cursor_mantissa.value; exponent = cursor_exponent.value })

  unfoldable pub parse_and_verify_stale_price_threshold : Bytes → Outcome ℕ
  parse_and_verify_stale_price_threshold ptgm_body = do
    cursor_threshold ← unwrap (k.read_uint 8 (k.new ptgm_body none)) err_invalid_action_payload
    ok cursor_threshold.value

  unfoldable pub parse_and_verify_governance_data_source : Bytes → Outcome DataSource
  parse_and_verify_governance_data_source ptgm_body = do
    cursor_chain ← unwrap (k.read_uint 2 (k.new ptgm_body none)) err_invalid_action_payload
    cursor_address ← unwrap (k.read_buff 32 cursor_chain.next) err_invalid_action_payload
    ok (record { emitter_chain = cursor_chain.value; emitter_address = cursor_address.value })

  -- The entry at an index, and the index of the next, 34 bytes on.
  unfoldable pub read_data_source : Bytes → ℕ → Outcome (DataSource × ℕ)
  read_data_source bytes index = do
    cursor_chain ← unwrap_panic (k.read_uint 2 (k.new bytes (some index)))
    cursor_address ← unwrap_panic (k.read_buff 32 cursor_chain.next)
    ok (
      record { emitter_chain = cursor_chain.value; emitter_address = cursor_address.value },
      index + 34,
    )

  unfoldable pub parse_and_verify_prices_data_sources : Bytes → Outcome (List DataSource)
  unfolding read_data_source
  parse_and_verify_prices_data_sources ptgm_body = do
    cursor_num ← k.read_uint 1 (k.new ptgm_body none)
    let bytes = k.slice cursor_num.next none
    w ←
        walk (read_data_source bytes) 255 bytes
          (record { index = 0; next_update_index = 0; result = []; limit = cursor_num.value })
    ok w.result

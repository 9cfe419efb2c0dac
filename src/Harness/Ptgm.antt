-- ===== src/Harness/Ptgm.antt =====
-- unit-tests/pyth/helpers.ts: governance messages (PTGM) as buffers.
use stacks_pyth_bridge.Prelude.{
  ℕ, Option, none, some, List, [], ◌∷◌, ◌++◌, length, ◌==◌, if◌then◌else◌,
}
use stacks_pyth_bridge.Prelude.Bytes.{Bytes}
use stacks_pyth_bridge.Prelude.Int.{pos}
use stacks_pyth_bridge.Harness.Buffers.{◌>>=◌, write_uint_be, concat, bigint_to_buffer}
use stacks_pyth_bridge.Harness.Wormhole.{Emitter}

abbrev pub ptgm_magic_bytes : Bytes
ptgm_magic_bytes = 0x50 ∷ 0x54 ∷ 0x47 ∷ 0x4d ∷ []

pub record PtgmUpdateFeeValue : Type 0 where
  pub mantissa : ℕ
  pub exponent : ℕ

pub record PtgmUpdateStalePriceThreshold : Type 0 where
  pub threshold : ℕ

-- Texts are the lists of their bytes. PtgmUpdateContract is the case with a contract name.
pub record PtgmPrincipal : Type 0 where
  pub address : Bytes
  pub contract_name : Option Bytes

-- The options of `buildPtgmVaaPayload`.
pub record PtgmOptions : Type 0 where
  pub magic_bytes : Option Bytes
  pub module_id : Option ℕ
  pub target_chain_id : Option ℕ
  pub update_fee_value : Option PtgmUpdateFeeValue
  pub update_fee_recipient : Option PtgmPrincipal
  pub update_stale_price_threshold : Option PtgmUpdateStalePriceThreshold
  pub update_wormhole_contract : Option PtgmPrincipal
  pub update_oracle_contract : Option PtgmPrincipal
  pub update_store_contract : Option PtgmPrincipal
  pub update_decoder_contract : Option PtgmPrincipal
  pub update_prices_data_sources : Option (List Emitter)
  pub update_governance_data_source : Option Emitter

pub record PtgmVaaPayload : Type 0 where
  pub magic_bytes : Bytes
  pub module_id : ℕ
  pub action : ℕ
  pub target_chain_id : ℕ
  pub update_fee_value : Option PtgmUpdateFeeValue
  pub update_fee_recipient : Option PtgmPrincipal
  pub update_stale_price_threshold : Option PtgmUpdateStalePriceThreshold
  pub update_wormhole_contract : Option PtgmPrincipal
  pub update_oracle_contract : Option PtgmPrincipal
  pub update_store_contract : Option PtgmPrincipal
  pub update_decoder_contract : Option PtgmPrincipal
  pub update_prices_data_sources : Option (List Emitter)
  pub update_governance_data_source : Option Emitter

abbrev pub no_options : PtgmOptions
no_options = record {
  magic_bytes = none;
  module_id = none;
  target_chain_id = none;
  update_fee_value = none;
  update_fee_recipient = none;
  update_stale_price_threshold = none;
  update_wormhole_contract = none;
  update_oracle_contract = none;
  update_store_contract = none;
  update_decoder_contract = none;
  update_prices_data_sources = none;
  update_governance_data_source = none;
}

-- `value || fallback` on an optional number: 0 counts as none.
abbrev pub number_or : Option ℕ → ℕ → ℕ
number_or none fallback = fallback
number_or (some n) fallback = if n == 0 then fallback else n

abbrev pub buffer_or : Option Bytes → Bytes → Bytes
buffer_or none fallback = fallback
buffer_or (some b) fallback = b

-- A chain of `if (optional) … else if`: the first action that is asked for.
abbrev pub or_else {ℓ} : {A : Type ℓ} → Option A → Option ℕ → ℕ → Option ℕ
or_else (some a) rest action = some action
or_else none rest action = rest

unfoldable pub chosen_action : PtgmOptions → Option ℕ
chosen_action opts =
    or_else opts.update_fee_value
      (or_else opts.update_fee_recipient
        (or_else opts.update_oracle_contract
          (or_else opts.update_wormhole_contract
            (or_else opts.update_stale_price_threshold
              (or_else opts.update_decoder_contract
                (or_else opts.update_store_contract
                  (or_else opts.update_prices_data_sources
                    (or_else opts.update_governance_data_source none 0x01) 0x02)
                  0xa1)
                0xa2)
              0x04)
            0x06)
          0x00)
        0xa0)
      0x03

unfoldable pub build_ptgm_vaa_payload : PtgmOptions → Option PtgmVaaPayload
unfolding chosen_action
build_ptgm_vaa_payload opts = do
  action ← chosen_action opts
  some (record {
    magic_bytes = buffer_or opts.magic_bytes ptgm_magic_bytes;
    module_id = number_or opts.module_id 3;
    action = action;
    target_chain_id = number_or opts.target_chain_id 50039;
    update_fee_value = opts.update_fee_value;
    update_fee_recipient = opts.update_fee_recipient;
    update_stale_price_threshold = opts.update_stale_price_threshold;
    update_wormhole_contract = opts.update_wormhole_contract;
    update_oracle_contract = opts.update_oracle_contract;
    update_store_contract = opts.update_store_contract;
    update_decoder_contract = opts.update_decoder_contract;
    update_prices_data_sources = opts.update_prices_data_sources;
    update_governance_data_source = opts.update_governance_data_source;
  })

-- @stacks/transactions: the consensus serialization of a principal, as `cvToHex` gives it.
pub record StacksTransactions : Type 0 where
  pub contract_principal_cv : Bytes → Bytes → Bytes
  pub principal_cv : Bytes → Bytes

unfoldable pub serialize_data_source : Emitter → Option Bytes
serialize_data_source source = do
  chain ← write_uint_be 2 source.chain
  some (chain ++ source.address)

unfoldable pub serialize_data_sources : List Emitter → Option Bytes
unfolding serialize_data_source
serialize_data_sources [] = some []
serialize_data_sources (source ∷ sources) = do
  first ← serialize_data_source source
  rest ← serialize_data_sources sources
  some (first ++ rest)

module _ (stacks : StacksTransactions) where
  -- An empty contract name counts as none.
  abbrev pub principal_bytes : Bytes → Option Bytes → Bytes
  principal_bytes address (some (c ∷ name)) = stacks.contract_principal_cv address (c ∷ name)
  principal_bytes address (some []) = stacks.principal_cv address
  principal_bytes address none = stacks.principal_cv address

  unfoldable pub serialize_principal : PtgmPrincipal → Option Bytes
  serialize_principal payload = do
    let serialized = principal_bytes payload.address payload.contract_name
    len ← write_uint_be 1 (length serialized)
    some (len ++ serialized)

  unfoldable pub serialize_fee_value : PtgmUpdateFeeValue → Option Bytes
  serialize_fee_value fee =
      some (bigint_to_buffer (pos fee.mantissa) 8 ++ bigint_to_buffer (pos fee.exponent) 8)

  unfoldable pub serialize_threshold : PtgmUpdateStalePriceThreshold → Option Bytes
  serialize_threshold update = some (bigint_to_buffer (pos update.threshold) 8)

  unfoldable pub serialize_prices_data_sources : List Emitter → Option Bytes
  unfolding serialize_data_sources
  serialize_prices_data_sources sources = do
    len ← write_uint_be 1 (length sources)
    rest ← serialize_data_sources sources
    some (len ++ rest)

  -- `if (optional) … else …`
  abbrev pub if_given : {A : Type 0} → Option A → (A → Option Bytes) → Option Bytes → Option Bytes
  if_given (some a) f rest = f a
  if_given none f rest = rest

  -- The body: the first field that is given, in the order of the code.
  unfoldable pub serialize_body : PtgmVaaPayload → Option Bytes
  unfolding serialize_principal serialize_fee_value serialize_threshold serialize_data_source
      serialize_prices_data_sources
  serialize_body payload = if_given payload.update_fee_value serialize_fee_value (
      if_given payload.update_fee_recipient serialize_principal (
        if_given payload.update_oracle_contract serialize_principal (
          if_given payload.update_wormhole_contract serialize_principal (
            if_given payload.update_store_contract serialize_principal (
              if_given payload.update_decoder_contract serialize_principal (
                if_given payload.update_stale_price_threshold serialize_threshold (
                  if_given payload.update_governance_data_source serialize_data_source (
                    if_given payload.update_prices_data_sources serialize_prices_data_sources
                      none))))))))

  unfoldable pub serialize_ptgm_vaa_payload_to_buffer : PtgmVaaPayload → Option Bytes
  unfolding serialize_body concat
  serialize_ptgm_vaa_payload_to_buffer payload = do
    module_byte ← write_uint_be 1 payload.module_id
    action_byte ← write_uint_be 1 payload.action
    chain_bytes ← write_uint_be 2 payload.target_chain_id
    body ← serialize_body payload
    some (concat (payload.magic_bytes ∷ module_byte ∷ action_byte ∷ chain_bytes ∷ body ∷ []))

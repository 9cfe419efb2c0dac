-- ===== src/Oracle.antt =====
-- contracts/pyth-oracle-v2.clar: the entry points, which call the decoder and the storage that the
-- caller names and charge the fee.
pub mod Fees
pub mod Charged
use stacks_pyth_bridge.Prelude.{ℕ, ◌+◌, ◌-◌, List, ◌==◌, leb, if◌then◌else◌, length, some, Option}
use stacks_pyth_bridge.Prelude.Bytes.{Bytes}
use stacks_pyth_bridge.Clarity.Outcome.{Outcome, ok, err, panic, ◌>>=◌, unwrap, uint_mul, uint_pow}
use stacks_pyth_bridge.Clarity.Types.{Principal, WormholeCore}
use stacks_pyth_bridge.Governance.{
  Governance, TraitPlan, check_execution_flow, check_storage_contract, get_fee_info,
}
use stacks_pyth_bridge.Store.{Store, Price, PriceEntry, Chain, read, write}

abbrev pub err_balance_insufficient : ℕ
err_balance_insufficient = 402

-- References `<pyth-decoder-trait>` and `<pyth-storage-trait>` (contracts/pyth-traits-v1.clar): the
-- address and the functions, which take their contract-caller.
pub record Decoder : Type 0 where
  pub address : Principal
  pub decode_and_verify_price_feeds : Principal → Bytes → WormholeCore → Outcome (List PriceEntry)

pub record Storage : Type 0 where
  pub address : Principal
  pub read : Store → Bytes → Outcome Price
  pub write : Store → Principal → List PriceEntry → Outcome (List PriceEntry × Store)

pub record Contracts : Type 0 where
  pub pyth_storage_contract : Storage
  pub pyth_decoder_contract : Decoder
  pub wormhole_core_contract : WormholeCore

-- `contract-of` of each.
abbrev pub plan_of : Contracts → TraitPlan
plan_of c = record {
  pyth_storage_contract = c.pyth_storage_contract.address;
  pyth_decoder_contract = c.pyth_decoder_contract.address;
  wormhole_core_contract = c.wormhole_core_contract.address;
}

-- pyth-store-v1 as a reference.
abbrev pub pyth_store : Principal → Governance → Chain → Storage
pyth_store self g chain = record {
  address = self;
  read = read;
  write = λ s caller es. write self g chain s caller es;
}

abbrev pub Balances : Type 0
Balances = Principal → ℕ

-- `stx-transfer?`, with its errors: the balance is too low, sender and recipient are one, the amount
-- is not positive.
unfoldable pub stx_transfer : Balances → ℕ → Principal → Principal → Outcome Balances
stx_transfer b amount sender recipient =
    if amount == 0
    then err 3
    else if sender == recipient
    then err 2
    else if leb amount (b sender)
    then ok
        (λ p. if p == sender then b p - amount else if p == recipient then b p + amount else b p)
    else err 1

-- What the transaction can change.
pub record Ledger : Type 0 where
  pub store : Store
  pub balances : Balances

-- `(* count (* mantissa (pow u10 exponent)))`
unfoldable pub fee_amount : Governance → ℕ → Outcome ℕ
unfolding get_fee_info uint_mul uint_pow
fee_amount g count = do
  let fee_info = get_fee_info g
  power ← uint_pow 10 fee_info.exponent
  unit ← uint_mul fee_info.mantissa power
  uint_mul count unit

unfoldable pub read_price_feed : Governance → Store → Bytes → Storage → Outcome Price
unfolding check_storage_contract
read_price_feed g s price_feed_id storage = do
  _ ← check_storage_contract g storage.address
  storage.read s price_feed_id

-- `self` is this contract.
module _ (self : Principal) (g : Governance) (tx_sender contract_caller : Principal) where
  unfoldable pub verify_and_update_price_feeds :
      Ledger → Bytes → Contracts → Outcome (List PriceEntry × Ledger)
  verify_and_update_price_feeds l price_feed_bytes plan = do
    _ ← check_execution_flow g self contract_caller (some (plan_of plan))
    decoded_prices ←
        plan.pyth_decoder_contract.decode_and_verify_price_feeds self price_feed_bytes
          plan.wormhole_core_contract
    (updated_prices, store) ← plan.pyth_storage_contract.write l.store self decoded_prices
    amount ← fee_amount g (length updated_prices)
    balances ←
        unwrap (stx_transfer l.balances amount tx_sender g.fee_recipient_address)
          err_balance_insufficient
    ok (updated_prices, record { store = store; balances = balances })

  unfoldable pub decode_price_feeds :
      Ledger → Bytes → Contracts → Outcome (List PriceEntry × Ledger)
  decode_price_feeds l price_feed_bytes plan = do
    _ ← check_execution_flow g self contract_caller (some (plan_of plan))
    decoded_prices ←
        plan.pyth_decoder_contract.decode_and_verify_price_feeds self price_feed_bytes
          plan.wormhole_core_contract
    amount ← fee_amount g (length decoded_prices)
    balances ←
        unwrap (stx_transfer l.balances amount tx_sender g.fee_recipient_address)
          err_balance_insufficient
    ok (decoded_prices, record l { balances = balances })

-- ===== src/Oracle/Charged.antt =====
-- The transfer at the end of an update through contracts/pyth-oracle-v2.clar.
use stacks_pyth_bridge.Prelude.{ℕ, ◌≡◌, List, some, length}
use stacks_pyth_bridge.Prelude.Bytes.{Bytes}
use stacks_pyth_bridge.Clarity.Outcome.{ok, >>=-eq-ok, unwrap, unwrap-eq-ok}
use stacks_pyth_bridge.Clarity.Types.{Principal}
use stacks_pyth_bridge.Governance.{Governance, check_execution_flow}
use stacks_pyth_bridge.Store.{PriceEntry, Store}
use stacks_pyth_bridge.Oracle.{
  Balances, Contracts, Ledger, plan_of, stx_transfer, fee_amount, verify_and_update_price_feeds,
}
use stacks_pyth_bridge.Oracle.Fees.{settle}

module _ (self : Principal) (g : Governance) (tx_sender contract_caller : Principal) where
  -- What the sender of an update pays, it pays by one transfer to the fee recipient.
  abbrev pub Charged : Balances → Balances → Type 0
  Charged b b' = (amount : ℕ) × (stx_transfer b amount tx_sender g.fee_recipient_address ≡ ok b')

  settled :
      (b : Balances) (w : List PriceEntry × Store) (out : List PriceEntry) (l' : Ledger)
      → settle g tx_sender b w ≡ ok (out, l')
      → Charged b l'.balances
  settled b w out l' h =
      let (amount, _, h1) = >>=-eq-ok (fee_amount g (length w.0)) _ h in
      let (b', t, h2) =
        >>=-eq-ok (unwrap (stx_transfer b amount tx_sender g.fee_recipient_address) 402) _ h1 in
      let same : b' ≡ l'.balances = cc h2 in (amount, cc (unwrap-eq-ok _ 402 t, same))

  pub update-Charged :
      (l l' : Ledger) (bytes : Bytes) (plan : Contracts) (out : List PriceEntry)
      → verify_and_update_price_feeds self g tx_sender contract_caller l bytes plan ≡ ok (out, l')
      → Charged l.balances l'.balances
  unfolding verify_and_update_price_feeds
  update-Charged l l' bytes plan out h =
      let (b, _, h1) =
        >>=-eq-ok (check_execution_flow g self contract_caller (some (plan_of plan))) _ h in
      let (decoded, _, h2) =
        >>=-eq-ok
          (plan.pyth_decoder_contract.decode_and_verify_price_feeds self bytes
            plan.wormhole_core_contract)
          _ h1 in
      let (w, _, h3) = >>=-eq-ok (plan.pyth_storage_contract.write l.store self decoded) _ h2 in
      settled l.balances w out l' h3

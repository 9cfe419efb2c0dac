-- ===== src/Serverless/Unwrap.antt =====
-- example/cbtc/serverless/handler.ts, unwrapBtc, where the funding is not enough.
use stacks_pyth_bridge.Prelude.{ℕ, ◌+◌, ◌<◌, ◌≡◌, ap, ◌∙◌, some, List, arith, lt→ltb}
use stacks_pyth_bridge.Prelude.Bytes.{Bytes}
use stacks_pyth_bridge.Serverless.{
  Libraries, Transaction, Transfer, Utxo, select_utxos, none_selected, tx_fee, funding_unsufficient,
  pay_transfer,
}
use stacks_pyth_bridge.Serverless.Selection.{total, Split, select_utxos-Split, total-append}

module _ (lib : Libraries Transaction) (transfer : Transfer) (utxos : List Utxo)
    (recipient authority : Bytes) (known : lib.hash160 transfer.recipient ≡ some recipient)
    (ours : lib.hash160 lib.authority_stx_address ≡ some authority) where
  abbrev required : ℕ
  required = transfer.amount + tx_fee

  selection : Split required utxos 0 none_selected (select_utxos required utxos 0 none_selected)
  selection = select_utxos-Split required utxos 0 none_selected (omega arith)

  total-selection : total utxos ≡ total selection.taken + total selection.left
  total-selection =
      ap (λ (t : List Utxo). total t) selection.whole ∙ total-append selection.taken selection.left

  -- If the unspent outputs together are below the amount and the fee, the answer is that the
  -- funding is insufficient. Given: both addresses have hashes.
  pub pay_transfer-insufficient :
      total utxos < transfer.amount + tx_fee
      → pay_transfer lib transfer utxos ≡ some (funding_unsufficient utxos)
  unfolding pay_transfer
  pay_transfer-insufficient h =
      let c = (select_utxos required utxos 0 none_selected).cumulated_amount in
      let low : c < required = omega (arith, selection.cumulated, total-selection, h) in
      rw (known, ours, lt→ltb c required low)

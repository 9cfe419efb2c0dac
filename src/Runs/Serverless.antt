-- ===== src/Runs/Serverless.antt =====
-- Runs of example/cbtc/serverless/handler.ts.
use stacks_pyth_bridge.Prelude.{ℕ, ◌≡◌, refl, some, none, List, [], ◌∷◌, arith, Option}
use stacks_pyth_bridge.Prelude.Bytes.{Bytes}
use stacks_pyth_bridge.Serverless.{
  Libraries, Script, Element, Transaction, Transfer, Utxo, p2pkh, funding_unsufficient,
  pay_transfer,
}
use stacks_pyth_bridge.Serverless.Unwrap.{pay_transfer-insufficient}

-- The hash of a script of five elements.
abbrev hash_in : Script → Option Bytes
hash_in (a ∷ b ∷ Element.push hash ∷ rest) = some hash
hash_in _ = none

abbrev sample_libraries : Libraries Transaction
sample_libraries = record {
  script_from_buffer = p2pkh;
  public_key_hash = hash_in;
  recipient_address = λ hash. 83 ∷ hash;
  hash160 = λ address. some address;
  sign = λ _. 1 ∷ [];
  authority_stx_address = 83 ∷ 7 ∷ [];
  asset_id = 99 ∷ [];
}

abbrev utxo_of : ℕ → Utxo
utxo_of amount = record { txid = amount ∷ []; vout = 0; amount = amount; script_pub_key = [] }

abbrev sample_utxos : List Utxo
sample_utxos = utxo_of 5000 ∷ utxo_of 4000 ∷ utxo_of 3000 ∷ []

abbrev transfer_of : ℕ → Transfer
transfer_of amount = record { recipient = 3 ∷ []; amount = amount }

pay_transfer-insufficient_example :
    pay_transfer sample_libraries (transfer_of 6001) sample_utxos
    ≡ some (funding_unsufficient sample_utxos)
pay_transfer-insufficient_example =
    pay_transfer-insufficient sample_libraries (transfer_of 6001) sample_utxos (3 ∷ [])
      (83 ∷ 7 ∷ []) refl refl (omega arith)

-- ===== src/Serverless.antt =====
-- example/cbtc/serverless/handler.ts: the two functions that bridge bitcoin to the token cbtc and
-- back. Amounts are whole numbers of satoshis, and the JSON of an event is its parsed value. `none`
-- is a thrown exception.
pub mod Selection
pub mod Unwrap
use stacks_pyth_bridge.Prelude.{
  ℕ, zero, suc, ◌+◌, ◌-◌, ◌*◌, Bool, true, false, Option, none, some, List, [], ◌∷◌, ◌++◌, ltb, leb,
  if◌then◌else◌, length, get_elem?,
}
use stacks_pyth_bridge.Prelude.Bytes.{Bytes, bytes_eq}
use stacks_pyth_bridge.Harness.Buffers.{◌>>=◌}

-- bitcore-lib's scripts, as the elements that `add` appends.
pub data Element : Type 0 where
  op_dup op_hash160 op_equalverify op_checksig : Element
  push : Bytes → Element

abbrev pub Script : Type 0
Script = List Element

-- bitcore-lib, @stacks/transactions and the authority's keys and addresses. `recipient_address` is
-- `addressFromHashMode` for a pay-to-public-key-hash address of the test network, then
-- `addressToString`; `hash160` is `principalCV(address).address.hash160`; `sign` signs and serializes.
pub record Libraries (Tx : Type 0) : Type 0 where
  pub script_from_buffer : Bytes → Script
  pub public_key_hash : Script → Option Bytes
  pub recipient_address : Bytes → Bytes
  pub hash160 : Bytes → Option Bytes
  pub sign : Tx → Bytes
  pub authority_stx_address : Bytes
  pub asset_id : Bytes

pub record Output : Type 0 where
  pub satoshis : ℕ
  pub script : Script

pub record Input : Type 0 where
  pub prev_tx_id : Bytes
  pub output_index : ℕ
  pub satoshis : ℕ
  pub script : Bytes

pub record Transaction : Type 0 where
  pub version : ℕ
  pub inputs : List Input
  pub outputs : List Output

-- An output of a bitcoin transaction in an event, its script as the bytes behind `0x`.
pub record EventOutput : Type 0 where
  pub value : ℕ
  pub script_pubkey : Bytes

-- The mint that is broadcast, with its nonce.
pub record Mint : Type 0 where
  pub amount : ℕ
  pub recipient : Bytes
  pub fee : ℕ
  pub nonce : ℕ

pub data WrapResponse : Type 0 where
  wrap_status : ℕ → WrapResponse
  wrap_minted : Mint → WrapResponse

-- The outputs of the block's first transaction, if it has one.
unfoldable pub wrap_btc :
    Libraries Transaction → ℕ → Option (List EventOutput) → Option WrapResponse
wrap_btc lib nonce none = some (wrap_status 422)
wrap_btc lib nonce (some outputs) = do
  first ← get_elem? outputs 0
  second ← get_elem? outputs 1
  hash_bytes ← lib.public_key_hash (lib.script_from_buffer second.script_pubkey)
  let address = lib.recipient_address hash_bytes
  some (
      if bytes_eq address lib.authority_stx_address
      then wrap_status 301
      else wrap_minted
          (record { amount = first.value; recipient = address; fee = 1000; nonce = nonce }))

pub record BurnEvent : Type 0 where
  pub asset_identifier : Bytes
  pub sender : Bytes
  pub amount : ℕ

pub data TxEvent : Type 0 where
  ft_burn : BurnEvent → TxEvent
  other_event : TxEvent

pub record Transfer : Type 0 where
  pub recipient : Bytes
  pub amount : ℕ

-- The first burn of the token among the events of a receipt.
unfoldable pub find_transfer : Bytes → List TxEvent → Option Transfer
find_transfer asset_id [] = none
find_transfer asset_id (other_event ∷ events) = find_transfer asset_id events
find_transfer asset_id (ft_burn e ∷ events) =
    let rest = find_transfer asset_id events in
    if bytes_eq e.asset_identifier asset_id
    then some (record { recipient = e.sender; amount = e.amount })
    else rest

-- What `listunspent` gives. `amount` is the amount in satoshis, for which the code has the
-- floating-point product `utxo.amount * 100_000_000`.
pub record Utxo : Type 0 where
  pub txid : Bytes
  pub vout : ℕ
  pub amount : ℕ
  pub script_pub_key : Bytes

pub record Selected : Type 0 where
  pub indices : List ℕ
  pub cumulated_amount : ℕ

-- The loop that takes outputs until their amounts reach what is required.
unfoldable pub select_utxos : ℕ → List Utxo → ℕ → Selected → Selected
select_utxos total_required [] i s = s
select_utxos total_required (utxo ∷ utxos) i s =
    let s' : Selected = record {
      indices = s.indices ++ i ∷ [];
      cumulated_amount = s.cumulated_amount + utxo.amount;
    } in
    let rest = select_utxos total_required utxos (i + 1) s' in
    if leb total_required s'.cumulated_amount then s' else rest

abbrev pub none_selected : Selected
none_selected = record { indices = []; cumulated_amount = 0 }

-- `splice(index, 1)`
unfoldable pub splice : {A : Type 0} → List A → ℕ → List A
splice [] index = []
splice (x ∷ xs) zero = xs
splice (x ∷ xs) (suc index) = x ∷ splice xs index

-- The loop over the selected indices: the outputs that are spent, in its order.
unfoldable pub take_utxos : List Utxo → List ℕ → Option (List Utxo)
unfolding splice
take_utxos unspent_outputs [] = some []
take_utxos unspent_outputs (index ∷ indices) = do
  unspent_output ← get_elem? unspent_outputs index
  rest ← take_utxos (splice unspent_outputs index) indices
  some (unspent_output ∷ rest)

unfoldable pub reverse_onto : {A : Type 0} → List A → List A → List A
reverse_onto [] ys = ys
reverse_onto (x ∷ xs) ys = reverse_onto xs (x ∷ ys)

-- An input is built with the burned amount in place of the amount of the output that it spends.
unfoldable pub inputs_of : ℕ → List Utxo → List Input
inputs_of amount [] = []
inputs_of amount (u ∷ us) =
    record {
      prev_tx_id = u.txid;
      output_index = u.vout;
      satoshis = amount;
      script = u.script_pub_key;
    }
    ∷ inputs_of amount us

abbrev pub p2pkh : Bytes → Script
p2pkh hash = op_dup ∷ op_hash160 ∷ push hash ∷ op_equalverify ∷ op_checksig ∷ []

abbrev pub tx_fee : ℕ
tx_fee = 10 * 600

pub data UnwrapResponse : Type 0 where
  unwrap_status : ℕ → UnwrapResponse
  event_not_found : UnwrapResponse
  funding_unsufficient : List Utxo → UnwrapResponse
  sent : Transaction → List Utxo → Bytes → UnwrapResponse

module _ (lib : Libraries Transaction) where
  -- The transaction that pays a transfer from the unspent outputs, and the outputs that it spends.
  unfoldable pub pay_transfer : Transfer → List Utxo → Option UnwrapResponse
  unfolding select_utxos take_utxos inputs_of reverse_onto
  pay_transfer transfer unspent_outputs = do
    recipient_hash ← lib.hash160 transfer.recipient
    authority_hash ← lib.hash160 lib.authority_stx_address
    let total_required = transfer.amount + tx_fee
    let selected = select_utxos total_required unspent_outputs 0 none_selected
    let paid = take_utxos unspent_outputs (reverse_onto selected.indices []) >>= λ spent.
        let transaction : Transaction = record {
          version = 1;
          inputs = inputs_of transfer.amount spent;
          outputs =
              record { satoshis = transfer.amount; script = p2pkh recipient_hash }
              ∷ record {
                satoshis = selected.cumulated_amount - transfer.amount - tx_fee;
                script = p2pkh authority_hash;
              }
              ∷ [];
        } in
        some (sent transaction spent (lib.sign transaction))
    if ltb selected.cumulated_amount total_required
        then some (funding_unsufficient unspent_outputs)
        else paid

  -- The events of the block's first transaction, if it has one, and the answer of `listunspent`.
  unfoldable pub unwrap_btc : Option (List TxEvent) → List Utxo → Option UnwrapResponse
  unfolding find_transfer pay_transfer
  unwrap_btc none unspent_outputs = some (unwrap_status 422)
  unwrap_btc (some events) unspent_outputs = elim (find_transfer lib.asset_id events) [
    | none ↦ some event_not_found
    | some transfer ↦ pay_transfer transfer unspent_outputs
  ]

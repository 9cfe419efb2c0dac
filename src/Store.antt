-- ===== src/Store.antt =====
-- contracts/pyth-store-v1.clar: the prices and their timestamps, and the batch write.
pub mod Batch
pub mod Newest
pub mod Safety
use stacks_pyth_bridge.Prelude.{ℕ, ◌-◌, ◌<◌, ◌≡◌, refl, Bool, true, false, Option, none, some, List}
use stacks_pyth_bridge.Prelude.{[], ◌∷◌, ltb, leb, if◌then◌else◌, length}
use stacks_pyth_bridge.Prelude.Bytes.{Bytes, bytes_eq}
use stacks_pyth_bridge.Prelude.Int.{ℤ}
use stacks_pyth_bridge.Clarity.Outcome.{
  Outcome, ok, err, panic, ◌>>=◌, ◌>>◌, asserts, unwrap_some, unwrap_panic, is_ok, uint_sub,
}
use stacks_pyth_bridge.Clarity.Types.{Principal}
use stacks_pyth_bridge.Governance.{Governance, check_execution_flow}

abbrev pub err_newer_price_available : ℕ
err_newer_price_available = 5000

abbrev pub err_stale_price : ℕ
err_stale_price = 5001

abbrev pub err_invalid_updates : ℕ
err_invalid_updates = 5003

-- An entry of a batch.
pub record PriceEntry : Type 0 where
  pub price_identifier : Bytes
  pub price : ℤ
  pub conf : ℕ
  pub expo : ℤ
  pub ema_price : ℤ
  pub ema_conf : ℕ
  pub publish_time : ℕ
  pub prev_publish_time : ℕ

-- A value of the map `prices`.
pub record Price : Type 0 where
  pub price : ℤ
  pub conf : ℕ
  pub expo : ℤ
  pub ema_price : ℤ
  pub ema_conf : ℕ
  pub publish_time : ℕ
  pub prev_publish_time : ℕ

-- The maps, as functions of the key.
pub record Store : Type 0 where
  pub prices : Bytes → Option Price
  pub timestamps : Bytes → Option ℕ

-- `map-set`
abbrev pub map_set : {V : Type 0} → (Bytes → Option V) → Bytes → V → Bytes → Option V
map_set m key v key' = if bytes_eq key key' then some v else m key'

abbrev pub empty : Store
empty = record { prices = λ _. none; timestamps = λ _. none }

-- The chain: `block-height`, and `get-block-info? time`.
pub record Chain : Type 0 where
  pub block_height : ℕ
  pub block_time : ℕ → Option ℕ

-- The value of `entry` in the map `prices`.
unfoldable pub price_of : PriceEntry → Price
price_of entry = record {
  price = entry.price;
  conf = entry.conf;
  expo = entry.expo;
  ema_price = entry.ema_price;
  ema_conf = entry.ema_conf;
  publish_time = entry.publish_time;
  prev_publish_time = entry.prev_publish_time;
}

unfoldable pub read : Store → Bytes → Outcome Price
read s price_identifier = unwrap_some (s.prices price_identifier) 404

abbrev pub default_to : ℕ → Option ℕ → ℕ
default_to d none = d
default_to d (some n) = n

unfoldable pub is_price_update_more_recent : Store → Bytes → ℕ → Bool
is_price_update_more_recent s price_identifier publish_time =
    ltb (default_to 0 (s.timestamps price_identifier)) publish_time

-- The entry with the maps that it sets.
unfoldable pub write_batch_entry :
    Governance → Chain → Store → PriceEntry → Outcome (PriceEntry × Store)
unfolding is_price_update_more_recent uint_sub
write_batch_entry g chain s entry = do
  let stale_price_threshold = g.stale_price_threshold
  previous ← uint_sub chain.block_height 1
  latest_bitcoin_timestamp ← unwrap_some (chain.block_time previous) err_stale_price
  asserts (is_price_update_more_recent s entry.price_identifier entry.publish_time)
      err_newer_price_available
  oldest ← uint_sub latest_bitcoin_timestamp stale_price_threshold
  asserts (leb oldest entry.publish_time) err_stale_price
  ok (
    entry,
    record {
      prices = map_set s.prices entry.price_identifier (price_of entry);
      timestamps = map_set s.timestamps entry.price_identifier entry.publish_time;
    },
  )

-- One entry's response as a value, and the maps after it: an error has set nothing.
abbrev pub entry_response :
    Store → Outcome (PriceEntry × Store) → Outcome (Outcome PriceEntry × Store)
entry_response s (ok (e, s')) = ok (ok e, s')
entry_response s (err code) = ok (err code, s)
entry_response s panic = panic

-- `(map write-batch-entry batch-updates)`: the maps go from entry to entry.
unfoldable pub map_write_batch_entry :
    Governance → Chain → Store → List PriceEntry → Outcome (List (Outcome PriceEntry) × Store)
map_write_batch_entry g chain s [] = ok ([], s)
map_write_batch_entry g chain s (entry ∷ batch) = do
  (r, s') ← entry_response s (write_batch_entry g chain s entry)
  (rs, s'') ← map_write_batch_entry g chain s' batch
  ok (r ∷ rs, s'')

unfoldable pub only_ok_entry : Outcome PriceEntry → Bool
only_ok_entry entry = is_ok entry

unfoldable pub filter_ok : List (Outcome PriceEntry) → List (Outcome PriceEntry)
unfolding only_ok_entry
filter_ok [] = []
filter_ok (r ∷ rs) = if only_ok_entry r then r ∷ filter_ok rs else filter_ok rs

unfoldable pub unwrapped_entry : Outcome PriceEntry → Outcome PriceEntry
unwrapped_entry entry = unwrap_panic entry

unfoldable pub map_unwrapped : List (Outcome PriceEntry) → Outcome (List PriceEntry)
unfolding unwrapped_entry
map_unwrapped [] = ok []
map_unwrapped (r ∷ rs) = do e ← unwrapped_entry r; es ← map_unwrapped rs; ok (e ∷ es)

-- `self` is this contract; an error rolls back what the entries have set.
unfoldable pub write :
    Principal
    → Governance
    → Chain
    → Store
    → Principal
    → List PriceEntry
    → Outcome (List PriceEntry × Store)
unfolding map_write_batch_entry filter_ok map_unwrapped
write self g chain s contract_caller batch_updates = do
  (responses, s') ← map_write_batch_entry g chain s batch_updates
  successful_updates ← map_unwrapped (filter_ok responses)
  _ ← check_execution_flow g self contract_caller none
  asserts (ltb 0 (length successful_updates)) err_invalid_updates
  ok (successful_updates, s')

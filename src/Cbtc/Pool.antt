-- ===== src/Cbtc/Pool.antt =====
-- example/cbtc/contracts/cbtc-pool.clar: the pool of cBTC and STX, at the prices of the oracle. The
-- map liquidity-providers-balances is declared there and never used.
use stacks_pyth_bridge.Prelude.{ℕ, ◌/◌, none, ◌==◌, if◌then◌else◌, get_elem?}
use stacks_pyth_bridge.Prelude.Bytes.{Bytes, be_bytes}
use stacks_pyth_bridge.Prelude.Int.{ℤ, pos, negsuc}
use stacks_pyth_bridge.Clarity.Outcome.{
  Outcome, ok, err, panic, ◌>>=◌, unwrap, unwrap_some, uint_mul,
}
use stacks_pyth_bridge.Clarity.Types.{Principal}
use stacks_pyth_bridge.Governance.{Governance}
use stacks_pyth_bridge.Store.{PriceEntry}
use stacks_pyth_bridge.Oracle.{
  Balances, Contracts, Ledger, read_price_feed, stx_transfer, verify_and_update_price_feeds,
}
use stacks_pyth_bridge.Cbtc.Token.{Token, transfer}

abbrev pub stx_price_id : Bytes
stx_price_id = be_bytes 32 0xec7a775f46379b5e943c3526b1c8d54cd49749176b0b98e02dde68d1bd335c17

abbrev pub btc_price_id : Bytes
btc_price_id = be_bytes 32 0xe62df6c8b4a85fe1a67db44dc12de5db330f7ac66b72dc658afedf0f4a415b43

-- What the calls change: the tokens, and the prices and STX of the oracle's ledger.
pub record World : Type 0 where
  pub token : Token
  pub ledger : Ledger

-- The pool's own address, and the oracle that it calls.
pub record Site : Type 0 where
  pub pool : Principal
  pub oracle : Principal
  pub governance : Governance
  pub contracts : Contracts

-- The answer of a swap.
pub record Swap : Type 0 where
  pub stx_in : ℕ
  pub cbtc_sats_out : ℕ

-- `stx-transfer?`, which moves nothing but the sender's own STX.
unfoldable pub stx_transfer_own :
    Principal → Balances → ℕ → Principal → Principal → Outcome Balances
unfolding stx_transfer
stx_transfer_own tx_sender b amount sender recipient =
    if tx_sender == sender then stx_transfer b amount sender recipient else err 4

-- `(to-uint n)`
abbrev pub to_uint : ℤ → Outcome ℕ
to_uint (pos n) = ok n
to_uint (negsuc n) = panic

-- `(/ a b)`
unfoldable pub uint_div : ℕ → ℕ → Outcome ℕ
uint_div a b = if b == 0 then panic else ok (a / b)

module _ (s : Site) (tx_sender : Principal) where
  unfoldable pub add_cbtc_liquidity : World → ℕ → Outcome (ℕ × World)
  unfolding transfer
  add_cbtc_liquidity w cbtc_sats_in = do
    (_, token) ← unwrap (transfer tx_sender w.token cbtc_sats_in tx_sender s.pool none) 1
    ok (cbtc_sats_in, record w { token = token })

  unfoldable pub remove_cbtc_liquidity : World → ℕ → Outcome (ℕ × World)
  unfolding transfer
  remove_cbtc_liquidity w cbtc_sats_out = do
    (_, token) ← unwrap (transfer tx_sender w.token cbtc_sats_out s.pool tx_sender none) 1
    ok (cbtc_sats_out, record w { token = token })

  unfoldable pub withdraw_stx : World → ℕ → Outcome (ℕ × World)
  unfolding stx_transfer_own
  withdraw_stx w stx_out = do
    balances ← unwrap (stx_transfer_own tx_sender w.ledger.balances stx_out s.pool tx_sender) 1
    ok (stx_out, record w { ledger = record w.ledger { balances = balances } })

  unfoldable pub read_price_from_pyth : World → Bytes → Outcome ℕ
  unfolding read_price_feed
  read_price_from_pyth w price_id = do
    feed ←
        unwrap
          (read_price_feed s.governance w.ledger.store price_id s.contracts.pyth_storage_contract) 0
    to_uint feed.price

  -- update-and-read-stx-price-from-pyth and update-and-read-btc-price-from-pyth, whose text is the
  -- same.
  unfoldable pub update_and_read_price_from_pyth : World → Bytes → Outcome (PriceEntry × World)
  unfolding verify_and_update_price_feeds
  update_and_read_price_from_pyth w price_feed = do
    (updated_prices_ids, ledger) ←
        unwrap
          (verify_and_update_price_feeds s.oracle s.governance tx_sender s.pool w.ledger price_feed
            s.contracts)
          0
    price ← unwrap_some (get_elem? updated_prices_ids 0) 404
    ok (price, record w { ledger = ledger })

  -- The two transfers of a swap.
  unfoldable pub exchange : World → ℕ → ℕ → Outcome (Swap × World)
  unfolding transfer stx_transfer_own
  exchange w stx_in cbtc_sats_out = do
    (_, token) ← unwrap (transfer tx_sender w.token cbtc_sats_out s.pool tx_sender none) 1000
    balances ← unwrap (stx_transfer_own tx_sender w.ledger.balances stx_in tx_sender s.pool) 1000
    ok (
      record { stx_in = stx_in; cbtc_sats_out = cbtc_sats_out },
      record { token = token; ledger = record w.ledger { balances = balances } },
    )

  unfoldable pub swap_stx : World → ℕ → Outcome (Swap × World)
  unfolding read_price_from_pyth uint_mul uint_div exchange
  swap_stx w stx_in = do
    stx_price ← read_price_from_pyth w stx_price_id
    btc_price ← read_price_from_pyth w btc_price_id
    sat_price ← uint_mul 100000000 btc_price
    total ← uint_mul stx_in sat_price
    cbtc_sats_out ← uint_div total stx_price
    exchange w stx_in cbtc_sats_out

  unfoldable pub swap_stx_trustless : World → ℕ → Bytes → Bytes → Outcome (Swap × World)
  unfolding update_and_read_price_from_pyth uint_mul uint_div exchange
  swap_stx_trustless w stx_in stx_price_feed btc_price_feed = do
    (stx_price, w1) ← update_and_read_price_from_pyth w stx_price_feed
    (btc_price, w2) ← update_and_read_price_from_pyth w1 btc_price_feed
    btc ← to_uint btc_price.price
    sat_price ← uint_mul 100000000 btc
    total ← uint_mul stx_in sat_price
    stx ← to_uint stx_price.price
    cbtc_sats_out ← uint_div total stx
    exchange w2 stx_in cbtc_sats_out

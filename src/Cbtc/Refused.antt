-- ===== src/Cbtc/Refused.antt =====
-- What example/cbtc/contracts/cbtc-pool.clar never pays out.
use stacks_pyth_bridge.Prelude.{ℕ, ◌≡◌, ◌≢◌, arith, none, refl}
use stacks_pyth_bridge.Prelude.Bytes.{Bytes}
use stacks_pyth_bridge.Clarity.Outcome.{Outcome, ok, err, panic, ◌>>=◌, unwrap, uint_mul}
use stacks_pyth_bridge.Clarity.Types.{Principal}
use stacks_pyth_bridge.Oracle.{Balances, stx_transfer}
use stacks_pyth_bridge.Cbtc.Token.{Token, ft_transfer, transfer}
use stacks_pyth_bridge.Cbtc.Pool.{
  World, Site, Swap, stx_price_id, btc_price_id, to_uint, uint_div, stx_transfer_own,
  read_price_from_pyth, update_and_read_price_from_pyth, exchange, remove_cbtc_liquidity,
  withdraw_stx, swap_stx, swap_stx_trustless,
}

-- Whoever calls, a transfer of the pool's tokens to the caller is refused.
transfer-refused :
    (from pool : Principal) (t : Token) (n code : ℕ)
    → unwrap (transfer from t n pool from none) code ≡ err code
unfolding transfer ft_transfer
transfer-refused from pool t n code = ground arith

stx_transfer-refused :
    (from pool : Principal) (b : Balances) (n code : ℕ)
    → unwrap (stx_transfer_own from b n pool from) code ≡ err code
unfolding stx_transfer_own stx_transfer
stx_transfer-refused from pool b n code = ground arith

module _ (s : Site) (from : Principal) where
  pub exchange-refused : (w : World) (a b : ℕ) → exchange s from w a b ≡ err 1000
  unfolding exchange
  exchange-refused w a b = rw (transfer-refused from s.pool w.token b 1000) refl

  pub remove-refused : (w : World) (n : ℕ) → remove_cbtc_liquidity s from w n ≡ err 1
  unfolding remove_cbtc_liquidity
  remove-refused w n = rw (transfer-refused from s.pool w.token n 1) refl

  pub withdraw-refused : (w : World) (n : ℕ) → withdraw_stx s from w n ≡ err 1
  unfolding withdraw_stx
  withdraw-refused w n = rw (stx_transfer-refused from s.pool w.ledger.balances n 1) refl

-- A chain never succeeds if its rest never does.
>>=-never :
    {A B : Type 0} {r : B} (first : Outcome A) (rest : A → Outcome B)
    → ((a : A) → rest a ≢ ok r)
    → (first >>= rest) ≢ ok r
>>=-never (ok a) rest never h = never a h
>>=-never (err code) rest never h = cc
>>=-never panic rest never h = cc

module _ (s : Site) (from : Principal) where
  exchange-never : (w : World) (a b : ℕ) (r : Swap × World) → exchange s from w a b ≢ ok r
  exchange-never w a b r h = cc (h, exchange-refused s from w a b)

  pub swap-never : (w : World) (n : ℕ) (r : Swap × World) → swap_stx s from w n ≢ ok r
  unfolding swap_stx
  swap-never w n r = >>=-never (read_price_from_pyth s from w stx_price_id) _ λ stx.
      >>=-never (read_price_from_pyth s from w btc_price_id) _ λ btc.
        >>=-never (uint_mul 100000000 btc) _ λ sat.
          >>=-never (uint_mul n sat) _
            λ total. >>=-never (uint_div total stx) _ λ out. exchange-never w n out r

  pub swap_trustless-never :
      (w : World) (n : ℕ) (a b : Bytes) (r : Swap × World)
      → swap_stx_trustless s from w n a b ≢ ok r
  unfolding swap_stx_trustless
  swap_trustless-never w n a b r = >>=-never (update_and_read_price_from_pyth s from w a) _ λ x.
      >>=-never (update_and_read_price_from_pyth s from x.1 b) _ λ y.
        >>=-never (to_uint y.0.price) _ λ btc. >>=-never (uint_mul 100000000 btc) _ λ sat.
          >>=-never (uint_mul n sat) _ λ total.
            >>=-never (to_uint x.0.price) _
              λ stx. >>=-never (uint_div total stx) _ λ out. exchange-never y.1 n out r

  -- Whoever calls the pool, and whatever the tokens, the prices and the settings are: removing
  -- liquidity and withdrawing STX are refused with the error 1, and neither swap succeeds.
  pub pool_pays_nothing :
      (w : World) (n : ℕ) (a b : Bytes)
      → (remove_cbtc_liquidity s from w n ≡ err 1)
        × (withdraw_stx s from w n ≡ err 1)
        × ((r : Swap × World) → swap_stx s from w n ≢ ok r)
        × ((r : Swap × World) → swap_stx_trustless s from w n a b ≢ ok r)
  pool_pays_nothing w n a b = (
    remove-refused s from w n,
    withdraw-refused s from w n,
    swap-never w n,
    swap_trustless-never w n a b,
  )

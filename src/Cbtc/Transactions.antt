-- ===== src/Cbtc/Transactions.antt =====
-- The transactions of example/cbtc/contracts: who calls what, and what a run of calls leads to.
use stacks_pyth_bridge.Prelude.{ℕ, ◌≡◌, Bool}
use stacks_pyth_bridge.Prelude.Bytes.{Bytes}
use stacks_pyth_bridge.Prelude.{Option}
use stacks_pyth_bridge.Clarity.Outcome.{Outcome, ok, ◌>>=◌}
use stacks_pyth_bridge.Clarity.Types.{Principal}
use stacks_pyth_bridge.Oracle.{Balances, Ledger, verify_and_update_price_feeds}
use stacks_pyth_bridge.Cbtc.Token.{Token, transfer, mint, burn}
use stacks_pyth_bridge.Cbtc.Pool.{
  World, Site, stx_transfer_own, add_cbtc_liquidity, remove_cbtc_liquidity, withdraw_stx, swap_stx,
  swap_stx_trustless,
}

-- The public functions of both contracts, a transfer of STX and an update of the oracle's prices.
pub data Call : Type 0 where
  transfer_cbtc : ℕ → Principal → Principal → Option Bytes → Call
  mint_cbtc : ℕ → Principal → Call
  burn_cbtc : ℕ → Call
  send_stx : ℕ → Principal → Call
  update_prices : Bytes → Call
  add_liquidity : ℕ → Call
  remove_liquidity : ℕ → Call
  take_stx : ℕ → Call
  swap : ℕ → Call
  swap_trustless : ℕ → Bytes → Bytes → Call

abbrev with_token : World → Bool × Token → Outcome World
with_token w r = ok (record w { token = r.1 })

abbrev with_balances : World → Balances → Outcome World
with_balances w b = ok (record w { ledger = record w.ledger { balances = b } })

abbrev with_ledger : {A : Type 0} → World → A × Ledger → Outcome World
with_ledger w r = ok (record w { ledger = r.1 })

abbrev world_of : {A : Type 0} → A × World → Outcome World
world_of r = ok r.1

unfoldable pub execute : Principal → Site → Principal → World → Call → Outcome World
execute authority s from w (transfer_cbtc n a b memo) =
    transfer from w.token n a b memo >>= with_token w
execute authority s from w (mint_cbtc n a) = mint authority from w.token n a >>= with_token w
execute authority s from w (burn_cbtc n) = burn from w.token n >>= with_token w
execute authority s from w (send_stx n a) =
    stx_transfer_own from w.ledger.balances n from a >>= with_balances w
execute authority s from w (update_prices bytes) =
    verify_and_update_price_feeds s.oracle s.governance from from w.ledger bytes s.contracts
    >>= with_ledger w
execute authority s from w (add_liquidity n) = add_cbtc_liquidity s from w n >>= world_of
execute authority s from w (remove_liquidity n) = remove_cbtc_liquidity s from w n >>= world_of
execute authority s from w (take_stx n) = withdraw_stx s from w n >>= world_of
execute authority s from w (swap n) = swap_stx s from w n >>= world_of
execute authority s from w (swap_trustless n a b) = swap_stx_trustless s from w n a b >>= world_of

-- Transactions one after the other, each from a sender that `Sender` allows; the oracle and its
-- settings may be others at each. One that fails changes nothing, so it is left out.
pub data Reach (authority pool : Principal) (Sender : Principal → Type 0) (w : World)
    : World → Type 0 where
  here : Reach authority pool Sender w w
  next :
      {v u : World} (s : Site) (from : Principal) (c : Call)
      → Reach authority pool Sender w v
      → s.pool ≡ pool
      → Sender from
      → execute authority s from v c ≡ ok u
      → Reach authority pool Sender w u

-- ===== src/Runs/Cbtc.antt =====
-- Runs of the token and the pool: principal 9 may mint, the pool is principal 50.
use stacks_pyth_bridge.Prelude.{
  ℕ, ◌+◌, ◌≡◌, ◌≢◌, ◌==◌, ◌≤◌, refl, arith, some, none, if◌then◌else◌, [], ◌∷◌,
}
use stacks_pyth_bridge.Clarity.Outcome.{ok, err, uint_mul}
use stacks_pyth_bridge.Clarity.Cursor.{flat}
use stacks_pyth_bridge.Clarity.Types.{Principal}
use stacks_pyth_bridge.Store.{empty, read}
use stacks_pyth_bridge.Oracle.{read_price_feed}
use stacks_pyth_bridge.Governance.{check_storage_contract}
use stacks_pyth_bridge.Prelude.Int.{pos, negsuc}
use stacks_pyth_bridge.System.{deployed}
use stacks_pyth_bridge.Cbtc.Token.{transfer, mint, ft_transfer, ft_mint}
use stacks_pyth_bridge.Cbtc.Pool.{
  World, Site, Swap, add_cbtc_liquidity, remove_cbtc_liquidity, withdraw_stx, swap_stx,
  swap_stx_trustless, read_price_from_pyth, exchange, uint_div, stx_price_id, btc_price_id,
}
use stacks_pyth_bridge.Cbtc.Transactions.{Call, Reach, execute}
use stacks_pyth_bridge.Cbtc.Refused.{pool_pays_nothing}
use stacks_pyth_bridge.Cbtc.Locked.{Keeps, Reach-Keeps, add_cbtc_liquidity-locked}
use stacks_pyth_bridge.Harness.Identifiers.{
  stx_price_identifier, btc_price_identifier, price_identifiers,
}
use stacks_pyth_bridge.Prelude.Bytes.{be_bytes}
use stacks_pyth_bridge.Wormhole.Keys.{IsDistinct}
use stacks_pyth_bridge.Runs.Store.{sample_chain}
use stacks_pyth_bridge.Runs.Wormhole.{sample_crypto, sample_guardians}
use stacks_pyth_bridge.Runs.Feeds.{toy_merkle}
use stacks_pyth_bridge.Runs.System.{live_state, addresses}

abbrev site : Site
site = record {
  pool = 50;
  oracle = 1;
  governance = live_state;
  contracts =
      deployed flat (sample_crypto 5) toy_merkle addresses live_state sample_chain sample_guardians;
}

abbrev start : World
start = record {
  token = record { balance = λ _. 0; supply = 0 };
  ledger = record { store = empty; balances = λ _. 1000 };
}

abbrev minted : World
minted = record start { token = record { balance = λ p. if p == 7 then 100 else 0; supply = 100 } }

abbrev deposited : World
deposited = record start {
  token = record {
    balance = λ p. if p == 50 then 40 else if p == 7 then 60 else if p == 7 then 100 else 0;
    supply = 100;
  };
}

mint_run : execute 9 site 9 start (Call.mint_cbtc 100 7) ≡ ok minted
unfolding execute mint ft_mint
mint_run = refl

deposit_run : execute 9 site 7 minted (Call.add_liquidity 40) ≡ ok deposited
unfolding execute add_cbtc_liquidity transfer ft_transfer
deposit_run = refl

add_run : add_cbtc_liquidity site 7 minted 40 ≡ ok (40, deposited)
unfolding add_cbtc_liquidity transfer ft_transfer
add_run = refl

reached : Reach 9 50 (λ p. p ≢ 50) start deposited
reached =
    Reach.next site 7 (Call.add_liquidity 40)
      (Reach.next site 9 (Call.mint_cbtc 100 7) Reach.here refl (λ e. omega (arith, e)) mint_run)
      refl (λ e. omega (arith, e)) deposit_run

Reach-Keeps_example :
    ((p : Principal) → ¬ (p ≢ 50) → Keeps p start deposited) × (¬ ◌≢◌ {A = ℕ} 9 50 → ◌≤◌ 100 0)
Reach-Keeps_example = Reach-Keeps reached

-- What others do after the deposit: a transfer of the rest.
abbrev later : World
later = record deposited {
  token = record deposited.token {
    balance = λ p. if p == 8 then 60 else if p == 7 then 0 else deposited.token.balance p;
  };
}

transfer_run : execute 9 site 7 deposited (Call.transfer_cbtc 60 7 8 none) ≡ ok later
unfolding execute transfer ft_transfer
transfer_run = refl

add_cbtc_liquidity-locked_example : 0 + 40 ≤ later.token.balance 50
add_cbtc_liquidity-locked_example = add_cbtc_liquidity-locked site 7 minted 40 40 add_run (
    Reach.next site 7 (Call.transfer_cbtc 60 7 8 none) Reach.here refl (λ e. omega (arith, e))
      transfer_run)

pool_pays_nothing_example :
    (remove_cbtc_liquidity site 7 deposited 10 ≡ err 1)
    × (withdraw_stx site 7 deposited 10 ≡ err 1)
    × ((r : Swap × World) → swap_stx site 7 deposited 10 ≢ ok r)
    × ((r : Swap × World) → swap_stx_trustless site 7 deposited 10 (1 ∷ []) (2 ∷ []) ≢ ok r)
pool_pays_nothing_example = pool_pays_nothing site 7 deposited 10 (1 ∷ []) (2 ∷ [])

abbrev quoted : World
quoted = record deposited {
  ledger = record deposited.ledger {
    store = record empty {
      prices = λ _. some (record {
        price = pos 100;
        conf = 1;
        expo = negsuc 7;
        ema_price = pos 100;
        ema_conf = 1;
        publish_time = 1;
        prev_publish_time = 0;
      });
    };
  };
}

-- With prices in the store the swap comes to its transfers.
swap_run : swap_stx site 7 quoted 10 ≡ err 1000
unfolding swap_stx read_price_from_pyth read_price_feed check_storage_contract read uint_mul
    uint_div exchange transfer
swap_run = refl

-- The pool reads the prices that the unit tests call by these names.
stx_price_run : stx_price_id ≡ stx_price_identifier
stx_price_run = refl

btc_price_run : btc_price_id ≡ btc_price_identifier
btc_price_run = refl

identifiers-IsDistinct : IsDistinct price_identifiers
unfolding be_bytes
identifiers-IsDistinct = grind arith

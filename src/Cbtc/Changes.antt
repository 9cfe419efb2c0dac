-- ===== src/Cbtc/Changes.antt =====
-- What a transaction on example/cbtc/contracts can change.
use stacks_pyth_bridge.Prelude.{ℕ, ◌≡◌, arith, Bool, true, none, Option}
use stacks_pyth_bridge.Prelude.Bytes.{Bytes}
use stacks_pyth_bridge.Clarity.Outcome.{ok, >>=-eq-ok, unwrap, unwrap-eq-ok}
use stacks_pyth_bridge.Clarity.Types.{Principal}
use stacks_pyth_bridge.Oracle.{Balances, stx_transfer, verify_and_update_price_feeds}
use stacks_pyth_bridge.Oracle.Charged.{update-Charged}
use stacks_pyth_bridge.Cbtc.Token.{Token, ft_transfer, ft_mint, ft_burn, transfer, mint, burn}
use stacks_pyth_bridge.Cbtc.Pool.{
  World, Site, stx_transfer_own, add_cbtc_liquidity, remove_cbtc_liquidity, withdraw_stx, swap_stx,
  swap_stx_trustless,
}
use stacks_pyth_bridge.Cbtc.Transactions.{Call, execute}
use stacks_pyth_bridge.Cbtc.Refused.{
  swap-never, swap_trustless-never, remove-refused, withdraw-refused,
}

-- The change of the token in a transaction from `from`.
pub data TokenChange (authority from : Principal) (t t' : Token) : Type 0 where
  kept : t ≡ t' → TokenChange authority from t t'
  moved :
      (n : ℕ) (a : Principal)
      → ft_transfer t n from a ≡ ok (true, t')
      → TokenChange authority from t t'
  minted :
      (n : ℕ) (a : Principal)
      → from ≡ authority
      → ft_mint t n a ≡ ok (true, t')
      → TokenChange authority from t t'
  burned : (n : ℕ) → ft_burn t n from ≡ ok (true, t') → TokenChange authority from t t'

-- The change of the STX.
pub data StxChange (from : Principal) (b b' : Balances) : Type 0 where
  kept : b ≡ b' → StxChange from b b'
  moved : (n : ℕ) (a : Principal) → stx_transfer b n from a ≡ ok b' → StxChange from b b'

transfer_inv :
    (from : Principal) (t t' : Token) (n a b : ℕ) (memo : Option Bytes) (r : Bool)
    → transfer from t n a b memo ≡ ok (r, t')
    → ft_transfer t n from b ≡ ok (true, t')
unfolding transfer ft_transfer
transfer_inv from t t' n a b memo r h = ground arith

mint_inv :
    (authority from : Principal) (t t' : Token) (n a : ℕ) (r : Bool)
    → mint authority from t n a ≡ ok (r, t')
    → (from ≡ authority) × (ft_mint t n a ≡ ok (true, t'))
unfolding mint ft_mint
mint_inv authority from t t' n a r h = ground arith

burn_inv :
    (from : Principal) (t t' : Token) (n : ℕ) (r : Bool)
    → burn from t n ≡ ok (r, t')
    → ft_burn t n from ≡ ok (true, t')
unfolding burn ft_burn
burn_inv from t t' n r h = ground arith

stx_inv :
    (from : Principal) (b b' : Balances) (n a : ℕ)
    → stx_transfer_own from b n from a ≡ ok b'
    → stx_transfer b n from a ≡ ok b'
unfolding stx_transfer_own
stx_inv from b b' n a h = ground arith

pub add_inv :
    (s : Site) (from : Principal) (w : World) (n : ℕ) (r : ℕ × World)
    → add_cbtc_liquidity s from w n ≡ ok r
    → (r.0 ≡ n)
      × (ft_transfer w.token n from s.pool ≡ ok (true, r.1.token))
      × (r.1.ledger ≡ w.ledger)
unfolding add_cbtc_liquidity
add_inv s from w n r h =
    let (x, e, h1) = >>=-eq-ok (unwrap (transfer from w.token n from s.pool none) 1) _ h in
    let i = transfer_inv from w.token x.1 n from s.pool none x.0 (unwrap-eq-ok _ 1 e) in
    (cc h1, cc (i, h1), cc h1)

-- A transaction changes the token and the STX in these ways at most.
abbrev pub Change : Principal → Principal → World → World → Type 0
Change authority from w u =
    TokenChange authority from w.token u.token × StxChange from w.ledger.balances u.ledger.balances

module _ (authority : Principal) (s : Site) (from : Principal) where
  pub execute-Change :
      (w u : World) (c : Call) → execute authority s from w c ≡ ok u → Change authority from w u
  unfolding execute
  execute-Change w u (Call.transfer_cbtc n a b memo) h =
      let (x, e, h1) = >>=-eq-ok (transfer from w.token n a b memo) _ h in
      let k : x.1 ≡ u.token = cc h1 in
      let i = transfer_inv from w.token x.1 n a b memo x.0 e in
      (TokenChange.moved n b (cc (i, k)), StxChange.kept (cc h1))
  execute-Change w u (Call.mint_cbtc n a) h =
      let (x, e, h1) = >>=-eq-ok (mint authority from w.token n a) _ h in
      let (i, j) = mint_inv authority from w.token x.1 n a x.0 e in
      (TokenChange.minted n a i (cc (j, h1)), StxChange.kept (cc h1))
  execute-Change w u (Call.burn_cbtc n) h =
      let (x, e, h1) = >>=-eq-ok (burn from w.token n) _ h in
      let i = burn_inv from w.token x.1 n x.0 e in
      (TokenChange.burned n (cc (i, h1)), StxChange.kept (cc h1))
  execute-Change w u (Call.send_stx n a) h =
      let (x, e, h1) = >>=-eq-ok (stx_transfer_own from w.ledger.balances n from a) _ h in
      let i = stx_inv from w.ledger.balances x n a e in
      (TokenChange.kept (cc h1), StxChange.moved n a (cc (i, h1)))
  execute-Change w u (Call.update_prices bytes) h =
      let (x, e, h1) =
        >>=-eq-ok
          (verify_and_update_price_feeds s.oracle s.governance from from w.ledger bytes s.contracts)
          _ h in
      let (n, paid) =
        update-Charged s.oracle s.governance from from w.ledger x.1 bytes s.contracts x.0 e in
      (
        TokenChange.kept (cc h1),
        StxChange.moved n s.governance.fee_recipient_address (cc (paid, h1)),
      )
  execute-Change w u (Call.add_liquidity n) h =
      let (x, e, h1) = >>=-eq-ok (add_cbtc_liquidity s from w n) _ h in
      let (_, i, j) = add_inv s from w n x e in
      (TokenChange.moved n s.pool (cc (i, h1)), StxChange.kept (cc (j, h1)))
  execute-Change w u (Call.remove_liquidity n) h =
      let (x, e, h1) = >>=-eq-ok (remove_cbtc_liquidity s from w n) _ h in
      absurd (cc (e, remove-refused s from w n))
  execute-Change w u (Call.take_stx n) h =
      let (x, e, h1) = >>=-eq-ok (withdraw_stx s from w n) _ h in
      absurd (cc (e, withdraw-refused s from w n))
  execute-Change w u (Call.swap n) h =
      let (x, e, h1) = >>=-eq-ok (swap_stx s from w n) _ h in absurd (swap-never s from w n x e)
  execute-Change w u (Call.swap_trustless n a b) h =
      let (x, e, h1) = >>=-eq-ok (swap_stx_trustless s from w n a b) _ h in
      absurd (swap_trustless-never s from w n a b x e)

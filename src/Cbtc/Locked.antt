-- ===== src/Cbtc/Locked.antt =====
-- Who can spend what on example/cbtc/contracts, and what becomes of a deposit in the pool.
use stacks_pyth_bridge.Prelude.{ℕ, ◌+◌, ◌≤◌, ◌≡◌, ◌≢◌, refl, arith, true, subst}
use stacks_pyth_bridge.Clarity.Outcome.{ok}
use stacks_pyth_bridge.Clarity.Types.{Principal}
use stacks_pyth_bridge.Oracle.{Balances, stx_transfer}
use stacks_pyth_bridge.Cbtc.Token.{Token, ft_transfer, ft_mint, ft_burn}
use stacks_pyth_bridge.Cbtc.Pool.{World, Site, add_cbtc_liquidity}
use stacks_pyth_bridge.Cbtc.Transactions.{Reach}
use stacks_pyth_bridge.Cbtc.Changes.{TokenChange, StxChange, execute-Change, add_inv}

ft_transfer-keeps :
    (t t' : Token) (n : ℕ) (a b p : Principal)
    → ft_transfer t n a b ≡ ok (true, t')
    → (a ≢ p → t.balance p ≤ t'.balance p) × (t'.supply ≡ t.supply)
unfolding ft_transfer
ft_transfer-keeps t t' n a b p h = ground arith

ft_mint-keeps :
    (t t' : Token) (n : ℕ) (a p : Principal)
    → ft_mint t n a ≡ ok (true, t')
    → t.balance p ≤ t'.balance p
unfolding ft_mint
ft_mint-keeps t t' n a p h = ground arith

ft_burn-keeps :
    (t t' : Token) (n : ℕ) (a p : Principal)
    → ft_burn t n a ≡ ok (true, t')
    → (a ≢ p → t.balance p ≤ t'.balance p) × (t'.supply ≤ t.supply)
unfolding ft_burn
ft_burn-keeps t t' n a p h = ground arith

stx_transfer-keeps :
    (b b' : Balances) (n : ℕ) (a c p : Principal)
    → stx_transfer b n a c ≡ ok b'
    → a ≢ p
    → b p ≤ b' p
unfolding stx_transfer
stx_transfer-keeps b b' n a c p h ne = ground arith

ft_transfer-received :
    (t t' : Token) (n : ℕ) (a b : Principal)
    → ft_transfer t n a b ≡ ok (true, t')
    → t'.balance b ≡ t.balance b + n
unfolding ft_transfer
ft_transfer-received t t' n a b h = ground arith

TokenChange-keeps :
    {authority from : Principal} {t t' : Token} (p : Principal)
    → TokenChange authority from t t'
    → (from ≢ p → t.balance p ≤ t'.balance p) × (from ≢ authority → t'.supply ≤ t.supply)
TokenChange-keeps {authority = authority} {from = from} {t = t} p (TokenChange.kept e) =
    subst
      (λ (u : Token).
        (from ≢ p → t.balance p ≤ u.balance p) × (from ≢ authority → u.supply ≤ t.supply))
      e (λ _. omega arith, λ _. omega arith)
TokenChange-keeps p (TokenChange.moved n a e) =
    let (x, y) = ft_transfer-keeps _ _ n _ a p e in (x, λ _. omega (arith, y))
TokenChange-keeps p (TokenChange.minted n a is e) =
    (λ _. ft_mint-keeps _ _ n a p e, λ ne. absurd (ne is))
TokenChange-keeps p (TokenChange.burned n e) = let (x, y) = ft_burn-keeps _ _ n _ p e in (x, λ _. y)

StxChange-keeps :
    {from : Principal} {b b' : Balances} (p : Principal)
    → StxChange from b b'
    → from ≢ p
    → b p ≤ b' p
StxChange-keeps {b = b} p (StxChange.kept e) ne =
    subst (λ (u : Balances). b p ≤ u p) e (omega arith)
StxChange-keeps p (StxChange.moved n a e) ne = stx_transfer-keeps _ _ n _ a p e ne

other_sender :
    (Sender : Principal → Type 0) {p from : Principal} → ¬ Sender p → Sender from → from ≢ p
other_sender Sender idle sends e = idle (subst Sender e sends)

-- What a principal has in one world is not less in another.
pub record Keeps (p : Principal) (w u : World) : Type 0 where
  pub cbtc : w.token.balance p ≤ u.token.balance p
  pub stx : w.ledger.balances p ≤ u.ledger.balances p

-- After any transactions on the token, the pool and the oracle, a principal that sent none of them
-- has at least the cBTC and the STX that it had, and if AUTHORITY sent none of them, the total of
-- cBTC is not above what it was.
pub Reach-Keeps :
    {authority pool : Principal} {Sender : Principal → Type 0} {w u : World}
    → Reach authority pool Sender w u
    → ((p : Principal) → ¬ Sender p → Keeps p w u)
      × (¬ Sender authority → u.token.supply ≤ w.token.supply)
Reach-Keeps Reach.here = (λ p _. record { cbtc = omega arith; stx = omega arith }, λ _. omega arith)
Reach-Keeps {Sender = Sender} (Reach.next s from c r same sends e) =
    let (before, supply) = Reach-Keeps r in
    let (x, y) = execute-Change _ s from _ _ c e in
    (
      λ p idle. record {
        cbtc = omega (
          arith,
          (before p idle).cbtc,
          (TokenChange-keeps p x).0 (other_sender Sender idle sends),
        );
        stx =
            omega
              (arith, (before p idle).stx, StxChange-keeps p y (other_sender Sender idle sends));
      },
      λ idle.
          omega (arith, supply idle, (TokenChange-keeps 0 x).1 (other_sender Sender idle sends)),
    )

-- What is added to the pool stays there: after any further transactions on the token, the pool and
-- the oracle that the pool itself does not send, its balance of cBTC is at least the one before and
-- the amount that was added.
pub add_cbtc_liquidity-locked :
    {authority : Principal} (s : Site) (from : Principal) (w : World) {v u : World} (n answer : ℕ)
    → add_cbtc_liquidity s from w n ≡ ok (answer, v)
    → Reach authority s.pool (λ p. p ≢ s.pool) v u
    → w.token.balance s.pool + n ≤ u.token.balance s.pool
add_cbtc_liquidity-locked s from w n answer h r =
    let (_, e, _) = add_inv s from w n (answer, _) h in
    let (keeps, _) = Reach-Keeps r in
    omega (arith, (keeps s.pool λ ne. ne refl).cbtc, ft_transfer-received _ _ n from s.pool e)

-- ===== src/Cbtc/Token.antt =====
-- example/cbtc/contracts/cbtc-token.clar: the token. The name, the symbol, the decimals and the uri
-- are constants that nothing reads and are left out.
use stacks_pyth_bridge.Prelude.{ℕ, ◌+◌, ◌-◌, Bool, true, ◌==◌, leb, ltb, if◌then◌else◌, Option}
use stacks_pyth_bridge.Prelude.Bytes.{Bytes}
use stacks_pyth_bridge.Clarity.Outcome.{Outcome, ok, err, panic, ◌>>=◌, ◌>>◌, asserts, uint_limit}
use stacks_pyth_bridge.Clarity.Types.{Principal}

-- `(define-fungible-token cbtc)`: the balances and the total that the chain keeps.
pub record Token : Type 0 where
  pub balance : Principal → ℕ
  pub supply : ℕ

-- A balance with `v` for `owner`.
abbrev pub set_balance : (Principal → ℕ) → Principal → ℕ → Principal → ℕ
set_balance b owner v p = if p == owner then v else b p

-- `ft-transfer?`: the amount is not positive, sender and recipient are one, the balance is too low.
unfoldable pub ft_transfer : Token → ℕ → Principal → Principal → Outcome (Bool × Token)
ft_transfer t amount sender recipient =
    if amount == 0
    then err 3
    else if sender == recipient
    then err 2
    else if leb amount (t.balance sender)
    then ok (
      true,
      record t {
        balance =
            set_balance (set_balance t.balance sender (t.balance sender - amount)) recipient
              (t.balance recipient + amount);
      },
    )
    else err 1

-- `ft-mint?`, whose total stays a uint.
unfoldable pub ft_mint : Token → ℕ → Principal → Outcome (Bool × Token)
ft_mint t amount recipient =
    if amount == 0
    then err 1
    else if ltb (t.supply + amount) uint_limit
    then ok (
      true,
      record {
        balance = set_balance t.balance recipient (t.balance recipient + amount);
        supply = t.supply + amount;
      },
    )
    else panic

-- `ft-burn?`
unfoldable pub ft_burn : Token → ℕ → Principal → Outcome (Bool × Token)
ft_burn t amount owner =
    if amount == 0
    then err 1
    else if leb amount (t.balance owner)
    then ok (
      true,
      record {
        balance = set_balance t.balance owner (t.balance owner - amount);
        supply = t.supply - amount;
      },
    )
    else err 1

unfoldable pub get_balance : Token → Principal → Outcome ℕ
get_balance t owner = ok (t.balance owner)

unfoldable pub get_total_supply : Token → Outcome ℕ
get_total_supply t = ok t.supply

unfoldable pub transfer :
    Principal → Token → ℕ → Principal → Principal → Option Bytes → Outcome (Bool × Token)
unfolding ft_transfer
transfer tx_sender t amount sender recipient memo =
    if tx_sender == sender
    then (do (_, t') ← ft_transfer t amount sender recipient; ok (true, t'))
    else err 4

-- `authority` is the principal AUTHORITY.
unfoldable pub mint : Principal → Principal → Token → ℕ → Principal → Outcome (Bool × Token)
unfolding ft_mint
mint authority tx_sender t amount recipient = do
  asserts (tx_sender == authority) 0
  ft_mint t amount recipient

unfoldable pub burn : Principal → Token → ℕ → Outcome (Bool × Token)
unfolding ft_burn
burn tx_sender t amount = ft_burn t amount tx_sender

-- ===== src/Oracle/Fees.antt =====
-- What an update through contracts/pyth-oracle-v2.clar costs, and what it rests on.
use stacks_pyth_bridge.Prelude.{
  ℕ, zero, suc, ◌+◌, ◌-◌, ◌*◌, ◌^◌, ◌<◌, ◌≤◌, ◌≡◌, ◌≢◌, sym, ap, ◌∙◌, subst,
}
use stacks_pyth_bridge.Prelude.{List, some, arith, length, Bool, ◌==◌, if◌then◌else◌}
use stacks_pyth_bridge.Prelude.Bytes.{Bytes}
use stacks_pyth_bridge.Clarity.Outcome.{Outcome, ok, ◌>>=◌, >>=-eq-ok, unwrap, uint_mul, uint_pow}
use stacks_pyth_bridge.Clarity.Types.{Principal}
use stacks_pyth_bridge.Governance.{Governance, TraitPlan, check_execution_flow}
use stacks_pyth_bridge.Governance.Flow.{IsDistinct, Matches}
use stacks_pyth_bridge.Store.{PriceEntry, Store}
use stacks_pyth_bridge.Oracle.{
  Balances, Contracts, Ledger, plan_of, stx_transfer, fee_amount, verify_and_update_price_feeds,
}
use native.Mathlib.Nat.{pow-zero, pow-succ'}

uint_mul_exact : (a b r : ℕ) → uint_mul a b ≡ ok r → r ≡ a * b
unfolding uint_mul
uint_mul_exact a b r h = ground arith

uint_pow_exact : (a e r : ℕ) → uint_pow a e ≡ ok r → r ≡ a ^ e
unfolding uint_pow
uint_pow_exact a zero r h = ground (arith, pow-zero a)
uint_pow_exact a (suc e) r h =
    let (q, x, y) = >>=-eq-ok (uint_pow a e) _ h in
    uint_mul_exact a q r y ∙ ap (λ (t : ℕ). a * t) (uint_pow_exact a e q x) ∙ sym (pow-succ' a e)

fee_exact :
    (g : Governance) (count amount : ℕ)
    → fee_amount g count ≡ ok amount
    → amount ≡ count * (g.fee_value.mantissa * 10 ^ g.fee_value.exponent)
unfolding fee_amount
fee_exact g count amount h =
    let (p, x, h1) = >>=-eq-ok (uint_pow 10 g.fee_value.exponent) _ h in
    let (u, y, h2) = >>=-eq-ok (uint_mul g.fee_value.mantissa p) _ h1 in
    uint_mul_exact count u amount h2
    ∙ ap (λ (t : ℕ). count * t) (uint_mul_exact g.fee_value.mantissa p u y)
    ∙ ap (λ (t : ℕ). count * (g.fee_value.mantissa * t))
        (uint_pow_exact 10 g.fee_value.exponent p x)

-- What a transfer that succeeds has done.
pub record Paid (b b' : Balances) (amount : ℕ) (sender recipient : Principal) : Type 0 where
  pub positive : 0 < amount
  pub apart : sender ≢ recipient
  pub covered : amount ≤ b sender
  pub debited : b' sender + amount ≡ b sender
  pub credited : b' recipient ≡ b recipient + amount
  pub others : (p : Principal) → p ≢ sender → p ≢ recipient → b' p ≡ b p

moved : Balances → ℕ → Principal → Principal → Balances
moved b amount sender recipient p =
    if p == sender then b p - amount else if p == recipient then b p + amount else b p

stx_transfer_exact :
    (b b' : Balances) (amount sender recipient : ℕ)
    → unwrap (stx_transfer b amount sender recipient) 402 ≡ ok b'
    → (0 < amount)
      × (sender ≢ recipient)
      × (amount ≤ b sender)
      × (moved b amount sender recipient ≡ b')
unfolding stx_transfer moved
stx_transfer_exact b b' amount sender recipient h = ground arith

transfer_step :
    (b b' : Balances) (amount sender recipient : ℕ)
    → unwrap (stx_transfer b amount sender recipient) 402 ≡ ok b'
    → Paid b b' amount sender recipient
unfolding moved
transfer_step b b' amount sender recipient h =
    let (x, y, z, w) = stx_transfer_exact b b' amount sender recipient h in
    record {
      positive = x;
      apart = y;
      covered = z;
      debited = rw (← w) (ground arith);
      credited = rw (← w) (ground arith);
      others = λ p u v. rw (← w) (ground arith);
    }

module _ (g : Governance) (tx_sender : Principal) where
  -- The end of the update, from the stored prices on.
  abbrev pub settle : Balances → List PriceEntry × Store → Outcome (List PriceEntry × Ledger)
  settle b w = do
    amount ← fee_amount g (length w.0)
    b' ← unwrap (stx_transfer b amount tx_sender g.fee_recipient_address) 402
    ok (w.0, record { store = w.1; balances = b' })

  charge_step :
      (b : Balances) (w : List PriceEntry × Store) (out : List PriceEntry) (l' : Ledger)
      → settle b w ≡ ok (out, l')
      → (w ≡ (out, l'.store))
        × Paid b l'.balances
            (length out * (g.fee_value.mantissa * 10 ^ g.fee_value.exponent))
            tx_sender
            g.fee_recipient_address
  charge_step b w out l' h =
      let (amount, f, h1) = >>=-eq-ok (fee_amount g (length w.0)) _ h in
      let (b', t, h2) =
        >>=-eq-ok (unwrap (stx_transfer b amount tx_sender g.fee_recipient_address) 402) _ h1 in
      charged w amount b' out l' h2 (fee_exact g (length w.0) amount f)
        (transfer_step b b' amount tx_sender g.fee_recipient_address t)
    where
      charged :
          (w : List PriceEntry × Store) (amount : ℕ) (b' : Balances) (out : List PriceEntry)
          (l' : Ledger)
          → ◌≡◌ {A = Outcome (List PriceEntry × Ledger)}
              (ok (w.0, record { store = w.1; balances = b' }))
              (ok (out, l'))
          → amount ≡ length w.0 * (g.fee_value.mantissa * 10 ^ g.fee_value.exponent)
          → Paid b b' amount tx_sender g.fee_recipient_address
          → (w ≡ (out, l'.store))
            × Paid b l'.balances
                (length out * (g.fee_value.mantissa * 10 ^ g.fee_value.exponent))
                tx_sender
                g.fee_recipient_address
      charged w amount b' out l' e f t =
          let x : w.0 ≡ out = cc e in
          let y : record { store = w.1; balances = b' } ≡ l' = cc e in
          let unit = g.fee_value.mantissa * 10 ^ g.fee_value.exponent in
          let to = g.fee_recipient_address in
          let p : Paid b b' (length w.0 * unit) tx_sender to =
            subst (λ (q : ℕ). Paid b b' q tx_sender to) f t in
          let p' : Paid b b' (length out * unit) tx_sender to =
            subst (λ (q : List PriceEntry). Paid b b' (length q * unit) tx_sender to) x p in
          (
            λ i. (x i, (y i).store),
            subst (λ (q : Ledger). Paid b q.balances (length out * unit) tx_sender to) y p',
          )

no_amount : (n m p : ℕ) → m ≡ 0 → 0 < n * (m * p) → ⊥
no_amount n m p e h = grind arith

plan_step :
    (g : Governance) (self caller : Principal) (t : TraitPlan) (b : Bool)
    → IsDistinct g.current_execution_plan
    → self ≡ g.current_execution_plan.pyth_oracle_contract
    → check_execution_flow g self caller (some t) ≡ ok b
    → Matches t g.current_execution_plan
unfolding check_execution_flow
plan_step g self caller t b d me h = ground arith

module _ (self : Principal) (g : Governance) (tx_sender contract_caller : Principal) where
  -- An update that succeeds used the contracts of the plan, decoded the bytes, stored what the
  -- storage returns, and moved the fee for each stored price, mantissa * 10 ^ exponent, from the
  -- sender of the transaction to the fee recipient; the amount is positive, the two differ, and no
  -- other balance changes. Given: this contract is the oracle of the plan, and the plan names three
  -- different contracts.
  pub verify_and_update_price_feeds-Paid :
      (l l' : Ledger) (bytes : Bytes) (plan : Contracts) (out : List PriceEntry)
      → IsDistinct g.current_execution_plan
      → self ≡ g.current_execution_plan.pyth_oracle_contract
      → verify_and_update_price_feeds self g tx_sender contract_caller l bytes plan ≡ ok (out, l')
      → Matches (plan_of plan) g.current_execution_plan
        × (decoded : List PriceEntry) × (plan.pyth_decoder_contract.decode_and_verify_price_feeds
              self bytes plan.wormhole_core_contract
            ≡ ok decoded)
        × (plan.pyth_storage_contract.write l.store self decoded ≡ ok (out, l'.store))
        × Paid l.balances l'.balances
            (length out * (g.fee_value.mantissa * 10 ^ g.fee_value.exponent))
            tx_sender
            g.fee_recipient_address
  unfolding verify_and_update_price_feeds
  verify_and_update_price_feeds-Paid l l' bytes plan out d me h =
      let (b, x, h1) =
        >>=-eq-ok (check_execution_flow g self contract_caller (some (plan_of plan))) _ h in
      let (decoded, y, h2) =
        >>=-eq-ok
          (plan.pyth_decoder_contract.decode_and_verify_price_feeds self bytes
            plan.wormhole_core_contract)
          _ h1 in
      let (w, z, h3) = >>=-eq-ok (plan.pyth_storage_contract.write l.store self decoded) _ h2 in
      let (e, paid) = charge_step g tx_sender l.balances w out l' h3 in
      (
        plan_step g self contract_caller (plan_of plan) b d me x,
        decoded,
        y,
        z ∙ ap (λ (t : List PriceEntry × Store). ok t) e,
        paid,
      )

  -- With a fee whose mantissa is 0 no update succeeds, whatever the bytes and the contracts.
  pub verify_and_update_price_feeds_no_fee :
      (l : Ledger) (bytes : Bytes) (plan : Contracts)
      → g.fee_value.mantissa ≡ 0
      → (r : List PriceEntry × Ledger)
      → verify_and_update_price_feeds self g tx_sender contract_caller l bytes plan ≢ ok r
  unfolding verify_and_update_price_feeds
  verify_and_update_price_feeds_no_fee l bytes plan zero_fee r h =
      let (b, x, h1) =
        >>=-eq-ok (check_execution_flow g self contract_caller (some (plan_of plan))) _ h in
      let (decoded, y, h2) =
        >>=-eq-ok
          (plan.pyth_decoder_contract.decode_and_verify_price_feeds self bytes
            plan.wormhole_core_contract)
          _ h1 in
      let (w, z, h3) = >>=-eq-ok (plan.pyth_storage_contract.write l.store self decoded) _ h2 in
      let (e, paid) = charge_step g tx_sender l.balances w r.0 r.1 h3 in
      no_amount (length r.0) g.fee_value.mantissa (10 ^ g.fee_value.exponent) zero_fee paid.positive

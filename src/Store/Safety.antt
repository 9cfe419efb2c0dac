-- ===== src/Store/Safety.antt =====
-- What a successful `write` of contracts/pyth-store-v1.clar promises to a reader.
use stacks_pyth_bridge.Prelude.{ℕ, ◌<◌, ◌≤◌, ◌≡◌, refl, sym, ap, ◌∙◌, inl, inr, Bool, true, false}
use stacks_pyth_bridge.Prelude.{
  List, [], ◌∷◌, Option, some, none, ltb, leb, arith, length, All, Bool-cases, ltb→lt,
  if◌then◌else◌,
}
use stacks_pyth_bridge.Prelude.Bytes.{Bytes, bytes_eq, bytes_eq_sound}
use stacks_pyth_bridge.Clarity.Outcome.{Outcome, ok, err, panic, ◌>>=◌}
use stacks_pyth_bridge.Clarity.Types.{Principal}
use stacks_pyth_bridge.Governance.{Governance, TraitPlan, check_execution_flow}
use stacks_pyth_bridge.Governance.Flow.{IsDistinct, check_execution_flow_exact}
use stacks_pyth_bridge.Store.{Store, PriceEntry, Chain, write, price_of}
use stacks_pyth_bridge.Store.Batch.{IsLive, is_accepted, stored, accepted, stored_all, write_exact}
use stacks_pyth_bridge.Store.Newest.{NewestWins, In, time_of, stored_all-NewestWins}

-- The two maps agree.
pub record IsConsistent (s : Store) : Type 0 where
  pub at_key :
      (key : Bytes)
      → s.timestamps key ≡ elim (s.prices key) [ none ↦ none | some p ↦ some p.publish_time ]

guarded_ok :
    {A B : Type 0} (m : Outcome A) (test : Bool) (code : ℕ) (b c : B)
    → (m >>= λ _. if test then ok b else err code) ≡ ok c
    → (a : A) × (m ≡ ok a) × (test ≡ true) × (b ≡ c)
guarded_ok (ok a) true code b c h = (a, refl, refl, cc)
guarded_ok (ok a) false code b c h = cc
guarded_ok (err e) test code b c h = cc
guarded_ok panic test code b c h = cc

check_execution_flow-true :
    (g : Governance) (caller former : Principal) (opt : Option TraitPlan) (b : Bool)
    → check_execution_flow g caller former opt ≡ ok b
    → b ≡ true
unfolding check_execution_flow
check_execution_flow-true g caller former none b h = ground arith
check_execution_flow-true g caller former (some t) b h = ground arith

oracle_only :
    (g : Governance) (self caller : Principal)
    → IsDistinct g.current_execution_plan
    → check_execution_flow g self caller none ≡ ok true
    → caller ≡ g.current_execution_plan.pyth_oracle_contract
oracle_only g self caller d h = elim (check_execution_flow_exact g self caller none d) [
  | inl (inl x, e) ↦ x.1
  | inl (inr (inl x), e) ↦ x.1
  | inl (inr (inr x), e) ↦ cc (x.2)
  | inr (x, e) ↦ cc
]

stored_grows :
    (oldest : ℕ) (s : Store) (e : PriceEntry) (key : Bytes)
    → time_of s key ≤ time_of (stored oldest s e) key
stored_grows oldest s e key =
    elim (Bool-cases (ltb (time_of s e.price_identifier) e.publish_time)) [
      | inr old ↦ rw old (omega arith)
      | inl new ↦ elim (Bool-cases (leb oldest e.publish_time)) [
        | inr stale ↦ rw (new, stale) (omega arith)
        | inl fresh ↦ elim (Bool-cases (bytes_eq e.price_identifier key)) [
          | inr other ↦ rw (new, fresh, other) (omega arith)
          | inl same ↦
              rw (new, fresh, same)
                (omega (
                  arith,
                  ltb→lt _ _ new,
                  ap (λ (t : Bytes). time_of s t) (bytes_eq_sound e.price_identifier key same),
                ))
        ]
      ]
    ]

-- An entry of the batch that is not stale and newer than the store.
abbrev pub IsNews : ℕ → Store → List PriceEntry → PriceEntry → Type 0
IsNews oldest s es e =
    In e es × (oldest ≤ e.publish_time) × (time_of s e.price_identifier < e.publish_time)

weaken :
    (oldest : ℕ) (s : Store) (e : PriceEntry) (es out : List PriceEntry)
    → All (IsNews oldest (stored oldest s e) es) out
    → All (IsNews oldest s (e ∷ es)) out
weaken oldest s e es [] h = tt
weaken oldest s e es (x ∷ xs) ((m, f, n), h) = (
  (inr m, f, omega (arith, stored_grows oldest s e x.price_identifier)),
  weaken oldest s e es xs h,
)

accepted-IsNews :
    (oldest : ℕ) (s : Store) (es : List PriceEntry)
    → All (IsNews oldest s es) (accepted oldest s es)
unfolding accepted
accepted-IsNews oldest s [] = tt
accepted-IsNews oldest s (e ∷ es) =
    let rest = weaken oldest s e es _ (accepted-IsNews oldest (stored oldest s e) es) in
    elim (Bool-cases (is_accepted oldest s e)) [
      | inr old ↦ rw old (rw old at rest)
      | inl new ↦ rw new ((inl refl, ground arith, ground arith), rw new at rest)
    ]

module _ (g : Governance) (chain : Chain) (oldest : ℕ) (live : IsLive g chain oldest) where
  module _ (self caller : Principal) (s s' : Store) (es out : List PriceEntry) where
    write_step :
        write self g chain s caller es ≡ ok (out, s')
        → (check_execution_flow g self caller none ≡ ok true)
          × (out ≡ accepted oldest s es)
          × (s' ≡ stored_all oldest s es)
          × (0 < length out)
    write_step h =
        let (b, e, t, x) =
          guarded_ok (check_execution_flow g self caller none) _ _ _ _
            (sym (write_exact g chain oldest live self caller s es) ∙ h) in
        let y : accepted oldest s es ≡ out = ap (λ (r : List PriceEntry × Store). r.0) x in
        (
          e ∙ ap (λ (q : Bool). ok q) (check_execution_flow-true g self caller none b e),
          sym y,
          sym (ap (λ (r : List PriceEntry × Store). r.1) x),
          rw y at (ltb→lt _ _ t),
        )

    -- A write that succeeds was called by the oracle contract of the plan, and what it returns is
    -- not empty and consists of entries of the batch that are not stale and newer than the store
    -- was. Given: a chain with a block before the present one whose time leaves room for the
    -- threshold (`IsLive`), and three different contracts in the plan.
    pub write_sound :
        IsDistinct g.current_execution_plan
        → write self g chain s caller es ≡ ok (out, s')
        → (caller ≡ g.current_execution_plan.pyth_oracle_contract)
          × (0 < length out)
          × All (IsNews oldest s es) out
    write_sound d h =
        let (a, b, c, n) = write_step h in
        (oracle_only g self caller d a, n, rw b (accepted-IsNews oldest s es))

    -- After a successful write, for every key: either no entry of the batch that is not stale is
    -- newer than what was stored, and both maps keep their values; or both maps hold the values of
    -- an entry of the batch for that key that is not stale, newer than what was stored, and at
    -- least as new as every other such entry. Given: a live chain (`IsLive`).
    pub write-NewestWins :
        (key : Bytes)
        → write self g chain s caller es ≡ ok (out, s')
        → NewestWins oldest key s es s'
    write-NewestWins key h =
        let (a, b, c, d) = write_step h in rw c (stored_all-NewestWins oldest key s es)

    -- If before a successful write the timestamp of every key is the publish time of its price, so
    -- it is after it. Given: a live chain (`IsLive`).
    pub write-IsConsistent :
        IsConsistent s → write self g chain s caller es ≡ ok (out, s') → IsConsistent s'
    unfolding price_of
    write-IsConsistent v h = record {
      at_key = λ key. elim (write-NewestWins key h) [
        | inl (p, t, b) ↦ rw (p, t) (v.at_key key)
        | inr (e, m, i, f, n, p, t, b) ↦ rw (p, t) refl
      ];
    }

-- ===== src/Store/Batch.antt =====
-- What `write` of contracts/pyth-store-v1.clar does to the maps, as a plain recursion over the batch.
use stacks_pyth_bridge.Prelude.{ℕ, ◌-◌, ◌≤◌, ◌≡◌, refl, Bool, true, false, ◌&&◌, some, none}
use stacks_pyth_bridge.Prelude.{
  List, [], ◌∷◌, ltb, leb, if◌then◌else◌, length, le→leb, Bool-cases, inl, inr,
}
use stacks_pyth_bridge.Clarity.Outcome.{Outcome, ok, err, panic, ◌>>=◌, asserts}
use stacks_pyth_bridge.Clarity.Types.{Principal}
use stacks_pyth_bridge.Governance.{Governance, check_execution_flow}
use stacks_pyth_bridge.Store.{
  Store, Chain, PriceEntry, price_of, map_set, default_to, write_batch_entry, map_write_batch_entry,
  filter_ok, map_unwrapped, write, err_invalid_updates, err_newer_price_available, err_stale_price,
  entry_response,
}

-- A chain with a block before the present one, whose time leaves room for the threshold; entries
-- older than `oldest` are stale.
pub record IsLive (g : Governance) (chain : Chain) (oldest : ℕ) : Type 0 where
  pub time : ℕ
  pub started : 1 ≤ chain.block_height
  pub known : chain.block_time (chain.block_height - 1) ≡ some time
  pub room : g.stale_price_threshold ≤ time
  pub bound : oldest ≡ time - g.stale_price_threshold

-- An entry is stored if it is newer than what the store has, and not stale.
abbrev pub is_accepted : ℕ → Store → PriceEntry → Bool
is_accepted oldest s e =
    ltb (default_to 0 (s.timestamps e.price_identifier)) e.publish_time && leb oldest e.publish_time

abbrev pub put : Store → PriceEntry → Store
put s e = record {
  prices = map_set s.prices e.price_identifier (price_of e);
  timestamps = map_set s.timestamps e.price_identifier e.publish_time;
}

abbrev pub stored : ℕ → Store → PriceEntry → Store
stored oldest s e = if is_accepted oldest s e then put s e else s

unfoldable pub stored_all : ℕ → Store → List PriceEntry → Store
stored_all oldest s [] = s
stored_all oldest s (e ∷ es) = stored_all oldest (stored oldest s e) es

unfoldable pub accepted : ℕ → Store → List PriceEntry → List PriceEntry
accepted oldest s [] = []
accepted oldest s (e ∷ es) =
    let rest = accepted oldest (stored oldest s e) es in
    if is_accepted oldest s e then e ∷ rest else rest

abbrev response : ℕ → Store → PriceEntry → Outcome PriceEntry
response oldest s e =
    if ltb (default_to 0 (s.timestamps e.price_identifier)) e.publish_time
    then (if leb oldest e.publish_time then ok e else err err_stale_price)
    else err err_newer_price_available

responses : ℕ → Store → List PriceEntry → List (Outcome PriceEntry)
responses oldest s [] = []
responses oldest s (e ∷ es) = response oldest s e ∷ responses oldest (stored oldest s e) es

unwrap_responses :
    (oldest : ℕ) (s : Store) (es : List PriceEntry)
    → map_unwrapped (filter_ok (responses oldest s es)) ≡ ok (accepted oldest s es)
unfolding map_unwrapped filter_ok responses accepted
unwrap_responses oldest s [] = refl
unwrap_responses oldest s (e ∷ es) =
    elim (Bool-cases (ltb (default_to 0 (s.timestamps e.price_identifier)) e.publish_time)) [
      | inl new ↦ elim (Bool-cases (leb oldest e.publish_time)) [
        | inl fresh ↦ rw (new, fresh, unwrap_responses oldest (put s e) es)
        | inr stale ↦ rw (new, stale) (unwrap_responses oldest s es)
      ]
      | inr old ↦ rw old (unwrap_responses oldest s es)
    ]

guarded :
    {A B : Type 0} (m : Outcome A) (test : Bool) (code : ℕ) (b : B)
    → (m >>= λ _. asserts test code >>= λ _. ok b) ≡ (m >>= λ _. if test then ok b else err code)
guarded (ok a) true code b = refl
guarded (ok a) false code b = refl
guarded (err e) test code b = refl
guarded panic test code b = refl

module _ (g : Governance) (chain : Chain) (oldest : ℕ) (live : IsLive g chain oldest) where
  entry_exact :
      (s : Store) (e : PriceEntry)
      → write_batch_entry g chain s e ≡ (
          if ltb (default_to 0 (s.timestamps e.price_identifier)) e.publish_time
          then (if leb oldest e.publish_time then ok (e, put s e) else err err_stale_price)
          else err err_newer_price_available)
  unfolding write_batch_entry
  entry_exact s e =
      rw (le→leb _ _ live.started, live.known, live.bound)
        (elim (Bool-cases (ltb (default_to 0 (s.timestamps e.price_identifier)) e.publish_time)) [
          | inl new ↦
              rw (new, le→leb _ _ live.room)
                (elim (Bool-cases (leb (live.time - g.stale_price_threshold) e.publish_time)) [
                  | inl fresh ↦ rw fresh
                  | inr stale ↦ rw stale
                ])
          | inr old ↦ rw old
        ])

  entry_response_exact :
      (s : Store) (e : PriceEntry)
      → entry_response s (write_batch_entry g chain s e)
        ≡ ok (response oldest s e, stored oldest s e)
  entry_response_exact s e =
      rw entry_exact
        (elim (Bool-cases (ltb (default_to 0 (s.timestamps e.price_identifier)) e.publish_time)) [
          | inl new ↦ elim (Bool-cases (leb oldest e.publish_time)) [
            | inl fresh ↦ rw (new, fresh)
            | inr stale ↦ rw (new, stale)
          ]
          | inr old ↦ rw old
        ])

  map_exact :
      (s : Store) (es : List PriceEntry)
      → map_write_batch_entry g chain s es ≡ ok (responses oldest s es, stored_all oldest s es)
  unfolding map_write_batch_entry responses stored_all
  map_exact s [] = refl
  map_exact s (e ∷ es) = rw (entry_response_exact s e, map_exact (stored oldest s e) es)

  -- On a live chain (`IsLive`) a write is this recursion: it passes on the refusal of the control
  -- flow check; else it answers with the accepted entries and the maps with them stored in turn, or
  -- with the error for invalid updates if none is accepted. It never stops with a runtime error.
  pub write_exact :
      (self caller : Principal) (s : Store) (es : List PriceEntry)
      → write self g chain s caller es ≡ (
          check_execution_flow g self caller none >>= λ _.
          if ltb 0 (length (accepted oldest s es))
          then ok (accepted oldest s es, stored_all oldest s es)
          else err err_invalid_updates)
  unfolding write
  write_exact self caller s es =
      rw (map_exact s es, unwrap_responses oldest s es)
        (guarded (check_execution_flow g self caller none) _ _ _)

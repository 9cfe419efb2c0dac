-- ===== src/Store/Newest.antt =====
-- The newest price wins: what the maps of contracts/pyth-store-v1.clar hold after a batch.
use stacks_pyth_bridge.Prelude.{ℕ, ◌<◌, ◌≤◌, ◌≡◌, refl, ap, ◌∙◌, ◌⊎◌, inl, inr, true, false}
use stacks_pyth_bridge.Prelude.{
  List, [], ◌∷◌, some, ltb, leb, arith, All, Bool-cases, leb→le, ltb→lt,
}
use stacks_pyth_bridge.Prelude.Bytes.{Bytes, bytes_eq, bytes_eq_sound, bytes_eq_refl}
use stacks_pyth_bridge.Store.{Store, PriceEntry, price_of, default_to}
use stacks_pyth_bridge.Store.Batch.{put, stored, stored_all}

-- The time of the stored price, 0 if there is none.
abbrev pub time_of : Store → Bytes → ℕ
time_of s key = default_to 0 (s.timestamps key)

-- No entry for the key that is not stale is newer than `time`.
abbrev pub Bounded : ℕ → Bytes → ℕ → List PriceEntry → Type 0
Bounded oldest key time es =
    All (λ e. e.price_identifier ≡ key → oldest ≤ e.publish_time → e.publish_time ≤ time) es

-- The batch holds the entry.
abbrev pub In : PriceEntry → List PriceEntry → Type 0
In e [] = ⊥
In e (x ∷ xs) = (e ≡ x) ⊎ In e xs

-- The key keeps its price, since no entry is newer; or it has the price of the newest entry.
abbrev pub NewestWins : ℕ → Bytes → Store → List PriceEntry → Store → Type 0
NewestWins oldest key s es s' =
    ((s'.prices key ≡ s.prices key)
      × (s'.timestamps key ≡ s.timestamps key)
      × Bounded oldest key (time_of s key) es)
    ⊎ ((e : PriceEntry) × In e es
        × (e.price_identifier ≡ key)
        × (oldest ≤ e.publish_time)
        × (time_of s key < e.publish_time)
        × (s'.prices key ≡ some (price_of e))
        × (s'.timestamps key ≡ some e.publish_time)
        × Bounded oldest key e.publish_time es)

module _ (oldest : ℕ) (key : Bytes) where
  -- An entry that is not stored, or goes to another key.
  skipped :
      (s s' : Store) (e : PriceEntry) (es : List PriceEntry)
      → (e.price_identifier ≡ key → oldest ≤ e.publish_time → e.publish_time ≤ time_of s key)
      → NewestWins oldest key s es s'
      → NewestWins oldest key s (e ∷ es) s'
  skipped s s' e es old h = elim h [
    | inl (a, b, c) ↦ inl (a, b, (old, c))
    | inr (x, m, i, f, n, p, t, c) ↦
        inr (x, inr m, i, f, n, p, t, ((λ q r. omega (arith, old q r)), c))
  ]

  -- An entry that is stored under the key.
  taken :
      (s s' : Store) (e : PriceEntry) (es : List PriceEntry)
      → e.price_identifier ≡ key
      → oldest ≤ e.publish_time
      → time_of s key < e.publish_time
      → NewestWins oldest key (put s e) es s'
      → NewestWins oldest key s (e ∷ es) s'
  taken s s' e es k f n h = elim h [
    | inl (a, b, c) ↦
        inr (e, inl refl, k, f, n, a ∙ rw same, b ∙ rw same, ((λ q r. omega arith), rw same at c))
    | inr (x, m, i, g, o, p, t, c) ↦
        inr (x, inr m, i, g, omega (arith, newer x o), p, t, ((λ q r. omega (arith, newer x o)), c))
  ]
    where
      same : bytes_eq e.price_identifier key ≡ true
      same = rw k (bytes_eq_refl key)

      newer :
          (x : PriceEntry)
          → time_of (put s e) key < x.publish_time
          → e.publish_time < x.publish_time
      newer x o = rw same at o

  not_newer :
      (s : Store) (e : PriceEntry)
      → e.price_identifier ≡ key
      → ltb (time_of s e.price_identifier) e.publish_time ≡ false
      → e.publish_time ≤ time_of s key
  not_newer s e k old =
      let old' : ltb (time_of s key) e.publish_time ≡ false = rw k at old in ground arith

  is_newer :
      (s : Store) (e : PriceEntry)
      → e.price_identifier ≡ key
      → ltb (time_of s e.price_identifier) e.publish_time ≡ true
      → time_of s key < e.publish_time
  is_newer s e k new = ltb→lt _ _ (rw k at new)

  newest_step :
      (s s' : Store) (e : PriceEntry) (es : List PriceEntry)
      → NewestWins oldest key (stored oldest s e) es s'
      → NewestWins oldest key s (e ∷ es) s'
  newest_step s s' e es h = elim (Bool-cases (ltb (time_of s e.price_identifier) e.publish_time)) [
    | inr old ↦ skipped s s' e es (λ k f. not_newer s e k old) (rw old at h)
    | inl new ↦ elim (Bool-cases (leb oldest e.publish_time)) [
      | inr stale ↦ skipped s s' e es (λ k f. absurd (ground arith)) (rw (new, stale) at h)
      | inl fresh ↦ elim (Bool-cases (bytes_eq e.price_identifier key)) [
        | inl same ↦
            taken s s' e es (bytes_eq_sound _ _ same) (leb→le _ _ fresh)
              (is_newer s e (bytes_eq_sound _ _ same) new) (rw (new, fresh) at h)
        | inr other ↦
            skipped s s' e es
              (λ k f. absurd (cc (other, bytes_eq_refl key, ap (λ (t : Bytes). bytes_eq t key) k)))
              (rw (new, fresh, other) at h)
      ]
    ]
  ]

  pub stored_all-NewestWins :
      (s : Store) (es : List PriceEntry) → NewestWins oldest key s es (stored_all oldest s es)
  unfolding stored_all
  stored_all-NewestWins s [] = inl (refl, refl, tt)
  stored_all-NewestWins s (e ∷ es) =
      newest_step s (stored_all oldest (stored oldest s e) es) e es
        (stored_all-NewestWins (stored oldest s e) es)

-- ===== src/Clarity/Walk.antt =====
-- The loops that Clarity writes as a `fold` over the bytes of a buffer: every byte moves an index
-- on by one, and an entry is read where the index meets the start of the next one. parse-data-source
-- (contracts/pyth-governance-v1.clar), parse-price-info-and-proof and parse-proof
-- (contracts/pyth-pnau-decoder-v1.clar) are such loops.
use stacks_pyth_bridge.Prelude.{ℕ, suc, ◌+◌, ◌≤◌, ◌<◌, ◌≡◌, refl, ap, ◌∙◌, List, [], ◌∷◌, ◌++◌}
use stacks_pyth_bridge.Prelude.{◌==◌, if◌then◌else◌, length, length-append, arith, append_assoc}
use stacks_pyth_bridge.Prelude.{append-nil, sym}
use stacks_pyth_bridge.Prelude.Bytes.{Bytes}
use stacks_pyth_bridge.Clarity.Outcome.{Outcome, ok, ◌>>=◌, >>=-eq-ok, append_max, append_max-eq-ok}
use stacks_pyth_bridge.Prelude.{All, Bool-cases, inl, inr, subst}

-- The accumulator, less the buffer, which does not change.
pub record Walk (A : Type 0) : Type 0 where
  pub index : ℕ
  pub next_update_index : ℕ
  pub result : List A
  pub limit : ℕ

-- The bytes of a list of entries, and the entries.
abbrev pub chunks : {A : Type 0} → List (A × Bytes) → Bytes
chunks [] = []
chunks ((a, c) ∷ xs) = c ++ chunks xs

abbrev pub entries : {A : Type 0} → List (A × Bytes) → List A
entries [] = []
entries ((a, c) ∷ xs) = a ∷ entries xs

-- The buffer holds these entries from `off` on, each with the bytes that it takes.
abbrev pub Reads : {A : Type 0} → (ℕ → Outcome (A × ℕ)) → ℕ → List (A × Bytes) → Type 0
Reads read off [] = Unit
Reads read off ((a, c) ∷ xs) =
    (read off ≡ ok (a, off + length c)) × (1 ≤ length c) × Reads read (off + length c) xs

-- `read i` reads the entry at i, and gives it with the start of the next; `max_len` is the bound of
-- `as-max-len?`.
module _ {A : Type 0} (read : ℕ → Outcome (A × ℕ)) (max_len : ℕ) where
  unfoldable pub walk_step : Walk A → Outcome (Walk A)
  unfolding append_max
  walk_step w =
      if length w.result == w.limit
      then ok w
      else if w.index == w.next_update_index
      then (do
        (entry, next) ← read w.index
        result ← append_max max_len w.result entry
        ok (record w { index = w.index + 1; next_update_index = next; result = result }))
      else ok (record w { index = w.index + 1 })

  unfoldable pub walk : Bytes → Walk A → Outcome (Walk A)
  unfolding walk_step
  walk [] w = ok w
  walk (b ∷ bs) w = do w' ← walk_step w; walk bs w'

  -- Where the limit is reached the loop idles.
  pub walk_idle : (bs : Bytes) (w : Walk A) → length w.result ≡ w.limit → walk bs w ≡ ok w
  unfolding walk walk_step
  walk_idle [] w h = refl
  walk_idle (b ∷ bs) w h = ground (arith, walk_idle bs w h)

  counts :
      (w : Walk A)
      → length w.result < w.limit
      → w.index < w.next_update_index
      → walk_step w ≡ ok (record w { index = w.index + 1 })
  unfolding walk_step
  counts w h e = ground arith

  reads :
      (w : Walk A) (a : A) (next : ℕ)
      → w.index ≡ w.next_update_index
      → length w.result < w.limit
      → length w.result < max_len
      → read w.index ≡ ok (a, next)
      → walk_step w
        ≡ ok (record w {
          index = w.index + 1;
          next_update_index = next;
          result = w.result ++ a ∷ [];
        })
  unfolding walk_step
  reads w a next e h m r = ground arith

  -- What an entry leaves.
  abbrev after : Walk A → A → ℕ → Walk A
  after w a next = record w {
    index = w.index + 1;
    next_update_index = next;
    result = w.result ++ a ∷ [];
  }

  starts :
      (w : Walk A) (a : A) (next b : ℕ) (bs : Bytes)
      → w.index ≡ w.next_update_index
      → length w.result < w.limit
      → length w.result < max_len
      → read w.index ≡ ok (a, next)
      → walk (b ∷ bs) w ≡ walk bs (after w a next)
  unfolding walk
  starts w a next b bs e h m r = rw (reads w a next e h m r)

  -- Between the start of an entry and its end the index counts.
  walk_skip :
      (bs rest : Bytes) (w : Walk A)
      → length w.result < w.limit
      → w.index + length bs ≤ w.next_update_index
      → walk (bs ++ rest) w ≡ walk rest (record w { index = w.index + length bs })
  unfolding walk walk_step
  walk_skip [] rest w h e =
      let i : w.index + 0 ≡ w.index = omega arith in
      ap (λ (t : ℕ). walk rest (record w { index = t })) (omega arith)
  walk_skip (b ∷ bs) rest w h e = rw (counts w h (omega arith)) (
      walk_skip bs rest (record w { index = w.index + 1 }) h (omega arith)
      ∙ ap (λ (t : ℕ). walk rest (record w { index = t })) (omega arith))

  -- A buffer of as many entries as the limit asks for is read entry by entry, whatever follows.
  pub walk-entries :
      (xs : List (A × Bytes)) (rest : Bytes) (off : ℕ) (w : Walk A)
      → Reads read off xs
      → w.index ≡ off
      → w.next_update_index ≡ off
      → w.limit ≡ length w.result + length xs
      → w.limit ≤ max_len
      → (w' : Walk A) × (walk (chunks xs ++ rest) w ≡ ok w') × (w'.result ≡ w.result ++ entries xs)
  walk-entries [] rest off w r i n l m =
      (w, walk_idle rest w (omega arith), sym (append-nil w.result))
  walk-entries ((a, []) ∷ xs) rest off w r i n l m = absurd (omega (arith, r.1))
  walk-entries ((a, b ∷ bs) ∷ []) rest off w r i n l m =
      let w' = after w a (off + suc (length bs)) in
      (
        w',
        starts w a (off + suc (length bs)) b _ (omega arith) (omega arith) (omega arith)
              (rw i (r.0))
            ∙ walk_idle _ w' (omega (arith, length-append w.result (a ∷ []))),
        refl,
      )
  walk-entries ((a, b ∷ bs) ∷ x ∷ xs) rest off w r i n l m =
      let w' = after w a (off + suc (length bs)) in
      let w'' : Walk A = record w' { index = w'.index + length bs } in
      let grown : length w'.result ≡ length w.result + 1 = length-append w.result (a ∷ []) in
      let (v, e, f) =
        walk-entries (x ∷ xs) rest (off + suc (length bs)) w'' (r.2) (omega arith) refl
          (omega arith) m in
      (
        v,
        starts w a (off + suc (length bs)) b _ (omega arith) (omega arith) (omega arith)
              (rw i (r.0))
            ∙ ap (λ (t : Bytes). walk t w') (append_assoc bs (chunks (x ∷ xs)) rest)
            ∙ walk_skip bs _ w' (omega arith) (omega arith)
            ∙ e,
        f ∙ append_assoc w.result (a ∷ []) (entries (x ∷ xs)),
      )

All-snoc :
    {A : Type 0} (P : A → Type 0) (xs : List A) (a : A) → All P xs → P a → All P (xs ++ a ∷ [])
All-snoc P [] a h p = (p, tt)
All-snoc P (x ∷ xs) a (q, h) p = (q, All-snoc P xs a h p)

module _ {A : Type 0} (read : ℕ → Outcome (A × ℕ)) (max_len : ℕ) (P : A → Type 0)
    (holds : (i next : ℕ) (a : A) → read i ≡ ok (a, next) → P a) where
  walk_step-All :
      (w w' : Walk A) → walk_step read max_len w ≡ ok w' → All P w.result → All P w'.result
  unfolding walk_step
  walk_step-All w w' h all = elim (Bool-cases (length w.result == w.limit)) [
    | inl full ↦
        let same : w ≡ w' = cc (rw full at h) in subst (λ (t : Walk A). All P t.result) same all
    | inr more ↦
        let h0 = rw more at h in
        elim (Bool-cases (w.index == w.next_update_index)) [
          | inl here ↦
              let h1 = rw here at h0 in
              let ((a, next), e, h2) = >>=-eq-ok (read w.index) _ h1 in
              let (result, e', h3) = >>=-eq-ok (append_max max_len w.result a) _ h2 in
              let same : result ≡ w'.result = cc h3 in
              subst (All P) (sym (append_max-eq-ok max_len w.result a e') ∙ same)
                (All-snoc P w.result a all (holds w.index next a e))
          | inr inside ↦
              let same : w.result ≡ w'.result = cc (rw inside at h0) in subst (All P) same all
        ]
  ]

  -- What holds of every entry that is read holds of the result.
  pub walk-All :
      (bs : Bytes) (w w' : Walk A)
      → walk read max_len bs w ≡ ok w'
      → All P w.result
      → All P w'.result
  unfolding walk
  walk-All [] w w' h all =
      let same : w ≡ w' = cc h in subst (λ (t : Walk A). All P t.result) same all
  walk-All (b ∷ bs) w w' h all =
      let (v, e, h1) = >>=-eq-ok (walk_step read max_len w) _ h in
      walk-All bs v w' h1 (walk_step-All w v e all)

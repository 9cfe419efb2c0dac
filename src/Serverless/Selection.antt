-- ===== src/Serverless/Selection.antt =====
-- The selection of unspent outputs in example/cbtc/serverless/handler.ts: the loop takes a prefix of
-- the list.
use stacks_pyth_bridge.Prelude.{
  ℕ, zero, suc, ◌+◌, ◌≤◌, ◌<◌, ◌≡◌, refl, sym, ap, ◌∙◌, ◌⊎◌, inl, inr, List, [], ◌∷◌, ◌++◌, length,
  arith, append_assoc, append-nil, leb, leb→le, Bool-cases,
}
use stacks_pyth_bridge.Serverless.{Utxo, Selected, select_utxos}

abbrev pub total : List Utxo → ℕ
total [] = 0
total (u ∷ us) = u.amount + total us

-- n numbers from i on.
abbrev pub up_from : ℕ → ℕ → List ℕ
up_from i zero = []
up_from i (suc n) = i ∷ up_from (i + 1) n

-- Before each of these outputs was taken, what was taken did not reach `required`.
abbrev pub IsMinimal : ℕ → ℕ → List Utxo → Type 0
IsMinimal required c [] = Unit
IsMinimal required c (u ∷ us) = (c < required) × IsMinimal required (c + u.amount) us

-- The prefix that is taken, and the rest.
pub record Split (required : ℕ) (us : List Utxo) (i : ℕ) (s s' : Selected) : Type 0 where
  pub taken : List Utxo
  pub left : List Utxo
  pub whole : us ≡ taken ++ left
  pub indices : s'.indices ≡ s.indices ++ up_from i (length taken)
  pub cumulated : s'.cumulated_amount ≡ s.cumulated_amount + total taken
  pub minimal : IsMinimal required s.cumulated_amount taken
  pub ends : (required ≤ s'.cumulated_amount) ⊎ (left ≡ [])

-- What one more output makes of the selection.
abbrev pub with_utxo : Selected → ℕ → Utxo → Selected
with_utxo s i u = record {
  indices = s.indices ++ i ∷ [];
  cumulated_amount = s.cumulated_amount + u.amount;
}

stop :
    (required : ℕ) (u : Utxo) (us : List Utxo) (i : ℕ) (s : Selected)
    → s.cumulated_amount < required
    → required ≤ s.cumulated_amount + u.amount
    → Split required (u ∷ us) i s (with_utxo s i u)
stop required u us i s h e = record {
  taken = u ∷ [];
  left = us;
  whole = refl;
  indices = refl;
  cumulated = omega arith;
  minimal = (h, tt);
  ends = inl e;
}

continue :
    (required : ℕ) (u : Utxo) (us : List Utxo) (i : ℕ) (s s' : Selected)
    → s.cumulated_amount < required
    → Split required us (i + 1) (with_utxo s i u) s'
    → Split required (u ∷ us) i s s'
continue required u us i s s' h r = record {
  taken = u ∷ r.taken;
  left = r.left;
  whole = ap (λ (t : List Utxo). u ∷ t) r.whole;
  indices = r.indices ∙ append_assoc s.indices (i ∷ []) (up_from (i + 1) (length r.taken));
  cumulated = omega (arith, r.cumulated);
  minimal = (h, r.minimal);
  ends = r.ends;
}

pub select_utxos-Split :
    (required : ℕ) (us : List Utxo) (i : ℕ) (s : Selected)
    → s.cumulated_amount < required
    → Split required us i s (select_utxos required us i s)
unfolding select_utxos
select_utxos-Split required [] i s h = record {
  taken = [];
  left = [];
  whole = refl;
  indices = sym (append-nil s.indices);
  cumulated = omega arith;
  minimal = tt;
  ends = inr refl;
}
select_utxos-Split required (u ∷ us) i s h =
    elim (Bool-cases (leb required (s.cumulated_amount + u.amount))) [
      | inl e ↦ rw e (stop required u us i s h (leb→le _ _ e))
      | inr e ↦ rw e (
          continue required u us i s _ h
            (select_utxos-Split required us (i + 1) (with_utxo s i u) (ground arith)))
    ]

pub total-append : (us vs : List Utxo) → total (us ++ vs) ≡ total us + total vs
total-append [] vs = omega arith
total-append (u ∷ us) vs = omega (arith, total-append us vs)

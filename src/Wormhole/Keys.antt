-- ===== src/Wormhole/Keys.antt =====
-- The keys that contracts/wormhole/wormhole-core-v2.clar counts: distinct, and of active guardians.
use stacks_pyth_bridge.Prelude.{
  ◌≡◌, ◌≢◌, refl, sym, ap, ◌⊎◌, inl, inr, Bool, true, false, ◌||◌, Option, none, some, List, [],
  ◌∷◌, ◌++◌, arith, get_elem?, All, Bool-cases,
}
use stacks_pyth_bridge.Prelude.Bytes.{Bytes, bytes_eq, bytes_eq_sound, bytes_eq_refl}
use stacks_pyth_bridge.Clarity.Outcome.{Outcome, ok, some_or_panic, append_max, >>=-eq-ok}
use stacks_pyth_bridge.Wormhole.{
  PublicKey, Recovered, is_member, check_active_public_key, check_active_public_keys,
}

-- The list has the element.
abbrev pub In : {A : Type 0} → A → List A → Type 0
In a [] = ⊥
In a (x ∷ xs) = (a ≡ x) ⊎ In a xs

-- No two elements are equal.
abbrev pub IsDistinct : List Bytes → Type 0
IsDistinct [] = Unit
IsDistinct (x ∷ xs) = All (λ y. x ≢ y) xs × IsDistinct xs

-- A recovered key is the key of the active guardian that the signature names.
abbrev pub IsActive : List PublicKey → List Recovered → Bytes → Type 0
IsActive guardians recovered key =
    (r : Recovered) × In r recovered
    × (r.recovered_compressed_public_key ≡ key)
    × (g : PublicKey) × (get_elem? guardians r.guardian_id ≡ some g)
    × (g.compressed_public_key ≡ key)

not_member :
    (key : Bytes) (keys : List Bytes) → is_member key keys ≡ false → All (λ x. x ≢ key) keys
unfolding is_member
not_member key [] h = tt
not_member key (x ∷ xs) h = elim (Bool-cases (bytes_eq x key)) [
  | inl same ↦ cc (h, ap (λ (t : Bool). t || is_member key xs) same)
  | inr other ↦ (
    λ e. cc (other, bytes_eq_refl key, ap (λ (t : Bytes). bytes_eq t key) e),
    not_member key xs (rw other at h),
  )
]

IsDistinct-snoc :
    (keys : List Bytes) (key : Bytes)
    → IsDistinct keys
    → All (λ x. x ≢ key) keys
    → IsDistinct (keys ++ key ∷ [])
IsDistinct-snoc [] key d n = (tt, tt)
IsDistinct-snoc (x ∷ xs) key (a, d) (m, n) = (snoc xs a, IsDistinct-snoc xs key d n)
  where
    snoc : (ys : List Bytes) → All (λ y. x ≢ y) ys → All (λ y. x ≢ y) (ys ++ key ∷ [])
    snoc [] u = (m, tt)
    snoc (y ∷ ys) (u, v) = (u, snoc ys v)

All-snoc :
    (P : Bytes → Type 0) (keys : List Bytes) (key : Bytes)
    → All P keys
    → P key
    → All P (keys ++ key ∷ [])
All-snoc P [] key h p = (p, tt)
All-snoc P (x ∷ xs) key (q, h) p = (q, All-snoc P xs key h p)

-- One step: the result stays, or grows by a new key, the one of that guardian.
check_known :
    (guardians : List PublicKey) (r : Recovered) (g : PublicKey) (keys out : List Bytes)
    → get_elem? guardians r.guardian_id ≡ some g
    → check_active_public_key guardians r keys ≡ ok out
    → (out ≡ keys)
      ⊎ ((bytes_eq r.recovered_compressed_public_key g.compressed_public_key ≡ true)
          × (is_member r.recovered_compressed_public_key keys ≡ false)
          × (out ≡ keys ++ r.recovered_compressed_public_key ∷ []))
unfolding check_active_public_key append_max
check_known guardians r g keys out known h = ground arith

-- What the fold has collected after the recovered keys `seen`.
abbrev pub Collected : List PublicKey → List Recovered → List Bytes → Type 0
Collected guardians seen keys = IsDistinct keys × All (IsActive guardians seen) keys

module _ (guardians : List PublicKey) where
  collect_step :
      (all : List Recovered) (r : Recovered) (keys out : List Bytes)
      → In r all
      → Collected guardians all keys
      → check_active_public_key guardians r keys ≡ ok out
      → Collected guardians all out
  unfolding check_active_public_key
  collect_step all r keys out m (d, a) h =
      let (g, e, h1) = >>=-eq-ok (some_or_panic (get_elem? guardians r.guardian_id)) _ h in
      let known : get_elem? guardians r.guardian_id ≡ some g =
        found (get_elem? guardians r.guardian_id) g e in
      elim (check_known guardians r g keys out known h) [
        | inl same ↦ rw same (d, a)
        | inr (eq, new, whole) ↦
            let key = r.recovered_compressed_public_key in
            rw whole (
              IsDistinct-snoc keys key d (not_member key keys new),
              All-snoc (IsActive guardians all) keys key a
                  (r, m, refl, g, known, sym (bytes_eq_sound key g.compressed_public_key eq)),
            )
      ]
    where
      found : (o : Option PublicKey) (g : PublicKey) → some_or_panic o ≡ ok g → o ≡ some g
      found (some x) g e = cc e
      found none g e = cc e

  pub collect_all :
      (all rest : List Recovered) (keys out : List Bytes)
      → ((r : Recovered) → In r rest → In r all)
      → Collected guardians all keys
      → check_active_public_keys guardians rest keys ≡ ok out
      → Collected guardians all out
  unfolding check_active_public_keys
  collect_all all [] keys out f c h = rw (← cc_out keys out h) c
    where
      cc_out :
          (keys out : List Bytes) → ◌≡◌ {A = Outcome (List Bytes)} (ok keys) (ok out) → keys ≡ out
      cc_out keys out e = cc e
  collect_all all (r ∷ rest) keys out f c h =
      let (next, e, h1) = >>=-eq-ok (check_active_public_key guardians r keys) _ h in
      collect_all all rest next out (λ x m. f x (inr m))
        (collect_step all r keys next (f r (inl refl)) c e) h1

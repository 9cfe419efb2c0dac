-- ===== src/Wormhole/Signed.antt =====
-- The keys that contracts/wormhole/wormhole-core-v2.clar recovers from the signatures of a VAA.
use stacks_pyth_bridge.Prelude.{
  ℕ, ◌≡◌, refl, sym, ◌⊎◌, inl, inr, Option, none, some, List, [], ◌∷◌, ◌++◌, arith, All, subst,
}
use stacks_pyth_bridge.Prelude.Bytes.{Bytes}
use stacks_pyth_bridge.Clarity.Outcome.{Outcome, ok, unwrap_some, append_max, >>=-eq-ok}
use stacks_pyth_bridge.Clarity.Types.{Signature}
use stacks_pyth_bridge.Wormhole.{Crypto, Recovered, recover_public_key, recover_public_keys}
use stacks_pyth_bridge.Wormhole.Keys.{In}

pub ok_injective : {A : Type 0} (a b : A) → ok a ≡ ok b → a ≡ b
ok_injective a b e = cc e

pub unwrap_known :
    {A : Type 0} (o : Option A) (a : A) (code : ℕ) → unwrap_some o code ≡ ok a → o ≡ some a
unwrap_known (some x) a code e = cc e
unwrap_known none a code e = cc e

-- A key recovered from one of the signatures over the hash, under the guardian that it names.
abbrev pub IsSigned : Crypto → Bytes → List Signature → Recovered → Type 0
IsSigned crypto hash signatures r =
    (s : Signature) × In s signatures
    × (s.guardian_id ≡ r.guardian_id)
    × (crypto.secp256k1_recover hash s.signature ≡ some r.recovered_compressed_public_key)

All-append_one :
    (P : Recovered → Type 0) (rs : List Recovered) (r : Recovered)
    → All P rs
    → P r
    → All P (rs ++ r ∷ [])
All-append_one P [] r h p = (p, tt)
All-append_one P (x ∷ xs) r (q, h) p = (q, All-append_one P xs r h p)

-- One signature adds nothing, or the key that is recovered from it.
recover_step :
    (crypto : Crypto) (hash : Bytes) (s : Signature) (value out : List Recovered)
    → recover_public_key crypto hash s value ≡ ok out
    → (out ≡ value)
      ⊎ ((key : Bytes) × (crypto.secp256k1_recover hash s.signature ≡ some key)
          × (out
              ≡ value
                ++ record { recovered_compressed_public_key = key; guardian_id = s.guardian_id }
                  ∷ []))
unfolding recover_public_key append_max
recover_step crypto hash s value out h = step (crypto.secp256k1_recover hash s.signature) refl h
  where
    append_exact :
        (rs out : List Recovered) (r : Recovered) → append_max 19 rs r ≡ ok out → out ≡ rs ++ r ∷ []
    append_exact rs out r h = ground arith

    step :
        (o : Option Bytes)
        → crypto.secp256k1_recover hash s.signature ≡ o
        → ◌≡◌ {A = Outcome (List Recovered)}
            (elim o [
              | none ↦ ok value
              | some key ↦
                  append_max 19 value
                    (record { recovered_compressed_public_key = key; guardian_id = s.guardian_id })
            ])
            (ok out)
        → (out ≡ value)
          ⊎ ((key : Bytes) × (crypto.secp256k1_recover hash s.signature ≡ some key)
              × (out
                  ≡ value
                    ++ record { recovered_compressed_public_key = key; guardian_id = s.guardian_id }
                      ∷ []))
    step none e h = inl (sym (ok_injective value out h))
    step (some key) e h = inr (key, e, append_exact value out _ h)

module _ (crypto : Crypto) (hash : Bytes) (all : List Signature) where
  recover-All :
      (rest : List Signature) (value out : List Recovered)
      → ((s : Signature) → In s rest → In s all)
      → All (IsSigned crypto hash all) value
      → recover_public_keys crypto hash rest value ≡ ok out
      → All (IsSigned crypto hash all) out
  unfolding recover_public_keys
  recover-All [] value out f a h = rw (← ok_injective value out h) a
  recover-All (s ∷ rest) value out f a h =
      let (next, e, h1) = >>=-eq-ok (recover_public_key crypto hash s value) _ h in
      recover-All rest next out (λ x m. f x (inr m))
        (elim (recover_step crypto hash s value next e) [
          | inl same ↦ rw same a
          | inr (key, good, whole) ↦
              rw whole (
                All-append_one (IsSigned crypto hash all) value _ a (s, f s (inl refl), refl, good))
        ])
        h1

pub recover_public_keys-IsSigned :
    (crypto : Crypto) (hash : Bytes) (signatures signatures' : List Signature)
    (rs rs' : List Recovered)
    → signatures ≡ signatures'
    → rs ≡ rs'
    → recover_public_keys crypto hash signatures [] ≡ ok rs
    → All (IsSigned crypto hash signatures') rs'
recover_public_keys-IsSigned crypto hash signatures signatures' rs rs' e f h =
    subst (λ (t : List Signature). All (IsSigned crypto hash t) rs') e
      (subst (λ (t : List Recovered). All (IsSigned crypto hash signatures) t) f
        (recover-All crypto hash signatures signatures [] rs (λ s m. m) tt h))

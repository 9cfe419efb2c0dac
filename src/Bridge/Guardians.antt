-- ===== src/Bridge/Guardians.antt =====
-- The guardians of unit-tests/wormhole/helpers.ts: what their keychain signs, as
-- contracts/wormhole/wormhole-core-v2.clar recovers and counts the keys.
use stacks_pyth_bridge.Prelude.{
  ℕ, suc, ◌+◌, ◌<◌, ◌≤◌, ◌≡◌, ◌≢◌, refl, ap, ◌∙◌, List, [], ◌∷◌, ◌++◌, length, length-append, some,
  arith, append-nil, All, map, get_elem?, false, Bool-cases, inl, inr, lt→ltb,
}
use stacks_pyth_bridge.Prelude.Bytes.{Bytes, be_bytes, length-be_bytes, bytes_eq, bytes_eq_sound}
use stacks_pyth_bridge.Clarity.Outcome.{ok, append_max}
use stacks_pyth_bridge.Clarity.Types.{Signature}
use stacks_pyth_bridge.Harness.Buffers.{write_uint_be, concat}
use stacks_pyth_bridge.Harness.Wormhole.{
  Noble, Guardian, generate_guardian_set_keychain, guardian_signature, guardian_signatures,
}
use stacks_pyth_bridge.Bridge.Fields.{write_uint_be_fits, IsMade, then-IsMade}
use stacks_pyth_bridge.Bridge.Ptgm.{bind-some}
use stacks_pyth_bridge.Bridge.Vaa.{written}
use stacks_pyth_bridge.Bridge.Signatures.{signature_bytes, IsSignature}
use stacks_pyth_bridge.Wormhole.{Crypto, PublicKey, Recovered, is_member}
use stacks_pyth_bridge.Wormhole.Keys.{IsDistinct}

-- The language's functions and the library of the unit tests agree: one hash, and a signature of 64
-- bytes with its recovery bit gives the key back.
pub record NobleLaws (noble : Noble) (crypto : Crypto) : Type 0 where
  pub keccak256_lem : (b : Bytes) → crypto.keccak256 b ≡ noble.keccak_256 b
  pub length-sign : (hash secret_key : Bytes) → length (noble.sign hash secret_key) ≡ 64
  pub recovery_small : (hash secret_key : Bytes) → noble.recovery hash secret_key < 4
  pub recovered :
      (hash secret_key : Bytes)
      → crypto.secp256k1_recover hash
          (noble.sign hash secret_key ++ be_bytes 1 (noble.recovery hash secret_key))
        ≡ some (noble.compressed_key secret_key)

abbrev pub public_key_of : Guardian → PublicKey
public_key_of g = record {
  compressed_public_key = g.compressed_public_key;
  uncompressed_public_key = g.uncompressed_public_key;
}

abbrev pub recovered_of : Guardian → Recovered
recovered_of g = record {
  recovered_compressed_public_key = g.compressed_public_key;
  guardian_id = g.guardian_id;
}

abbrev pub keys_of : List Guardian → List Bytes
keys_of gs = map (λ (g : Guardian). g.compressed_public_key) gs

pub All-at :
    (P : Bytes → Type 0) (xs : List Bytes) (y : Bytes) (ys : List Bytes)
    → All P (xs ++ y ∷ ys)
    → P y
All-at P [] y ys (p, a) = p
All-at P (x ∷ xs) y ys (p, a) = All-at P xs y ys a

pub fresh :
    (xs : List Bytes) (y : Bytes) (ys : List Bytes)
    → IsDistinct (xs ++ y ∷ ys)
    → is_member y xs ≡ false
unfolding is_member
fresh [] y ys d = refl
fresh (x ∷ xs) y ys (a, d) = elim (Bool-cases (bytes_eq x y)) [
  | inl same ↦ absurd (All-at (λ z. x ≢ z) xs y ys a (bytes_eq_sound x y same))
  | inr other ↦ rw other (fresh xs y ys d)
]

pub get_elem?-append :
    (front : List Guardian) (g : Guardian) (rest : List Guardian)
    → get_elem? (map public_key_of (front ++ g ∷ rest)) (length front) ≡ some (public_key_of g)
get_elem?-append [] g rest = refl
get_elem?-append (x ∷ front) g rest = get_elem?-append front g rest

pub keys_of-append : (xs ys : List Guardian) → keys_of (xs ++ ys) ≡ keys_of xs ++ keys_of ys
keys_of-append [] ys = refl
keys_of-append (x ∷ xs) ys =
    ap (λ (t : List Bytes). x.compressed_public_key ∷ t) (keys_of-append xs ys)

pub length-keys_of : (xs : List Guardian) → length (keys_of xs) ≡ length xs
length-keys_of [] = refl
length-keys_of (x ∷ xs) = ap suc (length-keys_of xs)

pub append_room :
    {A : Type 0} (n : ℕ) (xs : List A) (x : A)
    → length xs < n
    → append_max n xs x ≡ ok (xs ++ x ∷ [])
unfolding append_max
append_room n xs x h = rw (lt→ltb _ _ h)

module _ (noble : Noble) (crypto : Crypto) (laws : NobleLaws noble crypto) where
  -- Guardians numbered from n on, with the keys of their secrets.
  abbrev pub IsKeychain : ℕ → List Guardian → Type 0
  IsKeychain n [] = Unit
  IsKeychain n (g ∷ gs) =
      (g.guardian_id ≡ n)
      × (g.compressed_public_key ≡ noble.compressed_key g.secret_key)
      × IsKeychain (suc n) gs

  pub generate-IsKeychain :
      (n : ℕ) (secrets : List Bytes) → IsKeychain n (generate_guardian_set_keychain noble n secrets)
  unfolding generate_guardian_set_keychain
  generate-IsKeychain n [] = tt
  generate-IsKeychain n (s ∷ secrets) = (refl, refl, generate-IsKeychain (suc n) secrets)

  abbrev pub signature_of : Bytes → Guardian → Signature
  signature_of hash g = record {
    guardian_id = g.guardian_id;
    signature = noble.sign hash g.secret_key ++ be_bytes 1 (noble.recovery hash g.secret_key);
  }

  signed_one :
      (hash : Bytes) (g : Guardian) (bytes : Bytes)
      → guardian_signature noble hash g ≡ some bytes
      → (bytes ≡ signature_bytes (signature_of hash g)) × IsSignature (signature_of hash g)
  unfolding guardian_signature concat
  signed_one hash g bytes h =
      let (id, e, h1) = bind-some (write_uint_be 1 g.guardian_id) _ h in
      let (bit, e', h2) = bind-some (write_uint_be 1 (noble.recovery hash g.secret_key)) _ h1 in
      let (f, x) = written 1 g.guardian_id id e in
      let (f', x') = written 1 (noble.recovery hash g.secret_key) bit e' in
      let signature = noble.sign hash g.secret_key in
      (
        cc (h2, x, x', append-nil bit),
        (
          f,
          length-append signature _
              ∙ omega (
                arith,
                laws.length-sign hash g.secret_key,
                length-be_bytes 1 (noble.recovery hash g.secret_key),
              ),
        ),
      )

  pub signed_all :
      (hash : Bytes) (gs : List Guardian) (sigs : List Bytes)
      → guardian_signatures noble hash gs ≡ some sigs
      → (sigs ≡ map signature_bytes (map (signature_of hash) gs))
        × All IsSignature (map (signature_of hash) gs)
  unfolding guardian_signatures
  signed_all hash [] sigs h = (cc h, tt)
  signed_all hash (g ∷ gs) sigs h =
      let (first, e, h1) = bind-some (guardian_signature noble hash g) _ h in
      let (rest, e', h2) = bind-some (guardian_signatures noble hash gs) _ h1 in
      let (x, s) = signed_one hash g first e in
      let (y, a) = signed_all hash gs rest e' in (cc (h2, x, y), (s, a))

  signature-IsMade :
      (hash : Bytes) (g : Guardian) → g.guardian_id < 256 → IsMade (guardian_signature noble hash g)
  unfolding guardian_signature
  signature-IsMade hash g small =
      let bit = laws.recovery_small hash g.secret_key in
      then-IsMade (write_uint_be 1 g.guardian_id) _ _
        (write_uint_be_fits 1 g.guardian_id (omega arith))
        (then-IsMade (write_uint_be 1 (noble.recovery hash g.secret_key)) _ _
          (write_uint_be_fits 1 (noble.recovery hash g.secret_key) (omega arith)) (_, refl))

  -- A keychain that is not numbered past a byte signs.
  pub signatures_made :
      (hash : Bytes) (n : ℕ) (gs : List Guardian)
      → IsKeychain n gs
      → n + length gs ≤ 256
      → (sigs : List Bytes) × (guardian_signatures noble hash gs ≡ some sigs)
        × (length sigs ≡ length gs)
  unfolding guardian_signatures
  signatures_made hash n [] k m = ([], refl, refl)
  signatures_made hash n (g ∷ gs) (i, c, k) m =
      let (first, e) = signature-IsMade hash g (omega arith) in
      let (sigs, e', l) = signatures_made hash (suc n) gs k (omega arith) in
      (first ∷ sigs, rw (e, e'), ap suc l)

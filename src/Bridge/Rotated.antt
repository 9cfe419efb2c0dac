-- ===== src/Bridge/Rotated.antt =====
-- The guardian set update that unit-tests/wormhole/helpers.ts applies (applyGuardianSetUpdate), on
-- contracts/wormhole/wormhole-core-v2.clar.
use stacks_pyth_bridge.Prelude.{
  ℕ, zero, suc, ◌+◌, ◌%◌, ◌<◌, ◌≤◌, ◌≡◌, refl, sym, ap, ◌∙◌, subst, List, [], ◌∷◌, ◌++◌, length,
  length-append, map, some, arith, append-nil, append_assoc, All, take, drop, take-append,
  get_elem?, false, ◌==◌, if◌then◌else◌, le→leb,
}
use stacks_pyth_bridge.Prelude.Bytes.{Bytes, bytes_eq, bytes_eq_refl}
use stacks_pyth_bridge.Clarity.Outcome.{ok}
use stacks_pyth_bridge.Harness.Wormhole.{Noble, Guardian, generate_guardian_set_keychain}
use stacks_pyth_bridge.Bridge.Guardians.{public_key_of, append_room}
use stacks_pyth_bridge.Bridge.Accepted.{length-public_keys}
use stacks_pyth_bridge.Bridge.Rotation.{addresses_of}
use stacks_pyth_bridge.Wormhole.{Crypto, PublicKey}
use stacks_pyth_bridge.Wormhole.Guardians.{
  slice, compress_public_key, is_eth_address_matching_public_key, consolidated_entry,
  consolidate_public_keys,
}

-- The two forms of a key: 4 and both coordinates, or the parity of the second and the first. A hash
-- has 32 bytes.
pub record KeyLaws (noble : Noble) : Type 0 where
  pub length-keccak_256 : (b : Bytes) → length (noble.keccak_256 b) ≡ 32
  pub key_forms :
      (secret_key : Bytes)
      → (x y : Bytes) × (last : ℕ) × (length x ≡ 32)
        × (length y ≡ 31)
        × (noble.uncompressed_key secret_key ≡ 4 ∷ (x ++ (y ++ last ∷ [])))
        × (noble.compressed_key secret_key ≡ (if last % 2 == 0 then 2 else 3) ∷ x)

take_all : (n : ℕ) (b : Bytes) → length b ≡ n → take n b ≡ b
take_all n b l =
    subst (λ (t : ℕ). take t b ≡ b) l
      (ap (λ (t : Bytes). take (length b) t) (sym (append-nil b)) ∙ take-append b [])

get_elem?-at :
    (b : Bytes) (x : ℕ) (rest : Bytes) (n : ℕ) → length b ≡ n → get_elem? (b ++ x ∷ rest) n ≡ some x
get_elem?-at [] x rest n l = ap (λ (t : ℕ). get_elem? (x ∷ rest) t) (sym l)
get_elem?-at (y ∷ b) x rest zero l = absurd (omega arith)
get_elem?-at (y ∷ b) x rest (suc n) l = get_elem?-at b x rest n (omega arith)

slice_first : (x rest : Bytes) → length x ≡ 32 → slice (x ++ rest) 0 32 ≡ some x
slice_first x rest l =
    let enough = le→leb 32 (length (x ++ rest)) (omega (arith, length-append x rest)) in
    let first : take 32 (x ++ rest) ≡ x =
      subst (λ (n : ℕ). take n (x ++ rest) ≡ x) l (take-append x rest) in
    rw (enough, first)

not_empty : (b : Bytes) → 0 < length b → bytes_eq [] b ≡ false
unfolding bytes_eq
not_empty [] h = absurd (omega arith)
not_empty (x ∷ b) h = refl

compressed :
    (x y : Bytes) (last : ℕ)
    → length x ≡ 32
    → length y ≡ 31
    → compress_public_key (x ++ (y ++ last ∷ [])) ≡ ok ((if last % 2 == 0 then 2 else 3) ∷ x)
unfolding compress_public_key
compressed x y last l m =
    let key = x ++ (y ++ last ∷ []) in
    let size : length key ≡ 64 =
      omega (arith, length-append x (y ++ last ∷ []), length-append y (last ∷ [])) in
    let parity : get_elem? key 63 ≡ some last =
      ap (λ (t : Bytes). get_elem? t 63) (sym (append_assoc x y (last ∷ [])))
      ∙ get_elem?-at (x ++ y) last [] 63 (omega (arith, length-append x y)) in
    rw (not_empty key (omega arith), slice_first x (y ++ last ∷ []) l, parity)

-- A guardian whose fields belong together.
abbrev IsWhole : Crypto → Guardian → Type 0
IsWhole crypto g =
    (compress_public_key g.uncompressed_public_key ≡ ok g.compressed_public_key)
    × (slice (crypto.keccak256 g.uncompressed_public_key) 12 32 ≡ some g.ethereum_address)

entry_whole :
    (crypto : Crypto) (g : Guardian)
    → IsWhole crypto g
    → consolidated_entry crypto g.uncompressed_public_key g.ethereum_address ≡ ok (public_key_of g)
unfolding consolidated_entry is_eth_address_matching_public_key
entry_whole crypto g (c, s) = rw (c, s, bytes_eq_refl g.ethereum_address)

get_elem?-address :
    (front : List Guardian) (g : Guardian) (rest : List Guardian)
    → get_elem? (addresses_of (front ++ g ∷ rest)) (length front) ≡ some g.ethereum_address
get_elem?-address [] g rest = refl
get_elem?-address (x ∷ front) g rest = get_elem?-address front g rest

abbrev pub keys_sent : List Guardian → List Bytes
keys_sent gs = map (λ (g : Guardian). g.uncompressed_public_key) gs

map-append :
    (xs ys : List Guardian)
    → map public_key_of (xs ++ ys) ≡ map public_key_of xs ++ map public_key_of ys
map-append [] ys = refl
map-append (x ∷ xs) ys = ap (λ (t : List PublicKey). public_key_of x ∷ t) (map-append xs ys)

-- Each key meets its address.
pub consolidate-keychain :
    (crypto : Crypto) (front gs : List Guardian)
    → All (IsWhole crypto) gs
    → length (front ++ gs) ≤ 19
    → consolidate_public_keys crypto
        (addresses_of (front ++ gs))
        (keys_sent gs)
        (length front)
        (map public_key_of front)
      ≡ ok (map public_key_of (front ++ gs))
unfolding consolidate_public_keys
consolidate-keychain crypto front [] a m =
    ap (λ (t : List Guardian). ok (map public_key_of t)) (sym (append-nil front))
consolidate-keychain crypto front (g ∷ gs) (w, a) m =
    let same : (front ++ g ∷ []) ++ gs ≡ front ++ g ∷ gs = append_assoc front (g ∷ []) gs in
    let n : length (front ++ g ∷ []) ≡ length front + 1 = length-append front (g ∷ []) in
    let rest =
      consolidate-keychain crypto (front ++ g ∷ []) gs a
        (subst (λ (t : List Guardian). length t ≤ 19) (sym same) m) in
    let rest' =
      subst
        (λ (t : List Guardian).
          consolidate_public_keys crypto (addresses_of t) (keys_sent gs) (length (front ++ g ∷ []))
            (map public_key_of (front ++ g ∷ []))
          ≡ ok (map public_key_of t))
        same rest in
    let rest'' = rw (n, map-append front (g ∷ [])) at rest' in
    rw
      (
        get_elem?-address front g gs,
        entry_whole crypto g w,
        append_room 19 (map public_key_of front) (public_key_of g)
            (omega (arith, length-public_keys front, length-append front (g ∷ gs))),
      )
      rest''

module _ (noble : Noble) (crypto : Crypto)
    (same_hash : (b : Bytes) → crypto.keccak256 b ≡ noble.keccak_256 b)
    (key_laws : KeyLaws noble) where
  uncompressed_form :
      (s : Bytes)
      → compress_public_key (take 64 (drop 1 (noble.uncompressed_key s)))
        ≡ ok (noble.compressed_key s)
  uncompressed_form s =
      let (x, y, last, l, m, e, c) = key_laws.key_forms s in
      let key = x ++ (y ++ last ∷ []) in
      let size : length key ≡ 64 =
        omega (arith, length-append x (y ++ last ∷ []), length-append y (last ∷ [])) in
      ap (λ (t : Bytes). compress_public_key (take 64 (drop 1 t))) e
      ∙ ap compress_public_key (take_all 64 key size)
      ∙ compressed x y last l m
      ∙ ap (λ (t : Bytes). ok t) (sym c)

  address_form :
      (key : Bytes)
      → slice (crypto.keccak256 key) 12 32 ≡ some (take 20 (drop 12 (noble.keccak_256 key)))
  address_form key =
      let enough =
        le→leb 32 (length (noble.keccak_256 key)) (omega (arith, key_laws.length-keccak_256 key)) in
      rw (same_hash key, enough)

  pub generate-IsWhole :
      (n : ℕ) (secrets : List Bytes)
      → All (IsWhole crypto) (generate_guardian_set_keychain noble n secrets)
  unfolding generate_guardian_set_keychain
  generate-IsWhole n [] = tt
  generate-IsWhole n (s ∷ secrets) = (
    (uncompressed_form s, address_form (take 64 (drop 1 (noble.uncompressed_key s)))),
    generate-IsWhole (suc n) secrets,
  )

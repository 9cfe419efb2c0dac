-- ===== src/Bridge/Recovered.antt =====
-- The keys of the keychain of unit-tests/wormhole/helpers.ts, as
-- contracts/wormhole/wormhole-core-v2.clar recovers and checks them.
use stacks_pyth_bridge.Prelude.{
  ℕ, suc, ◌+◌, ◌<◌, ◌≤◌, ◌≡◌, refl, sym, ap, ◌∙◌, subst, List, [], ◌∷◌, ◌++◌, length, length-append,
  some, arith, append-nil, append_assoc, map, get_elem?, true, false,
}
use stacks_pyth_bridge.Prelude.Bytes.{Bytes, bytes_eq, bytes_eq_refl}
use stacks_pyth_bridge.Clarity.Outcome.{ok}
use stacks_pyth_bridge.Clarity.Types.{Signature}
use stacks_pyth_bridge.Harness.Wormhole.{Noble, Guardian}
use stacks_pyth_bridge.Wormhole.{
  Crypto, PublicKey, Recovered, is_member, recover_public_key, recover_public_keys,
  check_active_public_key, check_active_public_keys,
}
use stacks_pyth_bridge.Wormhole.Keys.{IsDistinct}
use stacks_pyth_bridge.Bridge.Guardians.{
  NobleLaws, public_key_of, recovered_of, keys_of, fresh, get_elem?-append, keys_of-append,
  length-keys_of, append_room, IsKeychain, signature_of,
}

module _ (noble : Noble) (crypto : Crypto) (laws : NobleLaws noble crypto) where
  recover_known :
      (hash : Bytes) (s : Signature) (key : Bytes) (value : List Recovered)
      → crypto.secp256k1_recover hash s.signature ≡ some key
      → length value < 19
      → recover_public_key crypto hash s value
        ≡ ok (
            value
            ++ record { recovered_compressed_public_key = key; guardian_id = s.guardian_id } ∷ [])
  unfolding recover_public_key
  recover_known hash s key value h m = cc (
    h,
    append_room 19 value
        (record { recovered_compressed_public_key = key; guardian_id = s.guardian_id }) m,
  )

  pub recover-keychain :
      (hash : Bytes) (n : ℕ) (gs : List Guardian) (value : List Recovered)
      → IsKeychain noble crypto laws n gs
      → length value + length gs ≤ 19
      → recover_public_keys crypto hash (map (signature_of noble crypto laws hash) gs) value
        ≡ ok (value ++ map recovered_of gs)
  unfolding recover_public_keys
  recover-keychain hash n [] value k m = ap (λ (t : List Recovered). ok t) (sym (append-nil value))
  recover-keychain hash n (g ∷ gs) value (i, c, k) m =
      let next = value ++ recovered_of g ∷ [] in
      let known = laws.recovered hash g.secret_key ∙ ap (λ (t : Bytes). some t) (sym c) in
      rw
        (recover_known hash (signature_of noble crypto laws hash g) g.compressed_public_key value
          known (omega arith))
        (recover-keychain hash (suc n) gs next k
            (omega (arith, length-append value (recovered_of g ∷ [])))
          ∙ ap (λ (t : List Recovered). ok t)
              (append_assoc value (recovered_of g ∷ []) (map recovered_of gs)))

  check_known :
      (guardians : List PublicKey) (r : Recovered) (g : PublicKey) (keys : List Bytes)
      → get_elem? guardians r.guardian_id ≡ some g
      → r.recovered_compressed_public_key ≡ g.compressed_public_key
      → is_member r.recovered_compressed_public_key keys ≡ false
      → length keys < 19
      → check_active_public_key guardians r keys
        ≡ ok (keys ++ r.recovered_compressed_public_key ∷ [])
  unfolding check_active_public_key
  check_known guardians r g keys at same new m =
      let equal : bytes_eq r.recovered_compressed_public_key g.compressed_public_key ≡ true =
        ap (λ (t : Bytes). bytes_eq t g.compressed_public_key) same
        ∙ bytes_eq_refl g.compressed_public_key in
      rw (at, equal, new, append_room 19 keys r.recovered_compressed_public_key m)

  pub check-keychain :
      (front gs : List Guardian)
      → IsKeychain noble crypto laws (length front) gs
      → IsDistinct (keys_of (front ++ gs))
      → length (front ++ gs) ≤ 19
      → check_active_public_keys
          (map public_key_of (front ++ gs))
          (map recovered_of gs)
          (keys_of front)
        ≡ ok (keys_of (front ++ gs))
  unfolding check_active_public_keys
  check-keychain front [] k d m =
      ap (λ (t : List Guardian). ok (keys_of t)) (sym (append-nil front))
  check-keychain front (g ∷ gs) (i, c, k) d m =
      let all = front ++ g ∷ gs in
      let at =
        ap (λ (n : ℕ). get_elem? (map public_key_of all) n) i ∙ get_elem?-append front g gs in
      let d' = subst (λ (t : List Bytes). IsDistinct t) (keys_of-append front (g ∷ gs)) d in
      let new = fresh (keys_of front) g.compressed_public_key (keys_of gs) d' in
      let grown = length-append front (g ∷ []) in
      let same : (front ++ g ∷ []) ++ gs ≡ all = append_assoc front (g ∷ []) gs in
      let n : length (front ++ g ∷ []) ≡ suc (length front) = omega (arith, grown) in
      let rest =
        check-keychain (front ++ g ∷ []) gs
          (subst (λ (t : ℕ). IsKeychain noble crypto laws t gs) (sym n) k)
          (subst (λ (t : List Guardian). IsDistinct (keys_of t)) (sym same) d)
          (subst (λ (t : List Guardian). length t ≤ 19) (sym same) m) in
      let rest' =
        subst
          (λ (t : List Guardian).
            check_active_public_keys (map public_key_of t) (map recovered_of gs)
              (keys_of (front ++ g ∷ []))
            ≡ ok (keys_of t))
          same rest in
      rw
        (check_known (map public_key_of all) (recovered_of g) (public_key_of g) (keys_of front) at
          refl new (omega (arith, length-keys_of front, length-append front (g ∷ gs))))
        (ap
            (λ (t : List Bytes).
              check_active_public_keys (map public_key_of all) (map recovered_of gs) t)
            (sym (keys_of-append front (g ∷ [])))
          ∙ rest')

-- ===== src/Wormhole/Mismatch.antt =====
-- Keys that do not match the addresses of a guardian set update: contracts/wormhole/wormhole-core-v2.clar
-- stores an empty entry for each of them.
use stacks_pyth_bridge.Prelude.{
  ℕ, zero, suc, ◌+◌, ◌<◌, ◌≤◌, ◌≡◌, ◌≢◌, refl, sym, ap, ◌∙◌, inl, inr, true, some, List, [], ◌∷◌,
  ◌++◌, arith, length, get_elem?, All, length-append, subst, lt→ltb, ==_refl, append-nil,
  append_assoc, ◌*◌,
}
use stacks_pyth_bridge.Prelude.Bytes.{Bytes, bytes_eq_refl}
use stacks_pyth_bridge.Clarity.Outcome.{ok, append_max}
use stacks_pyth_bridge.Clarity.Cursor.{HkCursor}
use stacks_pyth_bridge.Clarity.Types.{Vaa, Signature}
use stacks_pyth_bridge.Wormhole.{
  Crypto, PublicKey, Wormhole, Message, Recovered, parse_and_verify_vaa,
}
use stacks_pyth_bridge.Wormhole.Keys.{In, IsActive}
use stacks_pyth_bridge.Wormhole.Signed.{IsSigned}
use stacks_pyth_bridge.Wormhole.Quorum.{IsSignedBody, IsQuorum, parse_and_verify_vaa-IsQuorum}
use stacks_pyth_bridge.Wormhole.Guardians.{
  GuardiansSet, no_key, consolidated_entry, consolidate_public_keys, parse_and_verify_guardians_set,
  guardian_set_vaa_of, update_guardians_set, set_guardians, gsu_emitting_address,
  gsu_emitting_chain,
}

-- Each key makes an empty entry for its address.
abbrev pub Mismatched : Crypto → List Bytes → List Bytes → Type 0
Mismatched crypto [] [] = Unit
Mismatched crypto (a ∷ addresses) (key ∷ keys) =
    (consolidated_entry crypto key a ≡ ok no_key) × Mismatched crypto addresses keys
Mismatched crypto _ _ = ⊥

same_length :
    (crypto : Crypto) (addresses keys : List Bytes)
    → Mismatched crypto addresses keys
    → length keys ≡ length addresses
same_length crypto [] [] m = refl
same_length crypto (a ∷ addresses) (key ∷ keys) (e, m) =
    ap suc (same_length crypto addresses keys m)
same_length crypto [] (key ∷ keys) m = absurd m
same_length crypto (a ∷ addresses) [] m = absurd m

copies : ℕ → List PublicKey
copies zero = []
copies (suc n) = no_key ∷ copies n

append_within :
    (max_len : ℕ) (xs : List PublicKey) (x : PublicKey)
    → length xs < max_len
    → append_max max_len xs x ≡ ok (xs ++ x ∷ [])
unfolding append_max
append_within max_len xs x h = rw (lt→ltb _ _ h)

address_at :
    (pre : List Bytes) (a : Bytes) (as' : List Bytes)
    → get_elem? (pre ++ a ∷ as') (length pre) ≡ some a
address_at [] a as' = refl
address_at (x ∷ pre) a as' = address_at pre a as'

module _ (crypto : Crypto) where
  consolidate_public_keys-Mismatched :
      (pre addresses keys : List Bytes) (result : List PublicKey)
      → Mismatched crypto addresses keys
      → length result + length keys ≤ 19
      → consolidate_public_keys crypto (pre ++ addresses) keys (length pre) result
        ≡ ok (result ++ copies (length keys))
  unfolding consolidate_public_keys copies
  consolidate_public_keys-Mismatched pre [] [] result m n =
      ap (λ (t : List PublicKey). ok t) (sym (append-nil result))
  consolidate_public_keys-Mismatched pre [] (key ∷ keys) result m n = absurd m
  consolidate_public_keys-Mismatched pre (a ∷ addresses) [] result m n = absurd m
  consolidate_public_keys-Mismatched pre (a ∷ addresses) (key ∷ keys) result (e, m) n =
      let next : length (pre ++ a ∷ []) ≡ length pre + 1 = length-append pre (a ∷ []) in
      let more : length (result ++ no_key ∷ []) ≡ length result + 1 =
        length-append result (no_key ∷ []) in
      let rest =
        consolidate_public_keys-Mismatched (pre ++ a ∷ []) addresses keys (result ++ no_key ∷ []) m
          (omega (arith, more)) in
      rw (address_at pre a addresses, e, append_within 19 result no_key (omega arith))
        ((rw (append_assoc pre (a ∷ []) addresses, next) at rest)
          ∙ ap (λ (t : List PublicKey). ok t)
              (append_assoc result (no_key ∷ []) (copies (length keys))))

  copies_get : (n i : ℕ) (g : PublicKey) → get_elem? (copies n) i ≡ some g → g ≡ no_key
  unfolding copies
  copies_get zero i g h = cc h
  copies_get (suc n) zero g h = cc h
  copies_get (suc n) (suc i) g h = copies_get n i g h

  In-IsSigned :
      (hash : Bytes) (signatures : List Signature) (rs : List Recovered) (r : Recovered)
      → All (IsSigned crypto hash signatures) rs
      → In r rs
      → IsSigned crypto hash signatures r
  In-IsSigned hash signatures [] r a m = absurd m
  In-IsSigned hash signatures (x ∷ rs) r (p, a) (inl e) =
      subst (λ (t : Recovered). IsSigned crypto hash signatures t) (sym e) p
  In-IsSigned hash signatures (x ∷ rs) r (p, a) (inr m) = In-IsSigned hash signatures rs r a m

module _ (k : HkCursor) (crypto : Crypto) where
  no_quorum :
      (w : Wormhole) (message : Message) (n : ℕ)
      → ((hash signature : Bytes) → crypto.secp256k1_recover hash signature ≢ some [])
      → w.guardian_sets w.active_guardian_set_id ≡ some (copies n)
      → IsSignedBody k crypto message
      → IsQuorum k crypto w message
      → ⊥
  no_quorum w message n never stored (header, c, hashed, body, e, f, v, signed) q =
      contradiction q.keys q.signed q.enough
    where
      guardians : q.guardians ≡ copies n
      guardians = cc (q.active, stored)

      contradiction :
          (keys : List Bytes)
          → All (IsActive q.guardians message.recovered_public_keys) keys
          → 2 * length q.guardians < 3 * length keys
          → ⊥
      contradiction [] a lt = omega arith
      contradiction (key ∷ keys) ((r, m, same, g, at, is), a) lt =
          let (s, x, y, z) = In-IsSigned crypto _ _ _ r signed m in
          let empty : g ≡ no_key = copies_get crypto n r.guardian_id g (rw guardians at at) in
          never (crypto.keccak256 (crypto.keccak256 hashed.value)) s.signature (
            z
            ∙ ap (λ (t : Bytes). some t)
                (same ∙ sym is ∙ ap (λ (t : PublicKey). t.compressed_public_key) empty))

  -- Whoever sends a valid guardian set update with keys that all fail to match the addresses in it
  -- (as many as there are, at most 19) is not refused, and after it no VAA is ever verified. Given:
  -- each key makes an empty entry for its address (`Mismatched`), and `secp256k1-recover?` never
  -- gives an empty key.
  pub update_guardians_set-Mismatched :
      (w : Wormhole) (b c : Bytes) (keys : List Bytes) (vaa v : Vaa) (d : GuardiansSet)
      → guardian_set_vaa_of k crypto w b ≡ ok vaa
      → parse_and_verify_guardians_set k w vaa.payload ≡ ok d
      → vaa.emitter_address ≡ gsu_emitting_address
      → vaa.emitter_chain ≡ gsu_emitting_chain
      → Mismatched crypto d.guardians_eth_addresses keys
      → length keys ≤ 19
      → ((hash signature : Bytes) → crypto.secp256k1_recover hash signature ≢ some [])
      → (w' : Wormhole) × (update_guardians_set k crypto w b keys ≡ ok (vaa, w'))
        × (parse_and_verify_vaa k crypto w' c ≢ ok v)
  unfolding update_guardians_set
  update_guardians_set-Mismatched w b c keys vaa v d e f x y m n never =
      let w' : Wormhole = record {
        guardian_set_initialized = true;
        active_guardian_set_id = d.new_index;
        guardian_sets = set_guardians w.guardian_sets d.new_index (copies (length keys));
      } in
      let g =
        consolidate_public_keys-Mismatched crypto [] d.guardians_eth_addresses keys [] m
          (omega arith) in
      (
        w',
        rw (
          e,
          f,
          g,
          same_length crypto d.guardians_eth_addresses keys m,
          x,
          y,
          ==_refl (length d.guardians_eth_addresses),
          bytes_eq_refl gsu_emitting_address,
        ),
        λ h.
            let (message, p, q, r, s) = parse_and_verify_vaa-IsQuorum k crypto w' c v h in
            no_quorum w' message (length keys) never (rw (==_refl d.new_index)) r s,
      )

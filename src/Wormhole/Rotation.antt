-- ===== src/Wormhole/Rotation.antt =====
-- What a new set of guardians in contracts/wormhole/wormhole-core-v2.clar rests on.
use stacks_pyth_bridge.Prelude.{
  ℕ, ◌<◌, ◌≡◌, ◌≢◌, sym, ap, ◌∙◌, true, some, List, [], arith, length, ==_refl,
}
use stacks_pyth_bridge.Prelude.Bytes.{Bytes, bytes_eq_sound}
use stacks_pyth_bridge.Clarity.Outcome.{ok, >>=-eq-ok}
use stacks_pyth_bridge.Clarity.Cursor.{HkCursor}
use stacks_pyth_bridge.Clarity.Types.{Vaa}
use stacks_pyth_bridge.Wormhole.{Crypto, PublicKey, Wormhole}
use stacks_pyth_bridge.Wormhole.Guardians.{
  GuardiansSet, consolidate_public_keys, parse_and_verify_guardians_set, guardian_set_vaa_of,
  update_guardians_set, set_guardians, gsu_emitting_address, gsu_emitting_chain,
}

-- What a successful update has checked, and the new state.
pub record IsRotation (k : HkCursor) (crypto : Crypto) (w : Wormhole) (b : Bytes) (vaa : Vaa)
    (w' : Wormhole) : Type 0 where
  pub source : guardian_set_vaa_of k crypto w b ≡ ok vaa
  pub data_of : GuardiansSet
  pub parsed : parse_and_verify_guardians_set k w vaa.payload ≡ ok data_of
  pub address : vaa.emitter_address ≡ gsu_emitting_address
  pub chain : vaa.emitter_chain ≡ gsu_emitting_chain
  pub newer : w.active_guardian_set_id < w'.active_guardian_set_id
  pub initialized : w'.guardian_set_initialized ≡ true
  pub entries : List PublicKey
  pub stored : w'.guardian_sets w'.active_guardian_set_id ≡ some entries
  pub others : (id : ℕ) → id ≢ w'.active_guardian_set_id → w'.guardian_sets id ≡ w.guardian_sets id

module _ (k : HkCursor) (crypto : Crypto) where
  newer_index :
      (w : Wormhole) (payload : Bytes) (d : GuardiansSet)
      → parse_and_verify_guardians_set k w payload ≡ ok d
      → w.active_guardian_set_id < d.new_index
  unfolding parse_and_verify_guardians_set
  newer_index w payload d h = ground arith

  rotation_known :
      (w w' : Wormhole) (b : Bytes) (keys : List Bytes) (vaa vaa' : Vaa) (d : GuardiansSet)
      (entries : List PublicKey)
      → guardian_set_vaa_of k crypto w b ≡ ok vaa'
      → parse_and_verify_guardians_set k w vaa'.payload ≡ ok d
      → consolidate_public_keys crypto d.guardians_eth_addresses keys 0 [] ≡ ok entries
      → update_guardians_set k crypto w b keys ≡ ok (vaa, w')
      → (vaa' ≡ vaa)
        × (length keys ≡ length d.guardians_eth_addresses)
        × (vaa.emitter_address ≡ gsu_emitting_address)
        × (vaa.emitter_chain ≡ gsu_emitting_chain)
        × (record {
          guardian_set_initialized = true;
          active_guardian_set_id = d.new_index;
          guardian_sets = set_guardians w.guardian_sets d.new_index entries;
        }
            ≡ w')
  unfolding update_guardians_set
  rotation_known w w' b keys vaa vaa' d entries e f g h =
      ground (arith, bytes_eq_sound vaa'.emitter_address gsu_emitting_address)

  consolidate_public_keys-IsRotation :
      (w w' : Wormhole) (b : Bytes) (keys : List Bytes) (vaa vaa' : Vaa) (d : GuardiansSet)
      (entries : List PublicKey)
      → guardian_set_vaa_of k crypto w b ≡ ok vaa'
      → parse_and_verify_guardians_set k w vaa'.payload ≡ ok d
      → consolidate_public_keys crypto d.guardians_eth_addresses keys 0 [] ≡ ok entries
      → update_guardians_set k crypto w b keys ≡ ok (vaa, w')
      → IsRotation k crypto w b vaa w'
  consolidate_public_keys-IsRotation w w' b keys vaa vaa' d entries e f g h =
      let (same, len, address, chain, state) =
        rotation_known w w' b keys vaa vaa' d entries e f g h in
      let index : d.new_index ≡ w'.active_guardian_set_id =
        ap (λ (t : Wormhole). t.active_guardian_set_id) state in
      record {
        source = e ∙ ap (λ (t : Vaa). ok t) same;
        data_of = d;
        parsed = ap (λ (t : Vaa). parse_and_verify_guardians_set k w t.payload) (sym same) ∙ f;
        address = address;
        chain = chain;
        newer = omega (arith, newer_index w vaa'.payload d f, index);
        initialized = ap (λ (t : Wormhole). t.guardian_set_initialized) (sym state);
        entries = entries;
        stored =
            ap (λ (t : Wormhole). t.guardian_sets t.active_guardian_set_id) (sym state)
            ∙ rw (==_refl d.new_index);
        others = λ id ne.
            ap (λ (t : Wormhole). t.guardian_sets id) (sym state) ∙ ground (arith, index, ne);
      }

  -- An update of the guardians that succeeds took a VAA that was verified (or only parsed, before
  -- the first set), from the emitter of guardian set updates, whose payload parses; the active set
  -- id goes up, the new id has a set, no other set changes, and the contract is initialized.
  pub update_guardians_set-IsRotation :
      (w w' : Wormhole) (b : Bytes) (keys : List Bytes) (vaa : Vaa)
      → update_guardians_set k crypto w b keys ≡ ok (vaa, w')
      → IsRotation k crypto w b vaa w'
  unfolding update_guardians_set
  update_guardians_set-IsRotation w w' b keys vaa h =
      let (vaa', e, h1) = >>=-eq-ok (guardian_set_vaa_of k crypto w b) _ h in
      let (d, f, h2) = >>=-eq-ok (parse_and_verify_guardians_set k w vaa'.payload) _ h1 in
      let (entries, g, h3) =
        >>=-eq-ok (consolidate_public_keys crypto d.guardians_eth_addresses keys 0 []) _ h2 in
      consolidate_public_keys-IsRotation w w' b keys vaa vaa' d entries e f g h

-- ===== src/Bridge/Taken.antt =====
-- contracts/wormhole/wormhole-core-v2.clar, update-guardians-set: what it does with a VAA that it takes.
use stacks_pyth_bridge.Prelude.{◌≡◌, ap, ◌∙◌, List, [], length, true, false, ◌==◌, ==_iff}
use stacks_pyth_bridge.Prelude.Bytes.{Bytes, bytes_eq, bytes_eq_refl}
use stacks_pyth_bridge.Clarity.Outcome.{ok}
use stacks_pyth_bridge.Clarity.Cursor.{HkCursor}
use stacks_pyth_bridge.Clarity.Types.{Vaa}
use stacks_pyth_bridge.Wormhole.{
  Crypto, PublicKey, Wormhole, Message, parse_vaa, parse_and_verify_vaa,
}
use stacks_pyth_bridge.Wormhole.Guardians.{
  GuardiansSet, set_guardians, gsu_emitting_address, gsu_emitting_chain,
  parse_and_verify_guardians_set, consolidate_public_keys, guardian_set_vaa_of,
  update_guardians_set,
}

module _ (k : HkCursor) (crypto : Crypto) where
  pub installed_by :
      (w : Wormhole) (bytes : Bytes) (keys : List Bytes) (vaa : Vaa) (d : GuardiansSet)
      (entries : List PublicKey)
      → guardian_set_vaa_of k crypto w bytes ≡ ok vaa
      → parse_and_verify_guardians_set k w vaa.payload ≡ ok d
      → consolidate_public_keys crypto d.guardians_eth_addresses keys 0 [] ≡ ok entries
      → length keys ≡ length d.guardians_eth_addresses
      → vaa.emitter_address ≡ gsu_emitting_address
      → vaa.emitter_chain ≡ gsu_emitting_chain
      → update_guardians_set k crypto w bytes keys
        ≡ ok (
          vaa,
          record {
            guardian_set_initialized = true;
            active_guardian_set_id = d.new_index;
            guardian_sets = set_guardians w.guardian_sets d.new_index entries;
          },
        )
  unfolding update_guardians_set
  installed_by w bytes keys vaa d entries e p c l a n =
      let count : (length keys == length d.guardians_eth_addresses) ≡ true = (==_iff _ _).1 l in
      let address : bytes_eq vaa.emitter_address gsu_emitting_address ≡ true =
        ap (λ (t : Bytes). bytes_eq t gsu_emitting_address) a
        ∙ bytes_eq_refl gsu_emitting_address in
      let chain : (vaa.emitter_chain == gsu_emitting_chain) ≡ true = (==_iff _ _).1 n in
      rw (e, p, c, count, address, chain)

  pub first_taken :
      (w : Wormhole) (bytes : Bytes) (m : Message)
      → w.guardian_set_initialized ≡ false
      → parse_vaa k crypto bytes ≡ ok m
      → guardian_set_vaa_of k crypto w bytes ≡ ok m.vaa
  unfolding guardian_set_vaa_of
  first_taken w bytes m i e = rw (i, e)

  pub next_taken :
      (w : Wormhole) (bytes : Bytes) (vaa : Vaa)
      → w.guardian_set_initialized ≡ true
      → parse_and_verify_vaa k crypto w bytes ≡ ok vaa
      → guardian_set_vaa_of k crypto w bytes ≡ ok vaa
  unfolding guardian_set_vaa_of
  next_taken w bytes vaa i e = cc (i, e)

-- ===== src/Bridge/Decoded.antt =====
-- The buffer of price updates (PNAU) that unit-tests/pyth/helpers.ts lays out, as
-- contracts/pyth-pnau-decoder-v1.clar decodes it.
use stacks_pyth_bridge.Prelude.{
  ℕ, ◌^◌, ◌<◌, ◌≤◌, ◌≡◌, refl, sym, ap, ◌∙◌, subst, List, [], ◌∷◌, ◌++◌, length, arith, append-nil,
  Bool, true, Bool-cases, inl, inr, map,
}
use stacks_pyth_bridge.Prelude.Bytes.{Bytes, be_bytes, length-be_bytes, bytes_eq, bytes_eq_refl}
use stacks_pyth_bridge.Clarity.Outcome.{ok}
use stacks_pyth_bridge.Clarity.Cursor.{Cursor, HkCursor, HkCursorLaws, Reading, remaining, advanced}
use stacks_pyth_bridge.Clarity.Types.{Vaa, WormholeCore}
use stacks_pyth_bridge.Clarity.Walk.{Walk, walk, walk-entries, Reads, chunks, entries}
use stacks_pyth_bridge.Governance.{Governance}
use stacks_pyth_bridge.Harness.Buffers.{concat}
use stacks_pyth_bridge.Harness.Merkle.{Object}
use stacks_pyth_bridge.Harness.Pnau.{PriceUpdate, bytes_of, includes}
use stacks_pyth_bridge.Bridge.Fields.{read_uint-be_bytes, remaining_next}
use stacks_pyth_bridge.Bridge.Messages.{chunk}
use stacks_pyth_bridge.Bridge.Prices.{AreSubmittable, submitted}
use stacks_pyth_bridge.Bridge.Batch.{AreRooted}
use stacks_pyth_bridge.Pnau
use stacks_pyth_bridge.Pnau.{
  MerkleRootData, is_authorized, cast_decoded_price, parse_merkle_root_data_from_vaa_payload,
  parse_pnau_header, decode_pnau_price_update, pnau_magic, err_unauthorized_price_update,
}
use stacks_pyth_bridge.Pnau.Updates.{
  PriceInfo, HkMerkle, check_merkle_proofs, parse_and_verify_prices_updates, read_price_info,
}
use stacks_pyth_bridge.Bridge.Pnau.{HkMerkleLaws, layout, header_layout, no_more, last_chunk}

module _ (k : HkCursor) (laws : HkCursorLaws k) (keccak_256 : Bytes → Bytes) (merkle : HkMerkle)
    (merkle_laws : HkMerkleLaws keccak_256 merkle) where
  pub checked :
      (root : Bytes) (chosen : List Object) (ps : List PriceUpdate) (ms : List Bytes)
      (proofs : List (List Object))
      → AreSubmittable ps ms proofs
      → AreRooted keccak_256 root ms proofs
      → check_merkle_proofs k merkle root (entries (submitted chosen ps ms proofs)) true ≡ true
  unfolding check_merkle_proofs submitted
  checked root chosen [] ms proofs a r = refl
  checked root chosen (p ∷ ps) [] proofs a r = absurd a
  checked root chosen (p ∷ ps) (m ∷ ms) [] a r = absurd a
  checked root chosen (p ∷ ps) (m ∷ ms) (proof ∷ proofs) (s, a) (e, r) =
      let rest = checked root chosen ps ms proofs a r in
      elim (Bool-cases (includes chosen p.price_identifier)) [
        | inl is_in ↦
            let good : merkle.check_proof root m (bytes_of proof) ≡ true =
              merkle_laws.check_proof_lem root m (bytes_of proof)
              ∙ ap (λ (t : Bytes). bytes_eq root t) e
              ∙ bytes_eq_refl root in
            rw is_in (
              subst
                (λ (t : Bool).
                  check_merkle_proofs k merkle root (entries (submitted chosen ps ms proofs)) t
                  ≡ true)
                (sym good) rest)
        | inr not_in ↦ rw not_in rest
      ]

  parse_updates :
      (root bytes : Bytes) (xs : List (PriceInfo × Bytes)) (n : ℕ)
      → Reads (read_price_info k (chunks xs)) 0 xs
      → bytes ≡ be_bytes 1 n ++ chunks xs
      → length xs ≡ n
      → n ≤ 64
      → check_merkle_proofs k merkle root (entries xs) true ≡ true
      → parse_and_verify_prices_updates k merkle bytes root ≡ ok (entries xs)
  unfolding parse_and_verify_prices_updates
  parse_updates root bytes xs n r whole l small good =
      let c : Cursor = record { bytes = bytes; pos = 0 } in
      let later : remaining (advanced c 1) ≡ chunks xs =
        remaining_next 1 c (be_bytes 1 n) _ whole (length-be_bytes 1 n) in
      let w : Walk PriceInfo = record {
        index = 0;
        next_update_index = 0;
        result = [];
        limit = n;
      } in
      let read = read_price_info k (chunks xs) in
      let (w', e, f) = walk-entries read 64 xs [] 0 w r refl refl (omega arith) small in
      let e' : walk read 64 (chunks xs) w ≡ ok w' =
        ap (λ (t : Bytes). walk read 64 t w) (sym (append-nil (chunks xs))) ∙ e in
      rw
        (
          read_uint-be_bytes k laws 1 n c _ (omega arith) whole,
          laws.slice_all (advanced c 1),
          later,
          e',
          f,
          good,
        )
        refl

  parse_pnau_header-layout :
      (bytes rest : Bytes)
      → bytes ≡ concat header_layout ++ rest
      → (r : Reading stacks_pyth_bridge.Pnau.PnauHeader) × (parse_pnau_header k bytes ≡ ok r)
        × (remaining r.next ≡ rest)
  unfolding parse_pnau_header
  parse_pnau_header-layout bytes rest h =
      let c : Cursor = record { bytes = bytes; pos = 0 } in
      let r0 = chunk c _ rest _ h in
      let c1 = advanced c 4 in
      let r1 = chunk c1 _ rest _ (remaining_next 4 c pnau_magic _ r0 refl) in
      let c2 = advanced c1 1 in
      let r2 = chunk c2 _ rest _ (remaining_next 1 c1 _ _ r1 (length-be_bytes 1 1)) in
      let c3 = advanced c2 1 in
      let r3 = chunk c3 _ rest _ (remaining_next 1 c2 _ _ r2 (length-be_bytes 1 0)) in
      let c4 = advanced c3 1 in
      let r4 = chunk c4 _ rest _ (remaining_next 1 c3 _ _ r3 (length-be_bytes 1 0)) in
      (
        record {
          value = record {
            magic = pnau_magic;
            version_maj = 1;
            version_min = 0;
            header_trailing_size = 0;
            proof_type = 0;
          };
          next = advanced c4 1;
        },
        rw (
          laws.read_buff_ok 4 c pnau_magic _ r0 refl,
          read_uint-be_bytes k laws 1 1 c1 _ (omega arith) r1,
          read_uint-be_bytes k laws 1 0 c2 _ (omega arith) r2,
          read_uint-be_bytes k laws 1 0 c3 _ (omega arith) r3,
          read_uint-be_bytes k laws 1 0 c4 _ (omega arith) r4,
          bytes_eq_refl pnau_magic,
        ),
        remaining_next 1 c4 _ _ r4 (length-be_bytes 1 0) ∙ no_more rest,
      )

  pub decode-layout :
      (g : Governance) (core : WormholeCore) (vaa_bytes : Bytes) (vaa : Vaa)
      (root : Reading MerkleRootData) (n : ℕ) (xs : List (PriceInfo × Bytes)) (bytes : Bytes)
      → bytes ≡ concat header_layout ++ concat (layout vaa_bytes n (chunks xs))
      → length vaa_bytes < 256 ^ 2
      → core.parse_and_verify_vaa vaa_bytes ≡ ok vaa
      → parse_merkle_root_data_from_vaa_payload k vaa.payload ≡ ok root
      → is_authorized
          (record { emitter_chain = vaa.emitter_chain; emitter_address = vaa.emitter_address })
          g.prices_data_sources
        ≡ true
      → Reads (read_price_info k (chunks xs)) 0 xs
      → length xs ≡ n
      → n ≤ 64
      → check_merkle_proofs k merkle root.value.merkle_root_hash (entries xs) true ≡ true
      → decode_pnau_price_update k merkle g bytes core ≡ ok (map cast_decoded_price (entries xs))
  unfolding decode_pnau_price_update
  decode-layout g core vaa_bytes vaa root n xs bytes whole small verified rooted authorized r l few
        good =
      let (header, e, at) = parse_pnau_header-layout bytes _ whole in
      let c = header.next in
      let r0 =
        chunk c (be_bytes 2 (length vaa_bytes)) [] (vaa_bytes ∷ be_bytes 1 n ∷ chunks xs ∷ [])
          (at ∙ sym (append-nil _)) in
      let c1 = advanced c 2 in
      let r1 =
        chunk c1 vaa_bytes [] _
          (remaining_next 2 c _ _ r0 (length-be_bytes 2 (length vaa_bytes))) in
      let c2 = advanced c1 (length vaa_bytes) in
      let r2 = chunk c2 (be_bytes 1 n) [] _ (remaining_next (length vaa_bytes) c1 _ _ r1 refl) in
      let r2' : remaining c2 ≡ be_bytes 1 n ++ chunks xs =
        r2 ∙ ap (λ (t : Bytes). be_bytes 1 n ++ t) (last_chunk (chunks xs)) in
      rw (
        e,
        read_uint-be_bytes k laws 2 (length vaa_bytes) c _ small r0,
        laws.read_some (length vaa_bytes) c1,
        laws.read_buff_ok (length vaa_bytes) c1 vaa_bytes _ r1 refl,
        verified,
        rooted,
        laws.slice_all c2,
        parse_updates root.value.merkle_root_hash (remaining c2) xs n r r2' l few good,
        authorized,
      )

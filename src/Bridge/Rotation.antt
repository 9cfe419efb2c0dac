-- ===== src/Bridge/Rotation.antt =====
-- A guardian set update from unit-tests/wormhole/helpers.ts, as contracts/wormhole/wormhole-core-v2.clar
-- parses it.
use stacks_pyth_bridge.Prelude.{
  ℕ, zero, suc, ◌+◌, ◌*◌, ◌%◌, ◌^◌, ◌<◌, ◌≤◌, ◌≡◌, refl, sym, ap, ◌∙◌, List, [], ◌∷◌, ◌++◌, length,
  length-append, map, some, arith, append-nil, append_assoc, All, drop, true, false, ◌==◌, ==_iff,
  lt→ltb,
}
use stacks_pyth_bridge.Prelude.Bytes.{Bytes, be_bytes, length-be_bytes, bytes_eq_refl}
use stacks_pyth_bridge.Clarity.Outcome.{ok}
use stacks_pyth_bridge.Clarity.Cursor.{Cursor, HkCursor, HkCursorLaws, advanced}
use stacks_pyth_bridge.Harness.Buffers.{concat}
use stacks_pyth_bridge.Harness.Wormhole.{
  Guardian, valid_guardian_rotation_module, serialize_guardian_update_vaa_payload_to_buffer,
}
use stacks_pyth_bridge.Bridge.Fields.{read_uint-be_bytes, remaining_next, write_uint_be_fits}
use stacks_pyth_bridge.Bridge.Guardians.{append_room}
use stacks_pyth_bridge.Bridge.Messages.{chunk}
use stacks_pyth_bridge.Bridge.Proofs.{IsHash20, length-concat}
use stacks_pyth_bridge.Wormhole.{Wormhole}
use stacks_pyth_bridge.Wormhole.Guardians.{
  guardian_cues, parse_guardians, parse_and_verify_guardians_set,
}

-- Inside an address no cue is set.
cues_skip :
    (bs rest : Bytes) (cursor : ℕ) (result : List ℕ)
    → 0 < cursor % 20
    → cursor % 20 + length bs ≤ 20
    → guardian_cues (bs ++ rest) cursor result ≡ guardian_cues rest (cursor + length bs) result
unfolding guardian_cues
cues_skip [] rest cursor result p h = ap (λ (t : ℕ). guardian_cues rest t result) (omega arith)
cues_skip (b ∷ []) rest cursor result p h =
    let off : (cursor % 20 == 0) ≡ false = ground arith in
    rw off (ap (λ (t : ℕ). guardian_cues rest t result) (omega arith))
cues_skip (b ∷ c ∷ bs) rest cursor result p h =
    let off : (cursor % 20 == 0) ≡ false = ground arith in
    rw off (
      cues_skip (c ∷ bs) rest (cursor + 1) result (omega arith) (omega arith)
      ∙ ap (λ (t : ℕ). guardian_cues rest t result) (omega arith))

-- The starts of n addresses from the m-th on.
abbrev cues : ℕ → ℕ → List ℕ
cues m zero = []
cues m (suc n) = (20 * m) ∷ cues (suc m) n

cue_set :
    (h rest : Bytes) (m : ℕ) (result : List ℕ)
    → length h ≡ 20
    → length result < 19
    → guardian_cues (h ++ rest) (20 * m) result
      ≡ guardian_cues rest (20 * suc m) (result ++ (20 * m) ∷ [])
unfolding guardian_cues
cue_set [] rest m result l r = absurd (omega (arith, l))
cue_set (b ∷ bs) rest m result l r =
    let on : (20 * m % 20 == 0) ≡ true = (==_iff _ _).1 (omega arith) in
    rw (on, append_room 19 result (20 * m) r)
      (cues_skip bs rest (20 * m + 1) (result ++ (20 * m) ∷ []) (omega arith) (omega arith)
        ∙ ap (λ (t : ℕ). guardian_cues rest t (result ++ (20 * m) ∷ [])) (omega arith))

cues_set :
    (hs : List Bytes) (m : ℕ) (result : List ℕ)
    → All IsHash20 hs
    → length result + length hs ≤ 19
    → guardian_cues (concat hs) (20 * m) result ≡ ok (result ++ cues m (length hs))
unfolding guardian_cues concat
cues_set [] m result a r = ap (λ (t : List ℕ). ok t) (sym (append-nil result))
cues_set (h ∷ hs) m result (l, a) r =
    cue_set h (concat hs) m result l (omega arith)
    ∙ cues_set hs (suc m) (result ++ (20 * m) ∷ []) a
        (omega (arith, length-append result ((20 * m) ∷ [])))
    ∙ ap (λ (t : List ℕ). ok t) (append_assoc result ((20 * m) ∷ []) (cues (suc m) (length hs)))

abbrev pub addresses_of : List Guardian → List Bytes
addresses_of gs = map (λ (g : Guardian). g.ethereum_address) gs

module _ (k : HkCursor) (laws : HkCursorLaws k) where
  addresses_read :
      (bytes : Bytes) (hs : List Bytes) (m : ℕ) (result : List Bytes)
      → All IsHash20 hs
      → length result + length hs ≤ 19
      → drop (20 * m) bytes ≡ concat hs
      → parse_guardians k bytes (cues m (length hs)) result ≡ ok (result ++ hs)
  unfolding parse_guardians concat
  addresses_read bytes [] m result a r e = ap (λ (t : List Bytes). ok t) (sym (append-nil result))
  addresses_read bytes (h ∷ hs) m result (l, a) r e =
      let c : Cursor = record { bytes = bytes; pos = 20 * m } in
      let next : drop (20 * suc m) bytes ≡ concat hs =
        ap (λ (t : ℕ). drop t bytes) (omega arith) ∙ remaining_next 20 c h (concat hs) e l in
      rw (laws.read_buff_ok 20 c h (concat hs) e l, append_room 19 result h (omega arith))
        (addresses_read bytes hs (suc m) (result ++ h ∷ []) a
            (omega (arith, length-append result (h ∷ []))) next
          ∙ ap (λ (t : List Bytes). ok t) (append_assoc result (h ∷ []) hs))

  length-addresses_of : (gs : List Guardian) → length (addresses_of gs) ≡ length gs
  length-addresses_of [] = refl
  length-addresses_of (g ∷ gs) = ap suc (length-addresses_of gs)

  abbrev layout : ℕ → List Guardian → List Bytes
  layout set_id gs =
      valid_guardian_rotation_module
      ∷ be_bytes 1 2
      ∷ be_bytes 2 0
      ∷ be_bytes 4 set_id
      ∷ be_bytes 1 (length gs)
      ∷ addresses_of gs

  serialized :
      (gs : List Guardian) (set_id : ℕ)
      → set_id < 256 ^ 4
      → length gs ≤ 19
      → serialize_guardian_update_vaa_payload_to_buffer gs 2 0 set_id valid_guardian_rotation_module
        ≡ some (concat (layout set_id gs))
  unfolding serialize_guardian_update_vaa_payload_to_buffer
  serialized gs set_id i n = rw (
    write_uint_be_fits 1 2 (omega arith),
    write_uint_be_fits 2 0 (omega arith),
    write_uint_be_fits 4 set_id i,
    write_uint_be_fits 1 (length gs) (omega arith),
  )

  -- The payload of a guardian set update is serialized for every keychain of at most 19 guardians,
  -- and the contract parses it to the addresses of all of them, in their order, and the number of
  -- the new set. Given: addresses of 20 bytes, a number that is above that of the active set and
  -- fits 4 bytes, and a cursor contract that meets `HkCursorLaws`.
  pub parse_and_verify_guardians_set-serialize :
      (w : Wormhole) (gs : List Guardian) (set_id : ℕ)
      → All IsHash20 (addresses_of gs)
      → length gs ≤ 19
      → w.active_guardian_set_id < set_id
      → set_id < 256 ^ 4
      → (bytes : Bytes) × (serialize_guardian_update_vaa_payload_to_buffer gs 2 0 set_id
            valid_guardian_rotation_module
          ≡ some bytes)
        × (parse_and_verify_guardians_set k w bytes
            ≡ ok (record {
              guardians_eth_addresses = addresses_of gs;
              module_id = valid_guardian_rotation_module;
              action = 2;
              chain = 0;
              new_index = set_id;
            }))
  unfolding parse_and_verify_guardians_set
  parse_and_verify_guardians_set-serialize w gs set_id a n newer fits =
      let bytes = concat (layout set_id gs) in
      let c : Cursor = record { bytes = bytes; pos = 0 } in
      let hs = addresses_of gs in
      let count = length-addresses_of gs in
      let module_bytes = valid_guardian_rotation_module in
      let ml : length module_bytes ≡ 32 = length-be_bytes 32 0x436f7265 in
      let r0 = chunk c module_bytes [] _ (sym (append-nil bytes)) in
      let c1 = advanced c 32 in
      let r1 = chunk c1 (be_bytes 1 2) [] _ (remaining_next 32 c _ _ r0 ml) in
      let c2 = advanced c1 1 in
      let r2 = chunk c2 (be_bytes 2 0) [] _ (remaining_next 1 c1 _ _ r1 (length-be_bytes 1 2)) in
      let c3 = advanced c2 2 in
      let r3 =
        chunk c3 (be_bytes 4 set_id) [] _ (remaining_next 2 c2 _ _ r2 (length-be_bytes 2 0)) in
      let c4 = advanced c3 4 in
      let r4 =
        chunk c4 (be_bytes 1 (length gs)) [] hs
          (remaining_next 4 c3 _ _ r3 (length-be_bytes 4 set_id)) in
      let c5 = advanced c4 1 in
      let r5 = remaining_next 1 c4 _ _ r4 (length-be_bytes 1 (length gs)) in
      let size : length (concat hs) ≡ length gs * 20 =
        length-concat k laws hs a ∙ omega (arith, count) in
      let cued : guardian_cues (concat hs) 0 [] ≡ ok (cues 0 (length hs)) =
        cues_set hs 0 [] a (omega (arith, count)) in
      (
        bytes,
        serialized gs set_id fits n,
        rw (
          laws.read_buff_ok 32 c module_bytes _ r0 ml,
          read_uint-be_bytes k laws 1 2 c1 _ (omega arith) r1,
          read_uint-be_bytes k laws 2 0 c2 _ (omega arith) r2,
          read_uint-be_bytes k laws 4 set_id c3 _ fits r3,
          read_uint-be_bytes k laws 1 (length gs) c4 _ (omega arith) r4,
          laws.read_some (length gs * 20) c5,
          laws.read_buff_ok (length gs * 20) c5 (concat hs) [] r5 size,
          cued,
          addresses_read (concat hs) hs 0 [] a (omega (arith, count)) refl,
          bytes_eq_refl module_bytes,
          lt→ltb w.active_guardian_set_id set_id newer,
        ),
      )

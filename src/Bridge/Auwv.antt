-- ===== src/Bridge/Auwv.antt =====
-- The message with the root of a batch (AUWV) from unit-tests/pyth/helpers.ts, as
-- contracts/pyth-pnau-decoder-v1.clar reads it.
use stacks_pyth_bridge.Prelude.{
  ℕ, ◌+◌, ◌*◌, ◌^◌, ◌<◌, ◌≡◌, refl, sym, ap, ◌∙◌, List, [], ◌∷◌, ◌++◌, length, length-append, some,
  arith, append-nil,
}
use stacks_pyth_bridge.Prelude.Bytes.{
  Bytes, be_bytes, be_from, be_value, length-be_bytes, be_value-be_bytes, bytes_eq, bytes_eq_refl,
}
use stacks_pyth_bridge.Clarity.Outcome.{ok}
use stacks_pyth_bridge.Clarity.Cursor.{Cursor, HkCursor, HkCursorLaws, advanced}
use stacks_pyth_bridge.Harness.Buffers.{write_uint_be, concat, bigint_to_buffer}
use stacks_pyth_bridge.Harness.Buffers.BigEndian.{natural_to_buffer-be_bytes}
use stacks_pyth_bridge.Harness.Pnau.{
  AuwvVaaPayload, write_ring_size, serialize_auwv_vaa_payload_to_buffer,
}
use stacks_pyth_bridge.Bridge.Fields.{read_uint-be_bytes, remaining_next, write_uint_be_fits}
use stacks_pyth_bridge.Bridge.Ptgm.{bind-some}
use stacks_pyth_bridge.Bridge.Vaa.{written}
use stacks_pyth_bridge.Bridge.Messages.{chunk}
use stacks_pyth_bridge.Pnau.{MerkleRootData, auwv_magic, parse_merkle_root_data_from_vaa_payload}

-- What the contract reads of a payload. The ring size is read from all four bytes of its field, of
-- which the helpers write the first two.
abbrev pub root_data : AuwvVaaPayload → Bytes → MerkleRootData
root_data a root = record {
  merkle_root_slot = a.merkle_root_slot;
  merkle_root_ring_size = a.merkle_root_ring_size * 65536;
  merkle_root_hash = root;
  payload_type = a.payload_type;
}

be_from-append : (acc : ℕ) (xs ys : Bytes) → be_from acc (xs ++ ys) ≡ be_from (be_from acc xs) ys
unfolding be_from
be_from-append acc [] ys = refl
be_from-append acc (x ∷ xs) ys = be_from-append (acc * 256 + x) xs ys

ring_written :
    (v : ℕ) (bytes : Bytes)
    → write_ring_size v ≡ some bytes
    → (length bytes ≡ 4) × (be_value bytes ≡ v * 65536)
unfolding write_ring_size be_from
ring_written v bytes h =
    let (size, e, g) = bind-some (write_uint_be 2 v) _ h in
    let (fits, same) = written 2 v size e in
    let whole : be_bytes 2 v ++ 0 ∷ 0 ∷ [] ≡ bytes = cc (g, same) in
    rw (← whole) (
      length-append (be_bytes 2 v) (0 ∷ 0 ∷ []) ∙ omega (arith, length-be_bytes 2 v),
      be_from-append 0 (be_bytes 2 v) (0 ∷ 0 ∷ []) ∙ omega (arith, be_value-be_bytes 2 v fits),
    )

-- Only a batch that has a root is written.
pub serialized_root :
    (a : AuwvVaaPayload) (bytes : Bytes)
    → serialize_auwv_vaa_payload_to_buffer a ≡ some bytes
    → (root : Bytes) × (a.merkle_root_hash ≡ some root)
unfolding serialize_auwv_vaa_payload_to_buffer
serialized_root a bytes h =
    let (kind, e, g) = bind-some (write_uint_be 1 a.update_type) _ h in
    let (ring, e', g') = bind-some (write_ring_size a.merkle_root_ring_size) _ g in
    let (root, e'', g'') = bind-some a.merkle_root_hash _ g' in (root, e'')

module _ (k : HkCursor) (laws : HkCursorLaws k) where
  abbrev layout : AuwvVaaPayload → Bytes → Bytes → List Bytes
  layout a ring root =
      a.payload_type ∷ be_bytes 1 0 ∷ be_bytes 8 a.merkle_root_slot ∷ ring ∷ root ∷ []

  serialized :
      (a : AuwvVaaPayload) (root bytes : Bytes)
      → a.update_type ≡ 0
      → a.merkle_root_slot < 256 ^ 8
      → a.merkle_root_hash ≡ some root
      → serialize_auwv_vaa_payload_to_buffer a ≡ some bytes
      → (ring : Bytes) × (write_ring_size a.merkle_root_ring_size ≡ some ring)
        × (bytes ≡ concat (layout a ring root))
  unfolding serialize_auwv_vaa_payload_to_buffer bigint_to_buffer
  serialized a root bytes t s r h =
      let one : write_uint_be 1 0 ≡ some (be_bytes 1 0) = write_uint_be_fits 1 0 (omega arith) in
      let (ring, e, g) =
        bind-some (write_ring_size a.merkle_root_ring_size) _ (rw (t, one, r) at h) in
      (ring, e, cc (g, natural_to_buffer-be_bytes 8 a.merkle_root_slot s))

  -- The message of a root is read back, the ring size times 65536.
  pub parse_merkle_root_data-serialize :
      (a : AuwvVaaPayload) (root bytes : Bytes)
      → a.payload_type ≡ auwv_magic
      → a.update_type ≡ 0
      → a.merkle_root_slot < 256 ^ 8
      → a.merkle_root_hash ≡ some root
      → length root ≡ 20
      → serialize_auwv_vaa_payload_to_buffer a ≡ some bytes
      → (next : Cursor) × (parse_merkle_root_data_from_vaa_payload k bytes
          ≡ ok (record { value = root_data a root; next = next }))
  unfolding parse_merkle_root_data_from_vaa_payload
  parse_merkle_root_data-serialize a root bytes m t s r len h =
      let (ring, e, whole) = serialized a root bytes t s r h in
      let (rl, rv) = ring_written a.merkle_root_ring_size ring e in
      let c : Cursor = record { bytes = bytes; pos = 0 } in
      let ml : length a.payload_type ≡ 4 = ap (λ (x : Bytes). length x) m in
      let r0 = chunk c _ [] _ (whole ∙ sym (append-nil (concat (layout a ring root)))) in
      let c1 = advanced c 4 in
      let r1 = chunk c1 _ [] _ (remaining_next 4 c _ _ r0 ml) in
      let c2 = advanced c1 1 in
      let r2 = chunk c2 _ [] _ (remaining_next 1 c1 _ _ r1 (length-be_bytes 1 0)) in
      let c3 = advanced c2 8 in
      let r3 =
        chunk c3 _ [] _ (remaining_next 8 c2 _ _ r2 (length-be_bytes 8 a.merkle_root_slot)) in
      let c4 = advanced c3 4 in
      let r4 = chunk c4 _ [] _ (remaining_next 4 c3 _ _ r3 rl) in
      (
        advanced c4 20,
        rw (
          laws.read_buff_ok 4 c a.payload_type _ r0 ml,
          read_uint-be_bytes k laws 1 0 c1 _ (omega arith) r1,
          read_uint-be_bytes k laws 8 a.merkle_root_slot c2 _ s r2,
          laws.read_uint_lem 4 c3,
          laws.read_buff_ok 4 c3 ring _ r3 rl,
          laws.read_buff_ok 20 c4 root _ r4 len,
          rv,
          ap (λ (x : Bytes). bytes_eq x auwv_magic) m,
          bytes_eq_refl auwv_magic,
        ),
      )

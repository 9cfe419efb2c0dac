-- ===== src/Bridge/Feeds.antt =====
-- Price updates from their specification in unit-tests/pyth/helpers.ts (buildPriceUpdateBatch,
-- buildAuwvVaaPayload, serializePnauToBuffer) to the prices of contracts/pyth-pnau-decoder-v1.clar.
use stacks_pyth_bridge.Prelude.{
  ℕ, ◌^◌, ◌<◌, ◌≤◌, ◌≡◌, refl, ap, ◌∙◌, List, ◌++◌, length, some, All, map, true,
}
use stacks_pyth_bridge.Prelude.Bytes.{Bytes}
use stacks_pyth_bridge.Clarity.Outcome.{ok, with_buff, with_buff-fits}
use stacks_pyth_bridge.Clarity.Cursor.{HkCursor, HkCursorLaws}
use stacks_pyth_bridge.Clarity.Types.{Vaa, WormholeCore}
use stacks_pyth_bridge.Clarity.Walk.{chunks}
use stacks_pyth_bridge.Governance.{Governance}
use stacks_pyth_bridge.Store.{PriceEntry}
use stacks_pyth_bridge.Harness.Values.{serialize_price_update_to_clarity_value}
use stacks_pyth_bridge.Harness.Buffers.{concat}
use stacks_pyth_bridge.Harness.Merkle.{Object}
use stacks_pyth_bridge.Harness.Merkle.Root.{IsHash}
use stacks_pyth_bridge.Harness.Pnau.{
  PriceUpdateOptions, PriceUpdateBatch, AuwvOptions, AuwvVaaPayload, PnauHeader,
  build_price_update_batch, build_auwv_vaa_payload, serialize_auwv_vaa_payload_to_buffer,
  serialize_pnau_to_buffer,
}
use stacks_pyth_bridge.Bridge.Messages.{IsWritable}
use stacks_pyth_bridge.Bridge.Prices.{submitted, serialize_updates-chunks, submitted-Reads}
use stacks_pyth_bridge.Bridge.Batch.{requested, build_price_update_batch-AreRooted}
use stacks_pyth_bridge.Bridge.Auwv.{root_data, parse_merkle_root_data-serialize, serialized_root}
use stacks_pyth_bridge.Bridge.Pnau.{
  HkMerkleLaws, selected, submitted-selected, IsStandard, header_layout, layout, serialized,
}
use stacks_pyth_bridge.Bridge.Decoded.{checked, decode-layout}
use stacks_pyth_bridge.Pnau.{
  auwv_magic, is_authorized, decode_pnau_price_update, parse_merkle_root_data_from_vaa_payload,
}
use stacks_pyth_bridge.Pnau.Updates.{HkMerkle}

-- The message of a batch with default type and kind.
pub record IsRootMessage (a : AuwvVaaPayload) : Type 0 where
  pub kind : a.payload_type ≡ auwv_magic
  pub update : a.update_type ≡ 0
  pub slot : a.merkle_root_slot < 256 ^ 8

module _ (k : HkCursor) (laws : HkCursorLaws k) (keccak_256 : Bytes → Bytes)
    (is_hash : IsHash keccak_256) (merkle : HkMerkle)
    (merkle_laws : HkMerkleLaws keccak_256 merkle) where
  -- The buffer that the helpers build from specifications of price updates is decoded to exactly
  -- the submitted updates, in their order and with all their fields. Given: at most 128
  -- specifications whose values fit their fields and at most 64 that are submitted, each once; a
  -- buffer of at most 8192 bytes, as the argument holds; a VAA with the helpers' root message that
  -- the core verifies, from an authorized source; default kinds and header; a hash of 32 bytes, and
  -- cursor and Merkle contracts that meet their laws.
  pub decode_pnau_price_update-serialize :
      (date next : ℕ) (specs : List (Object × PriceUpdateOptions)) (batch : PriceUpdateBatch)
      (opts : AuwvOptions) (payload : Bytes) (header : PnauHeader) (chosen : List Object)
      (g : Governance) (core : WormholeCore) (vaa : Vaa) (vaa_bytes bytes : Bytes)
      → All IsWritable (requested date specs)
      → length specs ≤ 128
      → build_price_update_batch keccak_256 date next specs ≡ some batch
      → IsRootMessage (build_auwv_vaa_payload keccak_256 batch opts)
      → serialize_auwv_vaa_payload_to_buffer (build_auwv_vaa_payload keccak_256 batch opts)
        ≡ some payload
      → core.parse_and_verify_vaa vaa_bytes ≡ ok vaa
      → vaa.payload ≡ payload
      → is_authorized
          (record { emitter_chain = vaa.emitter_chain; emitter_address = vaa.emitter_address })
          g.prices_data_sources
        ≡ true
      → IsStandard header
      → length (selected chosen (requested date specs)) ≡ length chosen
      → length chosen ≤ 64
      → serialize_pnau_to_buffer header
          (record { vaa = vaa_bytes; prices_updates = batch; prices_updates_to_submit = chosen })
        ≡ some bytes
      → length bytes ≤ 8192
      → with_buff 8192 (λ t. decode_pnau_price_update k merkle g t core) bytes
        ≡ ok (map serialize_price_update_to_clarity_value (selected chosen (requested date specs)))
  decode_pnau_price_update-serialize date next specs batch opts payload header chosen g core vaa
        vaa_bytes bytes writable few built message written verified carried authorized standard
        same_count small submit fits_buff =
      let a = build_auwv_vaa_payload keccak_256 batch opts in
      let (root, r) = serialized_root a payload written in
      let (decoded, good, rooted, size) =
        build_price_update_batch-AreRooted keccak_256 is_hash date next specs batch opts root
          writable few built r in
      let (cursor, parsed) =
        parse_merkle_root_data-serialize k laws a root payload message.kind message.update
          message.slot r size written in
      let (fits, count, updates, e, whole) = serialized header _ bytes standard submit in
      let xs = submitted chosen batch.decoded batch.serialized batch.proofs in
      let at =
        serialize_updates-chunks k laws chosen batch.decoded batch.serialized batch.proofs updates
          good e in
      let (entries_same, length_same) =
        submitted-selected chosen batch.decoded batch.serialized batch.proofs good in
      let d : map serialize_price_update_to_clarity_value (selected chosen batch.decoded)
          ≡ map serialize_price_update_to_clarity_value (selected chosen (requested date specs)) =
        ap (λ t. map serialize_price_update_to_clarity_value (selected chosen t)) decoded in
      with_buff-fits 8192 (λ t. decode_pnau_price_update k merkle g t core) bytes fits_buff
        (decode-layout k laws keccak_256 merkle merkle_laws g core vaa_bytes vaa
            (record { value = root_data a root; next = cursor }) (length chosen) xs bytes
            (whole
              ∙ ap
                  (λ (t : Bytes).
                    concat header_layout ++ concat (layout vaa_bytes (length chosen) t))
                  at)
            fits verified
            (ap (λ (t : Bytes). parse_merkle_root_data_from_vaa_payload k t) carried ∙ parsed)
            authorized
            (submitted-Reads k laws (chunks xs) 0 chosen batch.decoded batch.serialized batch.proofs
              good refl)
            (length_same ∙ ap (λ t. length (selected chosen t)) decoded ∙ same_count) small
            (checked k laws keccak_256 merkle merkle_laws root chosen batch.decoded batch.serialized
              batch.proofs good rooted)
          ∙ ap (λ (t : List PriceEntry). ok t) (entries_same ∙ d))

-- ===== src/Bridge/Reprinted.antt =====
-- A VAA that contracts/wormhole/wormhole-core-v2.clar parses, serialized again by the helpers of
-- unit-tests/wormhole/helpers.ts.
use stacks_pyth_bridge.Prelude.{
  ◌^◌, ◌<◌, ◌≤◌, ◌≡◌, sym, ap, ◌∙◌, subst, List, length, some, arith, All,
}
use stacks_pyth_bridge.Prelude.Bytes.{Bytes, IsByte}
use stacks_pyth_bridge.Clarity.Outcome.{ok}
use stacks_pyth_bridge.Clarity.Cursor.{Cursor, HkCursor, HkCursorLaws}
use stacks_pyth_bridge.Clarity.Types.{Signature, Vaa}
use stacks_pyth_bridge.Harness.Wormhole.{VaaBody, serialize_vaa_to_buffer}
use stacks_pyth_bridge.Bridge.Vaa
use stacks_pyth_bridge.Bridge.SignedVaa
use stacks_pyth_bridge.Bridge.SignedVaa.{header_of, length-map, layout}
use stacks_pyth_bridge.Bridge.Signatures.{IsSignature}
use stacks_pyth_bridge.Bridge.Applied.{body-IsMade, header-IsMade, vaa-IsMade}
use stacks_pyth_bridge.Bridge.Canonical.{layout-inv}
use stacks_pyth_bridge.Bridge.Canonical.Bodies.{BodyAt, body_layout}
use stacks_pyth_bridge.Wormhole.{Crypto, Header, Body, Message, vaa_of, parse_vaa}

-- The body of a parsed VAA as the helpers hold it.
abbrev pub vaa_body_of : Vaa → VaaBody
vaa_body_of vaa = record {
  timestamp = vaa.timestamp;
  nonce = vaa.nonce;
  emitter_chain = vaa.emitter_chain;
  emitter_address = vaa.emitter_address;
  sequence = vaa.sequence;
  consistency_level = vaa.consistency_level;
  payload = vaa.payload;
}

-- The ranges of the types that the contract declares for a VAA.
pub record IsTyped (vaa : Vaa) : Type 0 where
  pub version : vaa.version < 2 ^ 8
  pub guardian_set_id : vaa.guardian_set_id < 2 ^ 32
  pub signatures_len : vaa.signatures_len ≡ length vaa.signatures
  pub signatures : All IsSignature vaa.signatures
  pub timestamp : vaa.timestamp < 2 ^ 32
  pub nonce : vaa.nonce < 2 ^ 32
  pub emitter_chain : vaa.emitter_chain < 2 ^ 16
  pub emitter_address : length vaa.emitter_address ≡ 32
  pub sequence : vaa.sequence < 2 ^ 64
  pub consistency_level : vaa.consistency_level < 2 ^ 8

module _ (k : HkCursor) (laws : HkCursorLaws k) (crypto : Crypto) where
  -- A VAA that parses has values of the types that the contract declares: numbers within the bytes
  -- they are read from, an emitter address of 32 bytes, as many signatures as it announces, each of
  -- 65 bytes with an id below 256. Given: a buffer of bytes, at most 19 announced signatures, and a
  -- cursor contract that meets `HkCursorLaws`.
  pub parse_vaa-IsTyped :
      (bytes : Bytes) (m : Message)
      → All IsByte bytes
      → m.vaa.signatures_len ≤ 19
      → parse_vaa k crypto bytes ≡ ok m
      → IsTyped m.vaa
  parse_vaa-IsTyped bytes m a few e =
      let (h, sigs, b, v, f1, f2, n, good, c, (b1, b2, b3, b4, b5, b6, _), _) =
        layout-inv k laws crypto bytes m e a few in
      subst IsTyped (sym v) (record {
        version = omega arith;
        guardian_set_id = omega arith;
        signatures_len = sym n;
        signatures = good;
        timestamp = omega arith;
        nonce = omega arith;
        emitter_chain = omega arith;
        emitter_address = b4;
        sequence = omega arith;
        consistency_level = omega arith;
      })

  reprinted :
      (h : Header) (sigs : List Signature) (b : Body) (c : Cursor)
      → h.version < 256 ^ 1
      → h.guardian_set_id < 256 ^ 4
      → length sigs ≤ 19
      → BodyAt k laws crypto c b
      → serialize_vaa_to_buffer
          (header_of h.version h.guardian_set_id sigs)
          (vaa_body_of (vaa_of h sigs b))
        ≡ some (layout h.version h.guardian_set_id sigs (body_layout b))
  reprinted h sigs b c f1 f2 few (b1, b2, b3, b4, b5, b6, _) =
      let body = vaa_body_of (vaa_of h sigs b) in
      let header = header_of h.version h.guardian_set_id sigs in
      let (bytes, e) =
        vaa-IsMade header body (header-IsMade header f1 f2 (omega (arith, length-map sigs)))
          (body-IsMade body b1 b2 b3 b6) in
      let (_, _, _, written, w, whole) =
        SignedVaa.serialized h.version h.guardian_set_id sigs body bytes e in
      let (_, same) = Vaa.serialized k laws crypto body written b5 w in
      e
      ∙ ap (λ (t : Bytes). some t)
          (whole ∙ ap (λ (t : Bytes). layout h.version h.guardian_set_id sigs t) same)

  -- A VAA that parses gives back its own buffer when the helpers serialize its fields and
  -- signatures again. Given: a buffer of bytes, at most 19 announced signatures, and a cursor
  -- contract that meets `HkCursorLaws`.
  pub serialize-parse_vaa :
      (bytes : Bytes) (m : Message)
      → All IsByte bytes
      → m.vaa.signatures_len ≤ 19
      → parse_vaa k crypto bytes ≡ ok m
      → serialize_vaa_to_buffer
          (header_of m.vaa.version m.vaa.guardian_set_id m.vaa.signatures)
          (vaa_body_of m.vaa)
        ≡ some bytes
  serialize-parse_vaa bytes m a few e =
      let (h, sigs, b, v, f1, f2, n, _, c, at, whole) = layout-inv k laws crypto bytes m e a few in
      let count : h.signatures_len ≤ 19 = subst (λ (t : Vaa). t.signatures_len ≤ 19) v few in
      subst
        (λ (t : Vaa).
          serialize_vaa_to_buffer (header_of t.version t.guardian_set_id t.signatures)
            (vaa_body_of t)
          ≡ some bytes)
        (sym v)
        (reprinted h sigs b c f1 f2 (omega (arith, n)) at ∙ ap (λ (t : Bytes). some t) (sym whole))

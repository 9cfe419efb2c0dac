-- ===== src/Bridge/Vaa.antt =====
-- A VAA that unit-tests/wormhole/helpers.ts serializes, as contracts/wormhole/wormhole-core-v2.clar
-- parses it.
use stacks_pyth_bridge.Prelude.{
  ℕ, ◌^◌, ◌<◌, ◌≡◌, ◌∙◌, ◌++◌, length, some, ltb, ltb→lt, append-nil, Bool-cases, inl, inr,
}
use stacks_pyth_bridge.Prelude.Bytes.{Bytes, be_bytes, length-be_bytes}
use stacks_pyth_bridge.Clarity.Outcome.{ok}
use stacks_pyth_bridge.Clarity.Cursor.{Cursor, HkCursor, HkCursorLaws, remaining, advanced}
use stacks_pyth_bridge.Harness.Buffers.{write_uint_be, concat, bigint_to_buffer}
use stacks_pyth_bridge.Harness.Buffers.BigEndian.{natural_to_buffer-be_bytes}
use stacks_pyth_bridge.Harness.Wormhole.{VaaBody, serialize_vaa_body_to_buffer}
use stacks_pyth_bridge.Bridge.Fields.{read_uint-be_bytes, remaining_next}
use stacks_pyth_bridge.Bridge.Ptgm.{bind-some}
use stacks_pyth_bridge.Wormhole.{Crypto, Body, parse_body}

-- The fields as the contract returns them.
abbrev pub body_of : VaaBody → Body
body_of b = record {
  timestamp = b.timestamp;
  nonce = b.nonce;
  emitter_chain = b.emitter_chain;
  emitter_address = b.emitter_address;
  sequence = b.sequence;
  consistency_level = b.consistency_level;
  payload = b.payload;
}

-- What is written fits.
pub written :
    (n v : ℕ) (bytes : Bytes)
    → write_uint_be n v ≡ some bytes
    → (v < 256 ^ n) × (bytes ≡ be_bytes n v)
unfolding write_uint_be
written n v bytes h = elim (Bool-cases (ltb v (256 ^ n))) [
  | inl fits ↦ (ltb→lt _ _ fits, cc (rw fits at h))
  | inr large ↦ cc (rw large at h)
]

module _ (k : HkCursor) (laws : HkCursorLaws k) (crypto : Crypto) where
  -- The layout of a body.
  abbrev pub layout : VaaBody → Bytes
  layout b =
      be_bytes 4 b.timestamp
      ++ (be_bytes 4 b.nonce
          ++ (be_bytes 2 b.emitter_chain
              ++ (b.emitter_address
                  ++ (be_bytes 8 b.sequence ++ (be_bytes 1 b.consistency_level ++ b.payload)))))

  -- The numbers fit their fields.
  abbrev pub Fits : VaaBody → Type 0
  Fits b =
      (b.timestamp < 256 ^ 4)
      × (b.nonce < 256 ^ 4)
      × (b.emitter_chain < 256 ^ 2)
      × (b.consistency_level < 256 ^ 1)

  pub serialized :
      (b : VaaBody) (bytes : Bytes)
      → b.sequence < 256 ^ 8
      → serialize_vaa_body_to_buffer b ≡ some bytes
      → Fits b × (bytes ≡ layout b)
  unfolding serialize_vaa_body_to_buffer concat bigint_to_buffer
  serialized b bytes s h =
      let (x1, e1, h1) = bind-some (write_uint_be 4 b.timestamp) _ h in
      let (x2, e2, h2) = bind-some (write_uint_be 4 b.nonce) _ h1 in
      let (x3, e3, h3) = bind-some (write_uint_be 2 b.emitter_chain) _ h2 in
      let (x4, e4, h4) = bind-some (write_uint_be 1 b.consistency_level) _ h3 in
      let (f1, g1) = written 4 b.timestamp x1 e1 in
      let (f2, g2) = written 4 b.nonce x2 e2 in
      let (f3, g3) = written 2 b.emitter_chain x3 e3 in
      let (f4, g4) = written 1 b.consistency_level x4 e4 in
      (
        (f1, f2, f3, f4),
        cc (h4, g1, g2, g3, g4, append-nil b.payload, natural_to_buffer-be_bytes 8 b.sequence s),
      )

  -- The body of a VAA that the helpers serialize is parsed to the fields it was made from.
  pub parse_body-serialize :
      (c : Cursor) (b : VaaBody) (bytes : Bytes)
      → length b.emitter_address ≡ 32
      → b.sequence < 256 ^ 8
      → serialize_vaa_body_to_buffer b ≡ some bytes
      → remaining c ≡ bytes
      → parse_body k crypto c ≡ ok (body_of b)
  unfolding parse_body
  parse_body-serialize c b bytes len s h at =
      let ((f1, f2, f3, f4), whole) = serialized b bytes s h in
      let r0 = at ∙ whole in
      let r1 = remaining_next 4 c _ _ r0 (length-be_bytes 4 b.timestamp) in
      let c1 = advanced c 4 in
      let r2 = remaining_next 4 c1 _ _ r1 (length-be_bytes 4 b.nonce) in
      let c2 = advanced c1 4 in
      let r3 = remaining_next 2 c2 _ _ r2 (length-be_bytes 2 b.emitter_chain) in
      let c3 = advanced c2 2 in
      let r4 = remaining_next 32 c3 _ _ r3 len in
      let c4 = advanced c3 32 in
      let r5 = remaining_next 8 c4 _ _ r4 (length-be_bytes 8 b.sequence) in
      let c5 = advanced c4 8 in
      let r6 = remaining_next 1 c5 _ _ r5 (length-be_bytes 1 b.consistency_level) in
      let c6 = advanced c5 1 in
      rw (
        read_uint-be_bytes k laws 4 b.timestamp c _ f1 r0,
        read_uint-be_bytes k laws 4 b.nonce c1 _ f2 r1,
        read_uint-be_bytes k laws 2 b.emitter_chain c2 _ f3 r2,
        laws.read_buff_ok 32 c3 b.emitter_address _ r3 len,
        read_uint-be_bytes k laws 8 b.sequence c4 _ s r4,
        read_uint-be_bytes k laws 1 b.consistency_level c5 _ f4 r5,
        laws.read_all c6,
        r6,
      )

-- ===== src/Bridge/Messages.antt =====
-- A price message from unit-tests/pyth/helpers.ts, as contracts/pyth-pnau-decoder-v1.clar reads it.
use stacks_pyth_bridge.Prelude.{
  ℕ, ◌+◌, ◌-◌, ◌*◌, ◌^◌, ◌<◌, ◌≡◌, ap, ◌∙◌, List, [], ◌∷◌, ◌++◌, length, length-append, some, arith,
  ltb, ltb→lt, leb, leb→le, append_assoc, Bool-cases, inl, inr,
}
use stacks_pyth_bridge.Prelude.Bytes.{
  Bytes, be_bytes, be_signed, be_value-be_bytes, length-be_bytes,
}
use stacks_pyth_bridge.Prelude.Int.{ℤ, pos, negsuc}
use stacks_pyth_bridge.Clarity.Outcome.{ok}
use stacks_pyth_bridge.Clarity.Cursor.{Cursor, HkCursor, HkCursorLaws, remaining, advanced}
use stacks_pyth_bridge.Harness.Buffers.{write_uint_be, concat, bigint_to_buffer}
use stacks_pyth_bridge.Harness.Buffers.BigEndian.{
  FitsSigned, bigint_to_buffer-be_signed, length-bigint_to_buffer, natural_to_buffer-be_bytes,
}
use stacks_pyth_bridge.Harness.Pnau.{
  PriceUpdate, write_int32_be, preserialize_price_update_to_buffer,
}
use stacks_pyth_bridge.Bridge.Fields.{read_uint-be_bytes, remaining_next, write_uint_be_fits}
use stacks_pyth_bridge.Bridge.Ptgm.{bind-some}
use stacks_pyth_bridge.Pnau.Updates.{Message, read_message}

-- The values fit their fields.
pub record IsWritable (p : PriceUpdate) : Type 0 where
  pub identifier : length p.price_identifier.bytes ≡ 32
  pub price : FitsSigned 8 p.price
  pub conf : p.conf < 256 ^ 8
  pub publish_time : p.publish_time < 256 ^ 8
  pub prev_publish_time : p.prev_publish_time < 256 ^ 8
  pub ema_price : FitsSigned 8 p.ema_price
  pub ema_conf : p.ema_conf < 256 ^ 8

-- The fields as the contract returns them.
abbrev pub message_of : PriceUpdate → Message
message_of p = record {
  message_type = 0;
  price_identifier = p.price_identifier.bytes;
  price = p.price;
  conf = p.conf;
  expo = p.expo;
  publish_time = p.publish_time;
  prev_publish_time = p.prev_publish_time;
  ema_price = p.ema_price;
  ema_conf = p.ema_conf;
}

-- An exponent that is written is read back.
int32_written :
    (z : ℤ) (bytes : Bytes)
    → write_int32_be z ≡ some bytes
    → (length bytes ≡ 4) × (be_signed 4 bytes ≡ z)
unfolding write_int32_be be_signed
int32_written (pos v) bytes h = elim (Bool-cases (ltb (2 * v) (256 ^ 4))) [
  | inl fits ↦
      let e : be_bytes 4 v ≡ bytes = cc (rw fits at h) in
      let small = ltb→lt _ _ fits in
      rw (← e, be_value-be_bytes 4 v (omega arith)) (length-be_bytes 4 v, ground arith)
  | inr large ↦ cc (rw large at h)
]
int32_written (negsuc n) bytes h = elim (Bool-cases (leb (2 * (n + 1)) (256 ^ 4))) [
  | inl fits ↦
      let v = 256 ^ 4 - 1 - n in
      let e : be_bytes 4 v ≡ bytes = cc (rw fits at h) in
      let small = leb→le _ _ fits in
      rw (← e, be_value-be_bytes 4 v (omega arith)) (length-be_bytes 4 v, ground arith)
  | inr large ↦ cc (rw large at h)
]

-- The first of some chunks.
pub chunk :
    (c : Cursor) (first rest : Bytes) (more : List Bytes)
    → remaining c ≡ concat (first ∷ more) ++ rest
    → remaining c ≡ first ++ (concat more ++ rest)
unfolding concat
chunk c first rest more h = h ∙ append_assoc first (concat more) rest

module _ (k : HkCursor) (laws : HkCursorLaws k) where
  read_int-signed :
      (n : ℕ) (z : ℤ) (c : Cursor) (bytes rest : Bytes)
      → length bytes ≡ n
      → be_signed n bytes ≡ z
      → remaining c ≡ bytes ++ rest
      → k.read_int n c ≡ ok (record { value = z; next = advanced c n })
  read_int-signed n z c bytes rest l s h =
      rw (laws.read_int_lem n c, laws.read_buff_ok n c bytes rest h l, s)

  -- The chunks of a message.
  abbrev layout : PriceUpdate → Bytes → List Bytes
  layout p expo =
      be_bytes 1 0
      ∷ p.price_identifier.bytes
      ∷ bigint_to_buffer p.price 8
      ∷ be_bytes 8 p.conf
      ∷ expo
      ∷ be_bytes 8 p.publish_time
      ∷ be_bytes 8 p.prev_publish_time
      ∷ bigint_to_buffer p.ema_price 8
      ∷ be_bytes 8 p.ema_conf
      ∷ []

  length-layout :
      (p : PriceUpdate) (expo : Bytes)
      → IsWritable p
      → length expo ≡ 4
      → length (concat (layout p expo)) ≡ 85
  unfolding concat
  length-layout p expo w l = omega (
    arith,
    l,
    w.identifier,
    length-be_bytes 1 0,
    length-be_bytes 8 p.conf,
    length-be_bytes 8 p.publish_time,
    length-be_bytes 8 p.prev_publish_time,
    length-be_bytes 8 p.ema_conf,
    length-bigint_to_buffer 8 p.price w.price,
    length-bigint_to_buffer 8 p.ema_price w.ema_price,
    length-append {0},
  )

  preserialized :
      (p : PriceUpdate) (bytes : Bytes)
      → IsWritable p
      → preserialize_price_update_to_buffer p ≡ some bytes
      → (expo : Bytes) × (length expo ≡ 4)
        × (be_signed 4 expo ≡ p.expo)
        × (bytes ≡ concat (layout p expo))
  unfolding preserialize_price_update_to_buffer bigint_to_buffer
  preserialized p bytes w h =
      let one : write_uint_be 1 0 ≡ some (be_bytes 1 0) = write_uint_be_fits 1 0 (omega arith) in
      let (expo, e, g) = bind-some (write_int32_be p.expo) _ (rw one at h) in
      let (l, s) = int32_written p.expo expo e in
      (
        expo,
        l,
        s,
        cc (
          g,
          natural_to_buffer-be_bytes 8 p.conf w.conf,
          natural_to_buffer-be_bytes 8 p.publish_time w.publish_time,
          natural_to_buffer-be_bytes 8 p.prev_publish_time w.prev_publish_time,
          natural_to_buffer-be_bytes 8 p.ema_conf w.ema_conf,
        ),
      )

  -- The message is read back, whatever follows it.
  pub read_message-preserialize :
      (c : Cursor) (p : PriceUpdate) (bytes rest : Bytes)
      → IsWritable p
      → preserialize_price_update_to_buffer p ≡ some bytes
      → remaining c ≡ bytes ++ rest
      → (read_message k c ≡ ok (message_of p)) × (length bytes ≡ 85)
  unfolding read_message
  read_message-preserialize c p bytes rest w h at =
      let (expo, l, s, whole) = preserialized p bytes w h in
      let price = bigint_to_buffer p.price 8 in
      let ema_price = bigint_to_buffer p.ema_price 8 in
      let r0 = chunk c _ rest _ (at ∙ ap (λ (t : Bytes). t ++ rest) whole) in
      let c1 = advanced c 1 in
      let r1 = chunk c1 _ rest _ (remaining_next 1 c _ _ r0 (length-be_bytes 1 0)) in
      let c2 = advanced c1 32 in
      let r2 = chunk c2 _ rest _ (remaining_next 32 c1 _ _ r1 w.identifier) in
      let c3 = advanced c2 8 in
      let r3 =
        chunk c3 _ rest _
          (remaining_next 8 c2 _ _ r2 (length-bigint_to_buffer 8 p.price w.price)) in
      let c4 = advanced c3 8 in
      let r4 = chunk c4 _ rest _ (remaining_next 8 c3 _ _ r3 (length-be_bytes 8 p.conf)) in
      let c5 = advanced c4 4 in
      let r5 = chunk c5 _ rest _ (remaining_next 4 c4 _ _ r4 l) in
      let c6 = advanced c5 8 in
      let r6 = chunk c6 _ rest _ (remaining_next 8 c5 _ _ r5 (length-be_bytes 8 p.publish_time)) in
      let c7 = advanced c6 8 in
      let r7 =
        chunk c7 _ rest _ (remaining_next 8 c6 _ _ r6 (length-be_bytes 8 p.prev_publish_time)) in
      let c8 = advanced c7 8 in
      let r8 =
        chunk c8 _ rest _
          (remaining_next 8 c7 _ _ r7 (length-bigint_to_buffer 8 p.ema_price w.ema_price)) in
      (
        rw (
          read_uint-be_bytes k laws 1 0 c _ (omega arith) r0,
          laws.read_buff_ok 32 c1 p.price_identifier.bytes _ r1 w.identifier,
          read_int-signed 8 p.price c2 price _ (length-bigint_to_buffer 8 p.price w.price)
              (bigint_to_buffer-be_signed 8 p.price w.price) r2,
          read_uint-be_bytes k laws 8 p.conf c3 _ w.conf r3,
          read_int-signed 4 p.expo c4 expo _ l s r4,
          read_uint-be_bytes k laws 8 p.publish_time c5 _ w.publish_time r5,
          read_uint-be_bytes k laws 8 p.prev_publish_time c6 _ w.prev_publish_time r6,
          read_int-signed 8 p.ema_price c7 ema_price _
              (length-bigint_to_buffer 8 p.ema_price w.ema_price)
              (bigint_to_buffer-be_signed 8 p.ema_price w.ema_price) r7,
          read_uint-be_bytes k laws 8 p.ema_conf c8 _ w.ema_conf r8,
        ),
        ap (λ (t : Bytes). length t) whole ∙ length-layout p expo w l,
      )

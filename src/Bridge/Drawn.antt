-- ===== src/Bridge/Drawn.antt =====
-- The price updates that the generator of unit-tests/pyth/helpers.ts draws, as
-- contracts/pyth-pnau-decoder-v1.clar reads them.
use stacks_pyth_bridge.Prelude.{
  ℕ, zero, suc, ◌+◌, ◌*◌, ◌^◌, ◌<◌, ◌≡◌, ◌⊎◌, inl, inr, refl, arith, Option, none, some, length,
  subst, ◌++◌, Bool-cases, ltb, leb, ltb→lt, leb→le,
}
use stacks_pyth_bridge.Prelude.Bytes.{Bytes}
use stacks_pyth_bridge.Prelude.Int.{ℤ, pos, negsuc}
use stacks_pyth_bridge.Clarity.Outcome.{ok}
use stacks_pyth_bridge.Clarity.Cursor.{HkCursor, HkCursorLaws}
use stacks_pyth_bridge.Harness.Buffers.BigEndian.{FitsSigned}
use stacks_pyth_bridge.Harness.Generators.{FastCheck, FastCheckLaws, FitsBits, fixed_number}
use stacks_pyth_bridge.Harness.Generators.Prices.{fixed_int, price_update, IsDrawn}
use stacks_pyth_bridge.Harness.Pnau.{
  PriceUpdate, PriceUpdateOptions, write_int32_be, preserialize_price_update_to_buffer,
}
use stacks_pyth_bridge.Bridge.Fields.{IsMade, write_uint_be_fits}
use stacks_pyth_bridge.Bridge.Generated.{Below, number-Below}
use stacks_pyth_bridge.Bridge.Messages.{IsWritable, message_of, read_message-preserialize}
use stacks_pyth_bridge.Pnau.Updates.{read_message}

abbrev pub IsInt64 : Option ℤ → Type 0
IsInt64 none = Unit
IsInt64 (some z) = FitsBits 64 z

-- The values that are given fit.
pub record FitsUpdate (opts : PriceUpdateOptions) : Type 0 where
  pub price : IsInt64 opts.price
  pub conf : Below (2 ^ 64) opts.conf
  pub ema_price : IsInt64 opts.ema_price
  pub ema_conf : Below (2 ^ 64) opts.ema_conf
  pub prev_publish_time : Below (2 ^ 64) opts.prev_publish_time

int64-FitsSigned : (z : ℤ) → FitsBits 64 z → FitsSigned 8 z
int64-FitsSigned (pos v) h = omega arith
int64-FitsSigned (negsuc m) h = omega arith

-- `writeInt32BE` of an exponent throws exactly if it does not fit.
int32-cases :
    (z : ℤ)
    → ((¬ FitsSigned 4 z) × (write_int32_be z ≡ none))
      ⊎ (FitsSigned 4 z × IsMade (write_int32_be z))
unfolding write_int32_be
int32-cases (pos v) = elim (Bool-cases (ltb (2 * v) (256 ^ 4))) [
  | inl fits ↦ inr (ltb→lt _ _ fits, rw fits (_, refl))
  | inr large ↦ inl (λ h. ground (arith, h), rw large refl)
]
int32-cases (negsuc n) = elim (Bool-cases (leb (2 * (n + 1)) (256 ^ 4))) [
  | inl fits ↦ inr (leb→le _ _ fits, rw fits (_, refl))
  | inr large ↦ inl (λ h. ground (arith, h), rw large refl)
]

serialize-throws :
    (p : PriceUpdate) → write_int32_be p.expo ≡ none → preserialize_price_update_to_buffer p ≡ none
unfolding preserialize_price_update_to_buffer
serialize-throws p e = rw (write_uint_be_fits 1 0 (omega arith), e) refl

serialize-IsMade :
    (p : PriceUpdate)
    → IsMade (write_int32_be p.expo)
    → IsMade (preserialize_price_update_to_buffer p)
unfolding preserialize_price_update_to_buffer
serialize-IsMade p (bytes, e) = rw (write_uint_be_fits 1 0 (omega arith), e) (_, refl)

module _ (fc : FastCheck) (fc_laws : FastCheckLaws fc) where
  int-FitsSigned :
      (z : ℤ) (o : Option ℤ)
      → IsInt64 o
      → fc.Gives (fixed_int fc o (fc.big_int_n 64)) z
      → FitsSigned 8 z
  int-FitsSigned z none h g = int64-FitsSigned z (fc_laws.big_int_n_range 64 z g)
  int-FitsSigned z (some (pos zero)) h g = int64-FitsSigned z (fc_laws.big_int_n_range 64 z g)
  int-FitsSigned z (some (pos (suc n))) h g =
      subst (FitsSigned 8) (fc_laws.constant_value _ z g) (int64-FitsSigned (pos (suc n)) h)
  int-FitsSigned z (some (negsuc n)) h g =
      subst (FitsSigned 8) (fc_laws.constant_value _ z g) (int64-FitsSigned (negsuc n) h)

  word-Below :
      (n : ℕ) (o : Option ℕ)
      → Below (2 ^ 64) o
      → fc.Gives (fixed_number fc o (fc.big_uint_n 64)) n
      → n < 256 ^ 8
  word-Below n o b g =
      let h =
        number-Below fc fc_laws (2 ^ 64) n o (fc.big_uint_n 64) (fc_laws.big_uint_n_range 64) b g in
      omega (arith, h)

  drawn-IsWritable :
      (opts : PriceUpdateOptions) (p : PriceUpdate)
      → FitsUpdate opts
      → IsDrawn fc opts p
      → length p.price_identifier.bytes ≡ 32
      → p.publish_time < 2 ^ 64
      → IsWritable p
  unfolding price_update
  drawn-IsWritable opts p fits d l time = record {
    identifier = l;
    price = int-FitsSigned p.price opts.price fits.price d.price;
    conf = word-Below p.conf opts.conf fits.conf d.conf;
    publish_time = omega arith;
    prev_publish_time =
        word-Below p.prev_publish_time opts.prev_publish_time fits.prev_publish_time
          d.prev_publish_time;
    ema_price = int-FitsSigned p.ema_price opts.ema_price fits.ema_price d.ema_price;
    ema_conf = word-Below p.ema_conf opts.ema_conf fits.ema_conf d.ema_conf;
  }

  -- A price update that the generator draws is either one whose exponent does not fit four bytes of
  -- two's complement, and then its serialization throws, or it is serialized and read back by the
  -- contract with all its fields, whatever follows it. Given: options whose values fit 64 bits, an
  -- identifier of 32 bytes, a publish time that fits 8 bytes, and a random test library and a
  -- cursor contract that meet their laws.
  pub read_message-drawn :
      (k : HkCursor) (laws : HkCursorLaws k) (opts : PriceUpdateOptions) (p : PriceUpdate)
      (rest : Bytes)
      → FitsUpdate opts
      → IsDrawn fc opts p
      → length p.price_identifier.bytes ≡ 32
      → p.publish_time < 2 ^ 64
      → ((¬ FitsSigned 4 p.expo) × (preserialize_price_update_to_buffer p ≡ none))
        ⊎ (FitsSigned 4 p.expo
            × (bytes : Bytes) × (preserialize_price_update_to_buffer p ≡ some bytes)
            × (read_message k (record { bytes = bytes ++ rest; pos = 0 }) ≡ ok (message_of p)))
  read_message-drawn k laws opts p rest fits d l time = elim (int32-cases p.expo) [
    | inl (large, e) ↦ inl (large, serialize-throws p e)
    | inr (small, made) ↦
        let (bytes, e) = serialize-IsMade p made in
        let w = drawn-IsWritable opts p fits d l time in
        inr (
          small,
          bytes,
          e,
          (read_message-preserialize k laws (record { bytes = bytes ++ rest; pos = 0 }) p bytes rest
              w e refl).0,
        )
  ]

-- ===== src/Bridge/Encoded.antt =====
-- The governance messages that unit-tests/pyth/helpers.ts sends are serialized: no value leaves its
-- field.
use stacks_pyth_bridge.Prelude.{
  ◌<◌, ◌≡◌, refl, List, [], ◌∷◌, length, some, none, arith, All, Option,
}
use stacks_pyth_bridge.Prelude.Bytes.{Bytes}
use stacks_pyth_bridge.Harness.Buffers.{◌>>=◌, write_uint_be}
use stacks_pyth_bridge.Harness.Wormhole.{Emitter}
use stacks_pyth_bridge.Harness.Ptgm.{
  StacksTransactions, PtgmUpdateStalePriceThreshold, PtgmVaaPayload, no_options,
  build_ptgm_vaa_payload, serialize_ptgm_vaa_payload_to_buffer, serialize_body,
  serialize_data_source, serialize_data_sources, serialize_prices_data_sources,
}
use stacks_pyth_bridge.Bridge.Fields.{write_uint_be_fits, IsMade, then-IsMade}
use stacks_pyth_bridge.Bridge.Ptgm.{IsEmitter}
use stacks_pyth_bridge.Bridge.Updates.{encode}

pub chained :
    {P R : Type 0} (m : Option P) (f : P → Option Bytes) (s : Bytes → Option Bytes) (u : Bytes → R)
    (payload bytes : Bytes)
    → (m >>= f) ≡ some payload
    → s payload ≡ some bytes
    → (m >>= λ p. f p >>= λ x. s x >>= λ v. some (u v)) ≡ some (u bytes)
chained none f s u payload bytes e g = cc e
chained (some p) f s u payload bytes e g = rw (e, g) refl

pub threshold-IsMade :
    (stacks : StacksTransactions) (update : PtgmUpdateStalePriceThreshold)
    → IsMade (encode stacks (record no_options { update_stale_price_threshold = some update }))
unfolding build_ptgm_vaa_payload serialize_ptgm_vaa_payload_to_buffer serialize_body write_uint_be
threshold-IsMade stacks update = (_, refl)

body_sent :
    (stacks : StacksTransactions) (p : PtgmVaaPayload)
    → p.module_id ≡ 3
    → p.target_chain_id ≡ 50039
    → p.action < 256
    → IsMade (serialize_body stacks p)
    → IsMade (serialize_ptgm_vaa_payload_to_buffer stacks p)
unfolding serialize_ptgm_vaa_payload_to_buffer
body_sent stacks p i c a (body, e) =
    then-IsMade (write_uint_be 1 p.module_id) _ _
      (write_uint_be_fits 1 p.module_id (omega (arith, i)))
      (then-IsMade (write_uint_be 1 p.action) _ _ (write_uint_be_fits 1 p.action (omega arith)) (
        then-IsMade (write_uint_be 2 p.target_chain_id) _ _
          (write_uint_be_fits 2 p.target_chain_id (omega (arith, c)))
          (then-IsMade (serialize_body stacks p) _ body e (_, refl))))

one_source : (s : Emitter) → IsEmitter s → IsMade (serialize_data_source s)
unfolding serialize_data_source
one_source s (m, l) =
    then-IsMade (write_uint_be 2 s.chain) _ _ (write_uint_be_fits 2 s.chain m) (_, refl)

all_sources : (ss : List Emitter) → All IsEmitter ss → IsMade (serialize_data_sources ss)
unfolding serialize_data_sources
all_sources [] a = (_, refl)
all_sources (s ∷ ss) (m, a) =
    let (x, e) = one_source s m in
    let (y, f) = all_sources ss a in
    then-IsMade (serialize_data_source s) _ x e
      (then-IsMade (serialize_data_sources ss) _ y f (_, refl))

prices-IsMade :
    (stacks : StacksTransactions) (ss : List Emitter)
    → All IsEmitter ss
    → length ss < 256
    → IsMade (serialize_prices_data_sources stacks ss)
unfolding serialize_prices_data_sources
prices-IsMade stacks ss a few =
    let (y, f) = all_sources ss a in
    then-IsMade (write_uint_be 1 (length ss)) _ _ (write_uint_be_fits 1 (length ss) (omega arith))
      (then-IsMade (serialize_data_sources ss) _ y f (_, refl))

pub source-IsMade :
    (stacks : StacksTransactions) (s : Emitter)
    → IsEmitter s
    → IsMade (encode stacks (record no_options { update_governance_data_source = some s }))
unfolding build_ptgm_vaa_payload serialize_body
source-IsMade stacks s m = body_sent stacks _ refl refl (omega arith) (one_source s m)

pub sources-IsMade :
    (stacks : StacksTransactions) (ss : List Emitter)
    → All IsEmitter ss
    → length ss < 256
    → IsMade (encode stacks (record no_options { update_prices_data_sources = some ss }))
unfolding build_ptgm_vaa_payload serialize_body
sources-IsMade stacks ss a few =
    body_sent stacks _ refl refl (omega arith) (prices-IsMade stacks ss a few)

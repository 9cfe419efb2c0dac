-- ===== src/Harness/Pnau.antt =====
-- unit-tests/pyth/helpers.ts: price updates, the message that carries their Merkle root (AUWV), and the
-- buffer of updates with their proofs (PNAU).
use stacks_pyth_bridge.Prelude.{
  ℕ, zero, suc, ◌+◌, ◌-◌, ◌*◌, ◌^◌, Bool, false, ◌||◌, Option, none, some, List, [], ◌∷◌, ◌++◌, ltb,
  leb, if◌then◌else◌, length, map, get_elem?,
}
use stacks_pyth_bridge.Prelude.Bytes.{Bytes, be_bytes}
use stacks_pyth_bridge.Prelude.Int.{ℤ, pos, negsuc}
use stacks_pyth_bridge.Harness.Buffers.{◌>>=◌, write_uint_be, concat, bigint_to_buffer}
use stacks_pyth_bridge.Harness.Merkle.{
  Object, is_same, keccak160_hash_leaf, merkle_leaves, compute_merkle_proof,
}
use stacks_pyth_bridge.Harness.Ptgm.{number_or, buffer_or}

abbrev pub pnau_magic_bytes : Bytes
pnau_magic_bytes = 0x50 ∷ 0x4e ∷ 0x41 ∷ 0x55 ∷ []

abbrev pub auwv_magic_bytes : Bytes
auwv_magic_bytes = 0x41 ∷ 0x55 ∷ 0x57 ∷ 0x56 ∷ []

-- The bigints of confidences and times are not negative.
pub record PriceUpdate : Type 0 where
  pub price_identifier : Object
  pub price : ℤ
  pub conf : ℕ
  pub ema_price : ℤ
  pub ema_conf : ℕ
  pub expo : ℤ
  pub publish_time : ℕ
  pub prev_publish_time : ℕ

pub record PriceUpdateOptions : Type 0 where
  pub price : Option ℤ
  pub conf : Option ℕ
  pub ema_price : Option ℤ
  pub ema_conf : Option ℕ
  pub expo : Option ℤ
  pub publish_time : Option ℕ
  pub prev_publish_time : Option ℕ

-- The root is undefined for a batch of no updates.
pub record AuwvVaaPayload : Type 0 where
  pub payload_type : Bytes
  pub update_type : ℕ
  pub merkle_root_slot : ℕ
  pub merkle_root_ring_size : ℕ
  pub merkle_root_hash : Option Bytes

pub record AuwvOptions : Type 0 where
  pub payload_type : Option Bytes
  pub update_type : Option ℕ
  pub merkle_root_slot : Option ℕ
  pub merkle_root_ring_size : Option ℕ

pub record PnauHeader : Type 0 where
  pub magic_bytes : Bytes
  pub version_maj : ℕ
  pub version_min : ℕ
  pub trailing_size : ℕ
  pub proof_type : ℕ

pub record PnauHeaderOptions : Type 0 where
  pub magic_bytes : Option Bytes
  pub version_maj : Option ℕ
  pub version_min : Option ℕ
  pub trailing_size : Option ℕ
  pub proof_type : Option ℕ

pub record PriceUpdateBatch : Type 0 where
  pub decoded : List PriceUpdate
  pub serialized : List Bytes
  pub hashed : List Object
  pub proofs : List (List Object)

pub record PnauBody : Type 0 where
  pub vaa : Bytes
  pub prices_updates : PriceUpdateBatch
  pub prices_updates_to_submit : List Object

-- `value || fallback` on an optional bigint.
abbrev pub int_or : Option ℤ → ℤ → ℤ
int_or none fallback = fallback
int_or (some (pos zero)) fallback = fallback
int_or (some z) fallback = z

-- `date` is the present time in seconds, past the first ten of 1970. An exponent of the options is not
-- used.
unfoldable pub build_price_update : ℕ → Object → PriceUpdateOptions → PriceUpdate
build_price_update date price_identifier opts = record {
  price_identifier = price_identifier;
  price = int_or opts.price (pos 100);
  conf = number_or opts.conf 10;
  ema_price = int_or opts.ema_price (pos 95);
  ema_conf = number_or opts.ema_conf 9;
  expo = negsuc 3;
  publish_time = number_or opts.publish_time date;
  prev_publish_time = number_or opts.prev_publish_time (date - 10);
}

-- `writeInt32BE`: two's complement, and a RangeError outside its range.
unfoldable pub write_int32_be : ℤ → Option Bytes
write_int32_be (pos v) = if ltb (2 * v) (256 ^ 4) then some (be_bytes 4 v) else none
write_int32_be (negsuc n) =
    if leb (2 * (n + 1)) (256 ^ 4) then some (be_bytes 4 (256 ^ 4 - 1 - n)) else none

unfoldable pub preserialize_price_update_to_buffer : PriceUpdate → Option Bytes
unfolding concat write_int32_be
preserialize_price_update_to_buffer price_update = do
  update_type ← write_uint_be 1 0
  expo ← write_int32_be price_update.expo
  some (
      concat (
        update_type
        ∷ price_update.price_identifier.bytes
        ∷ bigint_to_buffer price_update.price 8
        ∷ bigint_to_buffer (pos price_update.conf) 8
        ∷ expo
        ∷ bigint_to_buffer (pos price_update.publish_time) 8
        ∷ bigint_to_buffer (pos price_update.prev_publish_time) 8
        ∷ bigint_to_buffer price_update.ema_price 8
        ∷ bigint_to_buffer (pos price_update.ema_conf) 8
        ∷ []))

abbrev pub bytes_of : List Object → List Bytes
bytes_of objects = map (λ (o : Object). o.bytes) objects

unfoldable pub serialize_price_update_to_buffer : Bytes → List Object → Option Bytes
unfolding concat
serialize_price_update_to_buffer price_update_data proof = do
  message_size ← write_uint_be 2 (length price_update_data)
  proof_size ← write_uint_be 1 (length proof)
  some (message_size ++ (price_update_data ++ (proof_size ++ concat (bytes_of proof))))

-- `Buffer.alloc(4)` with `writeUint16BE`: the two bytes behind stay 0.
unfoldable pub write_ring_size : ℕ → Option Bytes
write_ring_size v = do size ← write_uint_be 2 v; some (size ++ 0 ∷ 0 ∷ [])

unfoldable pub serialize_auwv_vaa_payload_to_buffer : AuwvVaaPayload → Option Bytes
unfolding concat write_ring_size
serialize_auwv_vaa_payload_to_buffer payload = do
  update_type ← write_uint_be 1 payload.update_type
  ring_size ← write_ring_size payload.merkle_root_ring_size
  root ← payload.merkle_root_hash
  some (
      concat (
        payload.payload_type
        ∷ update_type
        ∷ bigint_to_buffer (pos payload.merkle_root_slot) 8
        ∷ ring_size
        ∷ root
        ∷ []))

unfoldable pub build_pnau_header : PnauHeaderOptions → PnauHeader
build_pnau_header opts = record {
  magic_bytes = buffer_or opts.magic_bytes pnau_magic_bytes;
  version_maj = number_or opts.version_maj 1;
  version_min = number_or opts.version_min 0;
  trailing_size = number_or opts.trailing_size 0;
  proof_type = number_or opts.proof_type 0;
}

module _ (keccak_256 : Bytes → Bytes) where
  -- The updates of the specifications, their messages, and the leaves, numbered from `next` on.
  unfoldable pub build_leaves :
      ℕ
      → ℕ
      → List (Object × PriceUpdateOptions)
      → Option (List PriceUpdate × (List Bytes × List Object))
  unfolding build_price_update
  build_leaves date next [] = some ([], ([], []))
  build_leaves date next ((price_identifier, opts) ∷ specs) = do
    let p = build_price_update date price_identifier opts
    s ← preserialize_price_update_to_buffer p
    (decoded, (serialized, hashed)) ← build_leaves date (suc next) specs
    let leaf : Object = record { ref = next; bytes = keccak160_hash_leaf keccak_256 s }
    some (p ∷ decoded, (s ∷ serialized, leaf ∷ hashed))

  -- What one call creates is not seen by the others, so each numbers from behind the leaves.
  unfoldable pub compute_proofs : ℕ → List Object → List Object → List (List Object)
  compute_proofs next hashed [] = []
  compute_proofs next hashed (hash ∷ hashes) =
      compute_merkle_proof keccak_256 next hash hashed ∷ compute_proofs next hashed hashes

  unfoldable pub build_price_update_batch :
      ℕ → ℕ → List (Object × PriceUpdateOptions) → Option PriceUpdateBatch
  unfolding build_leaves compute_proofs
  build_price_update_batch date next specs = do
    (decoded, (serialized, hashed)) ← build_leaves date next specs
    some (record {
      decoded = decoded;
      serialized = serialized;
      hashed = hashed;
      proofs = compute_proofs (next + length hashed) hashed hashed;
    })

  unfoldable pub build_auwv_vaa_payload : PriceUpdateBatch → AuwvOptions → AuwvVaaPayload
  build_auwv_vaa_payload batch opts = record {
    payload_type = buffer_or opts.payload_type auwv_magic_bytes;
    update_type = number_or opts.update_type 0;
    merkle_root_slot = number_or opts.merkle_root_slot 0;
    merkle_root_ring_size = number_or opts.merkle_root_ring_size 0;
    merkle_root_hash =
        get_elem? (merkle_leaves keccak_256 (length batch.hashed) (bytes_of batch.hashed)) 0;
  }

-- `includes`
unfoldable pub includes : List Object → Object → Bool
includes [] x = false
includes (y ∷ ys) x = is_same y x || includes ys x

-- The loop over the updates: those that are submitted, with their proofs.
unfoldable pub serialize_updates :
    List Object → List PriceUpdate → List Bytes → List (List Object) → Option Bytes
unfolding includes serialize_price_update_to_buffer
serialize_updates to_submit (p ∷ decoded) (s ∷ serialized) (proof ∷ proofs) = do
  first ←
      if includes to_submit p.price_identifier
      then serialize_price_update_to_buffer s proof
      else some []
  rest ← serialize_updates to_submit decoded serialized proofs
  some (first ++ rest)
serialize_updates to_submit _ _ _ = some []

unfoldable pub serialize_pnau_to_buffer : PnauHeader → PnauBody → Option Bytes
unfolding concat serialize_updates
serialize_pnau_to_buffer header body = do
  version_maj ← write_uint_be 1 header.version_maj
  version_min ← write_uint_be 1 header.version_min
  trailing_size ← write_uint_be 1 header.trailing_size
  proof_type ← write_uint_be 1 header.proof_type
  vaa_size ← write_uint_be 2 (length body.vaa)
  num_updates ← write_uint_be 1 (length body.prices_updates_to_submit)
  updates ←
      serialize_updates body.prices_updates_to_submit body.prices_updates.decoded
        body.prices_updates.serialized body.prices_updates.proofs
  some (
      concat (
        header.magic_bytes ∷ version_maj ∷ version_min ∷ trailing_size ∷ proof_type ∷ vaa_size
        ∷ body.vaa ∷ num_updates ∷ updates ∷ []))

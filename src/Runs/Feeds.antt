-- ===== src/Runs/Feeds.antt =====
-- Runs of a batch of two price updates, of which the second is submitted.
use stacks_pyth_bridge.Prelude.{
  ℕ, ◌+◌, ◌*◌, ◌^◌, ◌≡◌, refl, some, none, true, List, [], ◌∷◌, ◌++◌, arith, take, length, All, ◌≤◌,
  map,
}
use stacks_pyth_bridge.Prelude.Bytes.{Bytes, bytes_eq, be_bytes, length-be_bytes, be_bytes-IsByte}
use stacks_pyth_bridge.Prelude.Int.{pos, negsuc}
use stacks_pyth_bridge.Clarity.Outcome.{ok, with_buff}
use stacks_pyth_bridge.Clarity.Cursor.{flat, flat_laws}
use stacks_pyth_bridge.Clarity.Types.{WormholeCore, data_source_eq}
use stacks_pyth_bridge.Governance.{Governance}
use stacks_pyth_bridge.Harness.Values.{serialize_price_update_to_clarity_value}
use stacks_pyth_bridge.Harness.Buffers.{concat, write_uint_be, bigint_to_buffer, buffer_to_bigint}
use stacks_pyth_bridge.Harness.Merkle.{
  Object, capture, keccak160_hash_nodes, keccak160_hash_leaf, hash_level, merkle_leaves,
  proof_level, proof_loop, compute_merkle_proof,
}
use stacks_pyth_bridge.Harness.Merkle.Proof.{contents, climb}
use stacks_pyth_bridge.Harness.Merkle.Loops.{merkle_loops-end}
use stacks_pyth_bridge.Harness.Merkle.Root.{
  IsHash, IsNode, hash_leaf-IsNode, compute_merkle_proof-climb,
}
use stacks_pyth_bridge.Harness.Pnau.{
  PriceUpdate, PriceUpdateOptions, AuwvOptions, PriceUpdateBatch, PnauHeader, build_price_update,
  write_int32_be, preserialize_price_update_to_buffer, serialize_price_update_to_buffer,
  write_ring_size, build_leaves, compute_proofs, build_price_update_batch, build_auwv_vaa_payload,
  serialize_auwv_vaa_payload_to_buffer, includes, serialize_updates, serialize_pnau_to_buffer,
}
use stacks_pyth_bridge.Bridge.Feeds.{IsRootMessage, decode_pnau_price_update-serialize}
use stacks_pyth_bridge.Pnau.{is_authorized, decode_pnau_price_update}
use stacks_pyth_bridge.Runs.Governance.{sample_state, sample_vaa}
use stacks_pyth_bridge.Pnau.Updates.{HkMerkle}
use stacks_pyth_bridge.Bridge.Pnau.{HkMerkleLaws, selected}
use stacks_pyth_bridge.Bridge.Messages.{IsWritable}
use stacks_pyth_bridge.Bridge.Batch.{requested}

-- A hash of 32 bytes.
abbrev mix : ℕ → Bytes → ℕ
mix acc [] = acc
mix acc (b ∷ bs) = mix (acc * 31 + b + 1) bs

abbrev pub toy_keccak : Bytes → Bytes
toy_keccak b = be_bytes 32 (mix 7 b * 256 ^ 12)

toy_IsHash : IsHash toy_keccak
toy_IsHash b = (length-be_bytes 32 (mix 7 b * 256 ^ 12), be_bytes-IsByte 32 (mix 7 b * 256 ^ 12))

abbrev pub toy_merkle : HkMerkle
toy_merkle = record {
  check_proof = λ root leaf proof.
      bytes_eq root (climb toy_keccak (keccak160_hash_leaf toy_keccak leaf) proof);
}

toy_laws : HkMerkleLaws toy_keccak toy_merkle
toy_laws = record { check_proof_lem = λ root leaf proof. refl }

abbrev pub message_of_id : ℕ → Bytes
message_of_id id =
    0
    ∷ (be_bytes 32 id
        ++ (be_bytes 8 100
            ++ (be_bytes 8 10
                ++ (be_bytes 4 0xfffffffc
                    ++ (be_bytes 8 1000 ++ (be_bytes 8 990 ++ (be_bytes 8 95 ++ be_bytes 8 9)))))))

abbrev pub leaf_of : ℕ → Bytes
leaf_of id = take 20 (toy_keccak (0 ∷ message_of_id id))

abbrev pub root_hash : Bytes
root_hash = take 20 (toy_keccak (1 ∷ (leaf_of 2 ++ leaf_of 1)))

abbrev leaves : List Object
leaves = record { ref = 10; bytes = leaf_of 1 } ∷ record { ref = 11; bytes = leaf_of 2 } ∷ []

leaf_IsNode : (id : ℕ) → IsNode (leaf_of id)
unfolding keccak160_hash_leaf
leaf_IsNode id = hash_leaf-IsNode toy_keccak toy_IsHash (message_of_id id)

compute_merkle_proof-climb_example :
    (climb toy_keccak (leaf_of 2) (
          contents
            (compute_merkle_proof toy_keccak 12 (record { ref = 11; bytes = leaf_of 2 }) leaves))
        ∷ []
      ≡ merkle_leaves toy_keccak 2 (contents leaves))
    × (length (compute_merkle_proof toy_keccak 12 (record { ref = 11; bytes = leaf_of 2 }) leaves)
        ≤ 2)
    × All IsNode (
        contents
          (compute_merkle_proof toy_keccak 12 (record { ref = 11; bytes = leaf_of 2 }) leaves))
compute_merkle_proof-climb_example =
    compute_merkle_proof-climb toy_keccak toy_IsHash 10 12 1 leaves
      (record { ref = 11; bytes = leaf_of 2 }) (refl, (refl, tt)) (omega arith)
      (leaf_IsNode 1, (leaf_IsNode 2, tt)) refl

merkle_loops-end_example :
    (length (merkle_leaves toy_keccak 2 (contents leaves)) ≤ 1)
    × (merkle_leaves toy_keccak 2 (contents leaves) ≡ merkle_leaves toy_keccak 9 (contents leaves))
    × (compute_merkle_proof toy_keccak 12 (record { ref = 11; bytes = leaf_of 2 }) leaves
        ≡ proof_loop toy_keccak 9 12 leaves (record { ref = 11; bytes = leaf_of 2 }) [])
merkle_loops-end_example =
    merkle_loops-end toy_keccak 9 12 (contents leaves) leaves
      (record { ref = 11; bytes = leaf_of 2 }) (omega arith) (omega arith)

abbrev no_options : PriceUpdateOptions
no_options = record {
  price = none;
  conf = none;
  ema_price = none;
  ema_conf = none;
  expo = none;
  publish_time = none;
  prev_publish_time = none;
}

abbrev pub id_of : ℕ → Object
id_of id = record { ref = id; bytes = be_bytes 32 id }

abbrev specs : List (Object × PriceUpdateOptions)
specs = (id_of 1, no_options) ∷ (id_of 2, no_options) ∷ []

abbrev update_of : ℕ → PriceUpdate
update_of id = record {
  price_identifier = id_of id;
  price = pos 100;
  conf = 10;
  ema_price = pos 95;
  ema_conf = 9;
  expo = negsuc 3;
  publish_time = 1000;
  prev_publish_time = 990;
}

abbrev batch : PriceUpdateBatch
batch = record {
  decoded = update_of 1 ∷ update_of 2 ∷ [];
  serialized = message_of_id 1 ∷ message_of_id 2 ∷ [];
  hashed = leaves;
  proofs =
      (record { ref = 11; bytes = leaf_of 2 } ∷ [])
      ∷ (record { ref = 10; bytes = leaf_of 1 } ∷ [])
      ∷ [];
}

batch_run : build_price_update_batch toy_keccak 1000 10 specs ≡ some batch
unfolding build_price_update_batch build_leaves compute_proofs compute_merkle_proof proof_loop
    proof_level capture preserialize_price_update_to_buffer write_int32_be write_uint_be
    bigint_to_buffer concat be_bytes build_price_update keccak160_hash_leaf
batch_run = refl

abbrev auwv_options : AuwvOptions
auwv_options = record {
  payload_type = none;
  update_type = none;
  merkle_root_slot = some 5;
  merkle_root_ring_size = some 3;
}

abbrev pub root_payload : Bytes
root_payload =
    0x41 ∷ 0x55 ∷ 0x57 ∷ 0x56 ∷ 0 ∷ 0 ∷ 0 ∷ 0 ∷ 0 ∷ 0 ∷ 0 ∷ 0 ∷ 5 ∷ 0 ∷ 3 ∷ 0 ∷ 0 ∷ root_hash

payload_run :
    serialize_auwv_vaa_payload_to_buffer (build_auwv_vaa_payload toy_keccak batch auwv_options)
    ≡ some root_payload
unfolding serialize_auwv_vaa_payload_to_buffer build_auwv_vaa_payload write_ring_size write_uint_be
    bigint_to_buffer concat be_bytes merkle_leaves hash_level keccak160_hash_nodes buffer_to_bigint
payload_run = refl

abbrev pub standard_header : PnauHeader
standard_header = record {
  magic_bytes = 0x50 ∷ 0x4e ∷ 0x41 ∷ 0x55 ∷ [];
  version_maj = 1;
  version_min = 0;
  trailing_size = 0;
  proof_type = 0;
}

abbrev pub pnau_of : Bytes → Bytes
pnau_of vaa =
    0x50
    ∷ 0x4e
    ∷ 0x41
    ∷ 0x55
    ∷ 1
    ∷ 0
    ∷ 0
    ∷ 0
    ∷ (be_bytes 2 (length vaa) ++ (vaa ++ 1 ∷ 0 ∷ 85 ∷ (message_of_id 2 ++ 1 ∷ leaf_of 1)))

pnau_run :
    serialize_pnau_to_buffer standard_header
      (record { vaa = 7 ∷ []; prices_updates = batch; prices_updates_to_submit = id_of 2 ∷ [] })
    ≡ some (pnau_of (7 ∷ []))
unfolding serialize_pnau_to_buffer serialize_updates serialize_price_update_to_buffer includes
    write_uint_be concat be_bytes
pnau_run = refl

abbrev pub feeds_state : Governance
feeds_state = record sample_state {
  prices_data_sources = record { emitter_chain = 1; emitter_address = 9 ∷ [] } ∷ [];
}

abbrev root_core : WormholeCore
root_core = record { address = 4; parse_and_verify_vaa = λ _. ok (sample_vaa root_payload) }

update-IsWritable : (id : ℕ) → IsWritable (update_of id)
update-IsWritable id = record {
  identifier = length-be_bytes 32 id;
  price = omega arith;
  conf = omega arith;
  publish_time = omega arith;
  prev_publish_time = omega arith;
  ema_price = omega arith;
  ema_conf = omega arith;
}

specs-IsWritable : All IsWritable (requested 1000 specs)
unfolding build_price_update
specs-IsWritable = (update-IsWritable 1, (update-IsWritable 2, tt))

root_IsRootMessage : IsRootMessage (build_auwv_vaa_payload toy_keccak batch auwv_options)
unfolding build_auwv_vaa_payload
root_IsRootMessage = record { kind = refl; update = refl; slot = omega arith }

authorized :
    is_authorized
      (record { emitter_chain = 1; emitter_address = 9 ∷ [] })
      feeds_state.prices_data_sources
    ≡ true
unfolding is_authorized data_source_eq bytes_eq
authorized = refl

one_selected : length (selected (id_of 2 ∷ []) (requested 1000 specs)) ≡ 1
unfolding selected includes build_price_update
one_selected = refl

pnau_fits : length (pnau_of (7 ∷ [])) ≤ 8192
unfolding be_bytes
pnau_fits = omega arith

decode_pnau_price_update-serialize_example :
    with_buff 8192
      (λ t. decode_pnau_price_update flat toy_merkle feeds_state t root_core)
      (pnau_of (7 ∷ []))
    ≡ ok (
        map serialize_price_update_to_clarity_value
          (selected (id_of 2 ∷ []) (requested 1000 specs)))
decode_pnau_price_update-serialize_example =
    decode_pnau_price_update-serialize flat flat_laws toy_keccak toy_IsHash toy_merkle toy_laws 1000
      10 specs batch auwv_options root_payload standard_header (id_of 2 ∷ []) feeds_state root_core
      (sample_vaa root_payload) (7 ∷ []) (pnau_of (7 ∷ [])) specs-IsWritable (omega arith) batch_run
      root_IsRootMessage payload_run refl refl authorized (refl, refl, refl, refl, refl)
      one_selected (omega arith) pnau_run pnau_fits

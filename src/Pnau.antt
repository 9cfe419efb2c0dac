-- ===== src/Pnau.antt =====
-- contracts/pyth-pnau-decoder-v1.clar: the decoder of price updates (PNAU), whose prices are leaves of
-- a Merkle tree with its root in a VAA.
pub mod Updates
pub mod Cut
pub mod Leaf
pub mod Sound
use stacks_pyth_bridge.Prelude.{
  ℕ, ◌+◌, ◌*◌, Bool, true, false, ◌&&◌, ◌||◌, ◌==◌, ltb, leb, if◌then◌else◌, List, [], ◌∷◌, ◌++◌,
  length, none, some, map,
}
use stacks_pyth_bridge.Prelude.Bytes.{Bytes, bytes_eq}
use stacks_pyth_bridge.Clarity.Outcome.{Outcome, ok, err, panic, ◌>>=◌, ◌>>◌, asserts, unwrap}
use stacks_pyth_bridge.Clarity.Cursor.{Cursor, Reading, HkCursor}
use stacks_pyth_bridge.Clarity.Types.{Principal, DataSource, WormholeCore, data_source_eq}
use stacks_pyth_bridge.Governance.{Governance, check_execution_flow}
use stacks_pyth_bridge.Store.{PriceEntry}
use stacks_pyth_bridge.Oracle.{Decoder}
use stacks_pyth_bridge.Pnau.Updates.{
  PriceInfo, HkMerkle, parse_and_verify_prices_updates, err_magic_bytes, err_proof_type,
}

abbrev pub pnau_magic : Bytes
pnau_magic = 0x50 ∷ 0x4e ∷ 0x41 ∷ 0x55 ∷ []

abbrev pub auwv_magic : Bytes
auwv_magic = 0x41 ∷ 0x55 ∷ 0x57 ∷ 0x56 ∷ []

abbrev pub pythnet_major_version : ℕ
pythnet_major_version = 1

abbrev pub pythnet_minor_version : ℕ
pythnet_minor_version = 0

abbrev pub err_version_maj : ℕ
err_version_maj = 2002

abbrev pub err_version_min : ℕ
err_version_min = 2003

abbrev pub err_header_trailing_size : ℕ
err_header_trailing_size = 2004

abbrev pub err_invalid_auwv : ℕ
err_invalid_auwv = 2007

abbrev pub err_unauthorized_price_update : ℕ
err_unauthorized_price_update = 2401

pub record MerkleRootData : Type 0 where
  pub merkle_root_slot : ℕ
  pub merkle_root_ring_size : ℕ
  pub merkle_root_hash : Bytes
  pub payload_type : Bytes

pub record PnauHeader : Type 0 where
  pub magic : Bytes
  pub version_maj : ℕ
  pub version_min : ℕ
  pub header_trailing_size : ℕ
  pub proof_type : ℕ

-- `index-of?` gives a value.
unfoldable pub is_authorized : DataSource → List DataSource → Bool
unfolding data_source_eq
is_authorized source [] = false
is_authorized source (s ∷ sources) = data_source_eq s source || is_authorized source sources

unfoldable pub cast_decoded_price : PriceInfo → PriceEntry
cast_decoded_price entry = record {
  price_identifier = entry.price_identifier;
  price = entry.price;
  conf = entry.conf;
  expo = entry.expo;
  ema_price = entry.ema_price;
  ema_conf = entry.ema_conf;
  publish_time = entry.publish_time;
  prev_publish_time = entry.prev_publish_time;
}

module _ (k : HkCursor) where
  unfoldable pub parse_merkle_root_data_from_vaa_payload : Bytes → Outcome (Reading MerkleRootData)
  parse_merkle_root_data_from_vaa_payload payload_vaa_bytes = do
    cursor_payload_type ←
        unwrap (k.read_buff 4 (record { bytes = payload_vaa_bytes; pos = 0 })) err_invalid_auwv
    cursor_wh_update_type ← unwrap (k.read_uint 1 cursor_payload_type.next) err_invalid_auwv
    cursor_merkle_root_slot ← unwrap (k.read_uint 8 cursor_wh_update_type.next) err_invalid_auwv
    cursor_merkle_root_ring_size ←
        unwrap (k.read_uint 4 cursor_merkle_root_slot.next) err_invalid_auwv
    cursor_merkle_root_hash ←
        unwrap (k.read_buff 20 cursor_merkle_root_ring_size.next) err_invalid_auwv
    asserts (bytes_eq cursor_payload_type.value auwv_magic) err_magic_bytes
    asserts (cursor_wh_update_type.value == 0) err_proof_type
    ok (record {
      value = record {
        merkle_root_slot = cursor_merkle_root_slot.value;
        merkle_root_ring_size = cursor_merkle_root_ring_size.value;
        merkle_root_hash = cursor_merkle_root_hash.value;
        payload_type = cursor_payload_type.value;
      };
      next = cursor_merkle_root_hash.next;
    })

  -- The trailing bytes of a header are skipped.
  unfoldable pub parse_pnau_header : Bytes → Outcome (Reading PnauHeader)
  parse_pnau_header pf_bytes = do
    cursor_magic ← unwrap (k.read_buff 4 (record { bytes = pf_bytes; pos = 0 })) err_magic_bytes
    cursor_version_maj ← unwrap (k.read_uint 1 cursor_magic.next) err_version_maj
    cursor_version_min ← unwrap (k.read_uint 1 cursor_version_maj.next) err_version_min
    cursor_header_trailing_size ←
        unwrap (k.read_uint 1 cursor_version_min.next) err_header_trailing_size
    cursor_proof_type ←
        unwrap
          (k.read_uint 1 (record {
            bytes = pf_bytes;
            pos = cursor_header_trailing_size.next.pos + cursor_header_trailing_size.value;
          }))
          err_proof_type
    asserts (bytes_eq cursor_magic.value pnau_magic) err_magic_bytes
    asserts (cursor_version_maj.value == pythnet_major_version) err_version_maj
    asserts (cursor_version_min.value == pythnet_minor_version) err_version_min
    asserts (cursor_proof_type.value == 0) err_proof_type
    ok (record {
      value = record {
        magic = cursor_magic.value;
        version_maj = cursor_version_maj.value;
        version_min = cursor_version_min.value;
        header_trailing_size = cursor_header_trailing_size.value;
        proof_type = cursor_proof_type.value;
      };
      next = cursor_proof_type.next;
    })

  module _ (merkle : HkMerkle) where
    unfoldable pub decode_pnau_price_update :
        Governance → Bytes → WormholeCore → Outcome (List PriceEntry)
    unfolding parse_pnau_header parse_merkle_root_data_from_vaa_payload is_authorized
        cast_decoded_price
    decode_pnau_price_update g pnau_bytes core = do
      cursor_pnau_header ← parse_pnau_header pnau_bytes
      cursor_pnau_vaa_size ← k.read_uint 2 cursor_pnau_header.next
      cursor_pnau_vaa ←
          k.read_buff_8192_max cursor_pnau_vaa_size.next (some cursor_pnau_vaa_size.value)
      vaa ← core.parse_and_verify_vaa cursor_pnau_vaa.value
      cursor_merkle_root_data ← parse_merkle_root_data_from_vaa_payload vaa.payload
      decoded_prices_updates ←
          parse_and_verify_prices_updates k merkle (k.slice cursor_pnau_vaa.next none)
            cursor_merkle_root_data.value.merkle_root_hash
      let prices_updates = map cast_decoded_price decoded_prices_updates
      asserts
          (is_authorized
            (record { emitter_chain = vaa.emitter_chain; emitter_address = vaa.emitter_address })
            g.prices_data_sources)
          err_unauthorized_price_update
      ok prices_updates

    -- `self` is this contract.
    unfoldable pub decode_and_verify_price_feeds :
        Principal → Governance → Principal → Bytes → WormholeCore → Outcome (List PriceEntry)
    unfolding decode_pnau_price_update
    decode_and_verify_price_feeds self g contract_caller pnau_bytes core = do
      _ ← check_execution_flow g self contract_caller none
      decode_pnau_price_update g pnau_bytes core

    -- pyth-pnau-decoder-v1 as a reference.
    abbrev pub pnau_decoder : Principal → Governance → Decoder
    pnau_decoder self g = record {
      address = self;
      decode_and_verify_price_feeds =
          λ caller bytes core. decode_and_verify_price_feeds self g caller bytes core;
    }

-- ===== src/Pnau/Updates.antt =====
-- The price updates of contracts/pyth-pnau-decoder-v1.clar: a fold over the bytes reads each update
-- with its proof, and another checks the proofs.
use stacks_pyth_bridge.Prelude.{
  ℕ, ◌+◌, ◌*◌, Bool, true, ◌&&◌, ◌==◌, leb, if◌then◌else◌, List, [], ◌∷◌, length, none, some,
}
use stacks_pyth_bridge.Prelude.Bytes.{Bytes}
use stacks_pyth_bridge.Prelude.Int.{ℤ}
use stacks_pyth_bridge.Clarity.Outcome.{Outcome, ok, panic, ◌>>=◌, ◌>>◌, asserts, unwrap_panic}
use stacks_pyth_bridge.Clarity.Cursor.{Cursor, HkCursor}
use stacks_pyth_bridge.Clarity.Walk.{walk}

abbrev pub err_magic_bytes : ℕ
err_magic_bytes = 2001

abbrev pub err_proof_type : ℕ
err_proof_type = 2005

abbrev pub err_update_type : ℕ
err_update_type = 2006

abbrev pub merkle_root_mismatch : ℕ
merkle_root_mismatch = 2008

-- hk-merkle-tree-keccak160-v1, a contract that is not part of the repository: `check-proof` of a root,
-- the bytes of a leaf and a proof.
pub record HkMerkle : Type 0 where
  pub check_proof : Bytes → Bytes → List Bytes → Bool

pub record PriceInfo : Type 0 where
  pub price_identifier : Bytes
  pub price : ℤ
  pub conf : ℕ
  pub expo : ℤ
  pub publish_time : ℕ
  pub prev_publish_time : ℕ
  pub ema_price : ℤ
  pub ema_conf : ℕ
  pub proof : List Bytes
  pub leaf_bytes : Bytes

-- The bytes of a leaf that parse-price-info-and-proof reads as a price.
pub record Message : Type 0 where
  pub message_type : ℕ
  pub price_identifier : Bytes
  pub price : ℤ
  pub conf : ℕ
  pub expo : ℤ
  pub publish_time : ℕ
  pub prev_publish_time : ℕ
  pub ema_price : ℤ
  pub ema_conf : ℕ

abbrev pub price_info : Message → List Bytes → Bytes → PriceInfo
price_info m proof leaf_bytes = record {
  price_identifier = m.price_identifier;
  price = m.price;
  conf = m.conf;
  expo = m.expo;
  publish_time = m.publish_time;
  prev_publish_time = m.prev_publish_time;
  ema_price = m.ema_price;
  ema_conf = m.ema_conf;
  proof = proof;
  leaf_bytes = leaf_bytes;
}

-- `(unwrap-panic (as-max-len? b n))`
abbrev pub max_len_or_panic : ℕ → Bytes → Outcome Bytes
max_len_or_panic n b = if leb (length b) n then ok b else panic

module _ (k : HkCursor) where
  -- The hash at an index, and the index of the next.
  unfoldable pub read_hash : Bytes → ℕ → Outcome (Bytes × ℕ)
  read_hash bytes index = do
    hash ← unwrap_panic (k.read_buff 20 (k.new bytes (some index)))
    ok (hash.value, index + 20)

  unfoldable pub parse_proof : Bytes → ℕ → Outcome (List Bytes)
  unfolding read_hash
  parse_proof proof_bytes limit = do
    w ←
        walk (read_hash proof_bytes) 128 proof_bytes
          (record { index = 0; next_update_index = 0; result = []; limit = limit })
    ok w.result

  unfoldable pub read_message : Cursor → Outcome Message
  read_message next = do
    cursor_message_type ← unwrap_panic (k.read_uint 1 next)
    cursor_price_identifier ← unwrap_panic (k.read_buff 32 cursor_message_type.next)
    cursor_price ← unwrap_panic (k.read_int 8 cursor_price_identifier.next)
    cursor_conf ← unwrap_panic (k.read_uint 8 cursor_price.next)
    cursor_expo ← unwrap_panic (k.read_int 4 cursor_conf.next)
    cursor_publish_time ← unwrap_panic (k.read_uint 8 cursor_expo.next)
    cursor_prev_publish_time ← unwrap_panic (k.read_uint 8 cursor_publish_time.next)
    cursor_ema_price ← unwrap_panic (k.read_int 8 cursor_prev_publish_time.next)
    cursor_ema_conf ← unwrap_panic (k.read_uint 8 cursor_ema_price.next)
    ok (record {
      message_type = cursor_message_type.value;
      price_identifier = cursor_price_identifier.value;
      price = cursor_price.value;
      conf = cursor_conf.value;
      expo = cursor_expo.value;
      publish_time = cursor_publish_time.value;
      prev_publish_time = cursor_prev_publish_time.value;
      ema_price = cursor_ema_price.value;
      ema_conf = cursor_ema_conf.value;
    })

  -- The update at an index, and the index of the next: behind the size, the message, the size of the
  -- proof and its hashes.
  unfoldable pub read_price_info : Bytes → ℕ → Outcome (PriceInfo × ℕ)
  unfolding read_message parse_proof
  read_price_info bytes index = do
    cursor_message_size ← unwrap_panic (k.read_uint 2 (k.new bytes (some index)))
    message ← read_message cursor_message_size.next
    cursor_proof_size ←
        unwrap_panic (k.read_uint 1 (k.advance cursor_message_size.next cursor_message_size.value))
    let proof_bytes = k.slice cursor_proof_size.next (some (20 * cursor_proof_size.value))
    let leaf_bytes = k.slice cursor_message_size.next (some cursor_message_size.value)
    proof ← parse_proof proof_bytes cursor_proof_size.value
    unwrap_panic (asserts (message.message_type == 0) err_update_type)
    leaf ← max_len_or_panic 255 leaf_bytes
    ok (
      price_info message proof leaf,
      index + 2 + cursor_message_size.value + 1 + cursor_proof_size.value * 20,
    )

  module _ (merkle : HkMerkle) where
    -- The fold of check-merkle-proof.
    unfoldable pub check_merkle_proofs : Bytes → List PriceInfo → Bool → Bool
    check_merkle_proofs merkle_root_hash [] result = result
    check_merkle_proofs merkle_root_hash (entry ∷ entries) result =
        check_merkle_proofs merkle_root_hash entries
          (result && merkle.check_proof merkle_root_hash entry.leaf_bytes entry.proof)

    unfoldable pub parse_and_verify_prices_updates : Bytes → Bytes → Outcome (List PriceInfo)
    unfolding read_price_info check_merkle_proofs
    parse_and_verify_prices_updates bytes merkle_root_hash = do
      cursor_num_updates ← k.read_uint 1 (record { bytes = bytes; pos = 0 })
      let updates_bytes = k.slice cursor_num_updates.next none
      w ← walk (read_price_info updates_bytes) 64 updates_bytes (record {
        index = 0;
        next_update_index = 0;
        result = [];
        limit = cursor_num_updates.value;
      })
      asserts (check_merkle_proofs merkle_root_hash w.result true) merkle_root_mismatch
      ok w.result

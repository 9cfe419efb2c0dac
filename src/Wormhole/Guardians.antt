-- ===== src/Wormhole/Guardians.antt =====
-- contracts/wormhole/wormhole-core-v2.clar: the update of the set of guardians.
use stacks_pyth_bridge.Prelude.{
  ℕ, ◌+◌, ◌-◌, ◌*◌, ◌%◌, Bool, true, Option, none, some, List, [], ◌∷◌, ◌==◌, ltb, leb,
  if◌then◌else◌, length, get_elem?, take, drop,
}
use stacks_pyth_bridge.Prelude.Bytes.{Bytes, bytes_eq, be_bytes}
use stacks_pyth_bridge.Clarity.Outcome.{
  Outcome, ok, ◌>>=◌, ◌>>◌, asserts, unwrap, unwrap_panic, some_or_panic, append_max,
}
use stacks_pyth_bridge.Clarity.Cursor.{HkCursor}
use stacks_pyth_bridge.Clarity.Types.{Vaa}
use stacks_pyth_bridge.Wormhole.{Crypto, PublicKey, Wormhole, parse_vaa, parse_and_verify_vaa}

abbrev pub gsu_emitting_address : Bytes
gsu_emitting_address = be_bytes 32 4

abbrev pub gsu_emitting_chain : ℕ
gsu_emitting_chain = 1

abbrev pub err_gsu_uncompressed_public_keys : ℕ
err_gsu_uncompressed_public_keys = 1207

abbrev pub err_gsu_check_index : ℕ
err_gsu_check_index = 1304

abbrev pub err_gsu_check_emitter : ℕ
err_gsu_check_emitter = 1305

-- `(slice? buffer from to)`
abbrev pub slice : Bytes → ℕ → ℕ → Option Bytes
slice b from to = if leb to (length b) then some (take (to - from) (drop from b)) else none

unfoldable pub compress_public_key : Bytes → Outcome Bytes
compress_public_key uncompressed_public_key =
    if bytes_eq [] uncompressed_public_key then ok [] else (do
      x_coordinate ← some_or_panic (slice uncompressed_public_key 0 32)
      y_coordinate_parity ← some_or_panic (get_elem? uncompressed_public_key 63)
      ok ((if y_coordinate_parity % 2 == 0 then 0x02 else 0x03) ∷ x_coordinate))

unfoldable pub is_eth_address_matching_public_key : Crypto → Bytes → Bytes → Outcome Bool
is_eth_address_matching_public_key crypto uncompressed_public_key eth_address = do
  address ← some_or_panic (slice (crypto.keccak256 uncompressed_public_key) 12 32)
  ok (bytes_eq address eth_address)

abbrev pub no_key : PublicKey
no_key = record { compressed_public_key = []; uncompressed_public_key = [] }

-- The entry of one key and its address.
unfoldable pub consolidated_entry : Crypto → Bytes → Bytes → Outcome PublicKey
unfolding compress_public_key is_eth_address_matching_public_key
consolidated_entry crypto uncompressed_public_key eth_address = do
  compressed_public_key ← compress_public_key uncompressed_public_key
  matching ← is_eth_address_matching_public_key crypto uncompressed_public_key eth_address
  ok (
      if matching
      then record {
        compressed_public_key = compressed_public_key;
        uncompressed_public_key = uncompressed_public_key;
      }
      else no_key)

-- The fold of check-and-consolidate-public-keys, which takes the addresses one by one.
unfoldable pub consolidate_public_keys :
    Crypto → List Bytes → List Bytes → ℕ → List PublicKey → Outcome (List PublicKey)
unfolding append_max consolidated_entry
consolidate_public_keys crypto eth_addresses [] cursor result = ok result
consolidate_public_keys crypto eth_addresses (key ∷ keys) cursor result = do
  eth_address ← some_or_panic (get_elem? eth_addresses cursor)
  entry ← consolidated_entry crypto key eth_address
  result' ← append_max 19 result entry
  consolidate_public_keys crypto eth_addresses keys (cursor + 1) result'

-- The fold of is-guardian-cue over the bytes.
unfoldable pub guardian_cues : Bytes → ℕ → List ℕ → Outcome (List ℕ)
unfolding append_max
guardian_cues [] cursor result = ok result
guardian_cues (byte ∷ bytes) cursor result = do
  result' ← if cursor % 20 == 0 then append_max 19 result cursor else ok result
  guardian_cues bytes (cursor + 1) result'

pub record GuardiansSet : Type 0 where
  pub guardians_eth_addresses : List Bytes
  pub module_id : Bytes
  pub action : ℕ
  pub chain : ℕ
  pub new_index : ℕ

module _ (k : HkCursor) where
  -- The fold of parse-guardian over the cues.
  unfoldable pub parse_guardians : Bytes → List ℕ → List Bytes → Outcome (List Bytes)
  unfolding append_max
  parse_guardians bytes [] result = ok result
  parse_guardians bytes (cue_position ∷ cues) result = do
    cursor_address_bytes ←
        unwrap_panic (k.read_buff 20 (record { bytes = bytes; pos = cue_position }))
    result' ← append_max 19 result cursor_address_bytes.value
    parse_guardians bytes cues result'

  unfoldable pub parse_and_verify_guardians_set : Wormhole → Bytes → Outcome GuardiansSet
  unfolding guardian_cues parse_guardians
  parse_and_verify_guardians_set w bytes = do
    cursor_module ← unwrap (k.read_buff 32 (record { bytes = bytes; pos = 0 })) 1201
    cursor_action ← unwrap (k.read_uint 1 cursor_module.next) 1202
    cursor_chain ← unwrap (k.read_uint 2 cursor_action.next) 1203
    cursor_new_index ← unwrap (k.read_uint 4 cursor_chain.next) 1204
    cursor_guardians_count ← unwrap (k.read_uint 1 cursor_new_index.next) 1205
    guardians_bytes ←
        unwrap
          (k.read_buff_8192_max cursor_guardians_count.next
            (some (cursor_guardians_count.value * 20)))
          1206
    guardians_cues ← guardian_cues guardians_bytes.value 0 []
    eth_addresses ← parse_guardians guardians_bytes.value guardians_cues []
    asserts (bytes_eq cursor_module.value (be_bytes 32 0x436f7265)) 1301
    asserts (cursor_action.value == 2) 1302
    asserts (cursor_chain.value == 0) 1303
    asserts (ltb w.active_guardian_set_id cursor_new_index.value) err_gsu_check_index
    ok (record {
      guardians_eth_addresses = eth_addresses;
      module_id = cursor_module.value;
      action = cursor_action.value;
      chain = cursor_chain.value;
      new_index = cursor_new_index.value;
    })

-- `map-set` of guardian-sets.
abbrev pub set_guardians :
    (ℕ → Option (List PublicKey)) → ℕ → List PublicKey → ℕ → Option (List PublicKey)
set_guardians sets set_id keys id = if set_id == id then some keys else sets id

module _ (k : HkCursor) (crypto : Crypto) where
  -- The VAA: the first set is taken without a check of the signatures.
  unfoldable pub guardian_set_vaa_of : Wormhole → Bytes → Outcome Vaa
  guardian_set_vaa_of w guardian_set_vaa =
      if w.guardian_set_initialized
      then parse_and_verify_vaa k crypto w guardian_set_vaa
      else (parse_vaa k crypto guardian_set_vaa >>= λ message. ok message.vaa)

  -- The answer's `vaa`, and the state; its `result`, the addresses and the keys, is left out.
  unfoldable pub update_guardians_set : Wormhole → Bytes → List Bytes → Outcome (Vaa × Wormhole)
  unfolding guardian_set_vaa_of parse_and_verify_guardians_set consolidate_public_keys
  update_guardians_set w guardian_set_vaa uncompressed_public_keys = do
    vaa ← guardian_set_vaa_of w guardian_set_vaa
    guardians_data ← parse_and_verify_guardians_set k w vaa.payload
    consolidated_public_keys ←
        consolidate_public_keys crypto guardians_data.guardians_eth_addresses
          uncompressed_public_keys 0 []
    asserts (length uncompressed_public_keys == length guardians_data.guardians_eth_addresses)
        err_gsu_uncompressed_public_keys
    asserts (bytes_eq vaa.emitter_address gsu_emitting_address) err_gsu_check_emitter
    asserts (vaa.emitter_chain == gsu_emitting_chain) err_gsu_check_emitter
    ok (
      vaa,
      record {
        guardian_set_initialized = true;
        active_guardian_set_id = guardians_data.new_index;
        guardian_sets =
            set_guardians w.guardian_sets guardians_data.new_index consolidated_public_keys;
      },
    )

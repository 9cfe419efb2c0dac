-- ===== src/Wormhole.antt =====
-- contracts/wormhole/wormhole-core-v2.clar: its state, and how a VAA is parsed and verified.
pub mod Guardians
pub mod Keys
pub mod Signed
pub mod Quorum
pub mod Rotation
pub mod Mismatch
use stacks_pyth_bridge.Prelude.{
  ℕ, zero, suc, ◌+◌, ◌-◌, ◌*◌, ◌/◌, Bool, true, false, not, ◌&&◌, ◌||◌, Option, none, some, List,
  [], ◌∷◌, ◌++◌, ◌==◌, leb, if◌then◌else◌, length, get_elem?,
}
use stacks_pyth_bridge.Prelude.Bytes.{Bytes, bytes_eq}
use stacks_pyth_bridge.Clarity.Outcome.{
  Outcome, ok, err, panic, ◌>>=◌, ◌>>◌, asserts, unwrap, unwrap_some, unwrap_panic, some_or_panic,
  append_max,
}
use stacks_pyth_bridge.Clarity.Cursor.{Cursor, Reading, HkCursor}
use stacks_pyth_bridge.Clarity.Types.{Signature, Vaa}

-- The functions `keccak256` and `secp256k1-recover?` of the language, the latter with its error as
-- `none`.
pub record Crypto : Type 0 where
  pub keccak256 : Bytes → Bytes
  pub secp256k1_recover : Bytes → Bytes → Option Bytes

pub record PublicKey : Type 0 where
  pub compressed_public_key : Bytes
  pub uncompressed_public_key : Bytes

pub record Wormhole : Type 0 where
  pub guardian_set_initialized : Bool
  pub active_guardian_set_id : ℕ
  pub guardian_sets : ℕ → Option (List PublicKey)

pub record Recovered : Type 0 where
  pub recovered_compressed_public_key : Bytes
  pub guardian_id : ℕ

-- What `parse-vaa` answers.
pub record Message : Type 0 where
  pub vaa : Vaa
  pub recovered_public_keys : List Recovered

abbrev pub err_vaa_checks_version_unsupported : ℕ
err_vaa_checks_version_unsupported = 1101

abbrev pub err_vaa_checks_threshold_signature : ℕ
err_vaa_checks_threshold_signature = 1102

abbrev pub err_vaa_checks_guardian_set_consistency : ℕ
err_vaa_checks_guardian_set_consistency = 1105

-- The accumulator of the loop over the signatures.
pub record SignatureCursor : Type 0 where
  pub next : Cursor
  pub iter : ℕ
  pub value : List Signature

unfoldable pub get_quorum : ℕ → ℕ
get_quorum guardian_set_size = guardian_set_size * 2 / 3 + 1

-- `index-of?` gives a value.
unfoldable pub is_member : Bytes → List Bytes → Bool
is_member key [] = false
is_member key (x ∷ xs) = bytes_eq x key || is_member key xs

module _ (k : HkCursor) where
  unfoldable pub batch_read_signatures : SignatureCursor → Outcome SignatureCursor
  unfolding append_max
  batch_read_signatures acc = if acc.iter == 0 then ok acc else (do
    cursor_guardian_id ← unwrap_panic (k.read_uint 1 acc.next)
    cursor_signature ← unwrap_panic (k.read_buff 65 cursor_guardian_id.next)
    value ←
        append_max 19 acc.value
          (record { guardian_id = cursor_guardian_id.value; signature = cursor_signature.value })
    ok (record { next = cursor_signature.next; iter = acc.iter - 1; value = value }))

  -- The fold over a list of that length.
  unfoldable pub read_signatures : ℕ → SignatureCursor → Outcome SignatureCursor
  unfolding batch_read_signatures
  read_signatures zero acc = ok acc
  read_signatures (suc n) acc = do acc' ← batch_read_signatures acc; read_signatures n acc'

-- One step of batch-recover-public-keys: a signature without a key is left out.
unfoldable pub recover_public_key :
    Crypto → Bytes → Signature → List Recovered → Outcome (List Recovered)
unfolding append_max
recover_public_key crypto message_hash entry value =
    elim (crypto.secp256k1_recover message_hash entry.signature) [
      | none ↦ ok value
      | some public_key ↦
          append_max 19 value (record {
            recovered_compressed_public_key = public_key;
            guardian_id = entry.guardian_id;
          })
    ]

unfoldable pub recover_public_keys :
    Crypto → Bytes → List Signature → List Recovered → Outcome (List Recovered)
unfolding recover_public_key
recover_public_keys crypto message_hash [] value = ok value
recover_public_keys crypto message_hash (entry ∷ entries) value = do
  value' ← recover_public_key crypto message_hash entry value
  recover_public_keys crypto message_hash entries value'

-- One step of batch-check-active-public-keys.
unfoldable pub check_active_public_key :
    List PublicKey → Recovered → List Bytes → Outcome (List Bytes)
unfolding append_max is_member
check_active_public_key active_guardians entry result = do
  guardian ← some_or_panic (get_elem? active_guardians entry.guardian_id)
  if bytes_eq entry.recovered_compressed_public_key guardian.compressed_public_key
        && not (is_member entry.recovered_compressed_public_key result)
      then append_max 19 result entry.recovered_compressed_public_key
      else ok result

unfoldable pub check_active_public_keys :
    List PublicKey → List Recovered → List Bytes → Outcome (List Bytes)
unfolding check_active_public_key
check_active_public_keys active_guardians [] result = ok result
check_active_public_keys active_guardians (entry ∷ entries) result = do
  result' ← check_active_public_key active_guardians entry result
  check_active_public_keys active_guardians entries result'

-- The fields of parse-vaa before the signatures, and those behind them, with the next position.
pub record Header : Type 0 where
  pub version : ℕ
  pub guardian_set_id : ℕ
  pub signatures_len : ℕ
  pub next : Cursor

pub record Body : Type 0 where
  pub timestamp : ℕ
  pub nonce : ℕ
  pub emitter_chain : ℕ
  pub emitter_address : Bytes
  pub sequence : ℕ
  pub consistency_level : ℕ
  pub payload : Bytes

abbrev pub vaa_of : Header → List Signature → Body → Vaa
vaa_of header signatures body = record {
  version = header.version;
  guardian_set_id = header.guardian_set_id;
  signatures_len = header.signatures_len;
  signatures = signatures;
  timestamp = body.timestamp;
  nonce = body.nonce;
  emitter_chain = body.emitter_chain;
  emitter_address = body.emitter_address;
  sequence = body.sequence;
  consistency_level = body.consistency_level;
  payload = body.payload;
}

module _ (k : HkCursor) (crypto : Crypto) where
  unfoldable pub parse_header : Bytes → Outcome Header
  parse_header vaa_bytes = do
    cursor_version ← unwrap (k.read_uint 1 (record { bytes = vaa_bytes; pos = 0 })) 1001
    cursor_guardian_set_id ← unwrap (k.read_uint 4 cursor_version.next) 1002
    cursor_signatures_len ← unwrap (k.read_uint 1 cursor_guardian_set_id.next) 1003
    ok (record {
      version = cursor_version.value;
      guardian_set_id = cursor_guardian_set_id.value;
      signatures_len = cursor_signatures_len.value;
      next = cursor_signatures_len.next;
    })

  unfoldable pub parse_body : Cursor → Outcome Body
  parse_body next = do
    cursor_timestamp ← unwrap (k.read_uint 4 next) 1005
    cursor_nonce ← unwrap (k.read_uint 4 cursor_timestamp.next) 1006
    cursor_emitter_chain ← unwrap (k.read_uint 2 cursor_nonce.next) 1007
    cursor_emitter_address ← unwrap (k.read_buff 32 cursor_emitter_chain.next) 1008
    cursor_sequence ← unwrap (k.read_uint 8 cursor_emitter_address.next) 1009
    cursor_consistency_level ← unwrap (k.read_uint 1 cursor_sequence.next) 1010
    cursor_payload ← unwrap (k.read_buff_8192_max cursor_consistency_level.next none) 1011
    ok (record {
      timestamp = cursor_timestamp.value;
      nonce = cursor_nonce.value;
      emitter_chain = cursor_emitter_chain.value;
      emitter_address = cursor_emitter_address.value;
      sequence = cursor_sequence.value;
      consistency_level = cursor_consistency_level.value;
      payload = cursor_payload.value;
    })

  unfoldable pub parse_vaa : Bytes → Outcome Message
  unfolding parse_header parse_body read_signatures recover_public_keys
  parse_vaa vaa_bytes = do
    header ← parse_header vaa_bytes
    cursor_signatures ←
        read_signatures k 19
          (record { next = header.next; iter = header.signatures_len; value = [] })
    hashed ← unwrap (k.read_buff_8192_max cursor_signatures.next none) 1012
    let vaa_body_hash = crypto.keccak256 (crypto.keccak256 hashed.value)
    body ← parse_body cursor_signatures.next
    public_keys_results ← recover_public_keys crypto vaa_body_hash cursor_signatures.value []
    ok (record {
      vaa = vaa_of header cursor_signatures.value body;
      recovered_public_keys = public_keys_results;
    })

  unfoldable pub parse_and_verify_vaa : Wormhole → Bytes → Outcome Vaa
  unfolding parse_vaa check_active_public_keys get_quorum
  parse_and_verify_vaa w vaa_bytes = do
    message ← parse_vaa vaa_bytes
    asserts (message.vaa.guardian_set_id == w.active_guardian_set_id)
        err_vaa_checks_guardian_set_consistency
    active_guardians ←
        unwrap_some (w.guardian_sets message.vaa.guardian_set_id)
          err_vaa_checks_guardian_set_consistency
    signatures_from_active_guardians ←
        check_active_public_keys active_guardians message.recovered_public_keys []
    asserts (message.vaa.version == 1) err_vaa_checks_version_unsupported
    asserts (leb (get_quorum (length active_guardians)) (length signatures_from_active_guardians))
        err_vaa_checks_threshold_signature
    ok message.vaa

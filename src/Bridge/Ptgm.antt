-- ===== src/Bridge/Ptgm.antt =====
-- Governance messages from unit-tests/pyth/helpers.ts to contracts/pyth-governance-v1.clar.
use stacks_pyth_bridge.Prelude.{
  ℕ, ◌^◌, ◌<◌, ◌≡◌, refl, sym, ◌∙◌, [], ◌∷◌, ◌++◌, length, Option, some, none, lt→ltb, append-nil,
}
use stacks_pyth_bridge.Prelude.Bytes.{Bytes, be_bytes, bytes_eq_refl, length-be_bytes}
use stacks_pyth_bridge.Clarity.Outcome.{ok}
use stacks_pyth_bridge.Clarity.Cursor.{Cursor, HkCursor, HkCursorLaws, remaining, advanced}
use stacks_pyth_bridge.Clarity.Types.{Principal, DataSource}
use stacks_pyth_bridge.Governance.{Governance}
use stacks_pyth_bridge.Governance.Ptgm.{
  Host, Ptgm, parse_and_verify_ptgm, expected_chain_id, parse_and_verify_fee_value,
  parse_and_verify_stale_price_threshold, parse_and_verify_governance_data_source, parse_principal,
}
use stacks_pyth_bridge.Harness.Buffers.{◌>>=◌, bigint_to_buffer}
use stacks_pyth_bridge.Harness.Buffers.BigEndian.{natural_to_buffer-be_bytes}
use stacks_pyth_bridge.Harness.Ptgm.{
  PtgmUpdateFeeValue, PtgmUpdateStalePriceThreshold, PtgmPrincipal, StacksTransactions,
  serialize_fee_value, serialize_threshold, serialize_data_source, serialize_principal,
  principal_bytes,
}
use stacks_pyth_bridge.Harness.Wormhole.{Emitter}
use stacks_pyth_bridge.Bridge.Fields.{read_uint-be_bytes, remaining_next, write_uint_be_fits}

-- The bytes of a message, for an action, the two bytes of a chain and a body.
abbrev pub message : ℕ → ℕ → ℕ → Bytes → Bytes
message action c d body = 0x50 ∷ 0x54 ∷ 0x47 ∷ 0x4d ∷ 3 ∷ action ∷ c ∷ d ∷ body

-- An emitter as the wire format holds it: a chain of 16 bits, an address of 32 bytes.
abbrev pub IsEmitter : Emitter → Type 0
IsEmitter s = (s.chain < 256 ^ 2) × (length s.address ≡ 32)

abbrev pub source_of : Emitter → DataSource
source_of s = record { emitter_chain = s.chain; emitter_address = s.address }

pub bind-some :
    {A B : Type 0} (m : Option A) (f : A → Option B) {b : B}
    → (m >>= f) ≡ some b
    → (a : A) × (m ≡ some a) × (f a ≡ some b)
bind-some (some a) f h = (a, refl, h)
bind-some none f h = cc

module _ (k : HkCursor) (laws : HkCursorLaws k) where
  pub parse_message :
      (host : Host) (g : Governance) (action c d sequence : ℕ) (body : Bytes)
      → c ∷ d ∷ [] ≡ expected_chain_id host
      → g.last_sequence_processed < sequence
      → (p : Ptgm) × (parse_and_verify_ptgm k host g (message action c d body) sequence
          ≡ ok (p, record g { last_sequence_processed = sequence }))
        × (p.action ≡ action ∷ [])
        × (p.body ≡ body)
  unfolding parse_and_verify_ptgm
  parse_message host g action c d sequence body chain newer =
      let at : ℕ → Cursor = λ n. record { bytes = message action c d body; pos = n } in
      (
        record {
          action = action ∷ [];
          target_chain_id = c ∷ d ∷ [];
          module_id = 3 ∷ [];
          cursor = record { value = c ∷ d ∷ []; next = at 8 };
          body = body;
        },
        rw (
          laws.read_buff_ok 4 (at 0) (0x50 ∷ 0x54 ∷ 0x47 ∷ 0x4d ∷ []) _ refl refl,
          laws.read_buff_ok 1 (at 4) (3 ∷ []) _ refl refl,
          laws.read_buff_ok 1 (at 5) (action ∷ []) _ refl refl,
          laws.read_buff_ok 2 (at 6) (c ∷ d ∷ []) _ refl refl,
          laws.read_all (at 8),
          ← chain,
          bytes_eq_refl (c ∷ d ∷ []),
          bytes_eq_refl (0x50 ∷ 0x54 ∷ 0x47 ∷ 0x4d ∷ []),
          bytes_eq_refl (3 ∷ []),
          lt→ltb _ _ newer,
        ),
        refl,
        refl,
      )

  -- The fee.
  pub parse_fee :
      (stacks : StacksTransactions) (fee : PtgmUpdateFeeValue) (body : Bytes)
      → fee.mantissa < 256 ^ 8
      → fee.exponent < 256 ^ 8
      → serialize_fee_value stacks fee ≡ some body
      → parse_and_verify_fee_value k body
        ≡ ok (record { mantissa = fee.mantissa; exponent = fee.exponent })
  unfolding parse_and_verify_fee_value serialize_fee_value bigint_to_buffer
  parse_fee stacks fee body m e h =
      let first = be_bytes 8 fee.mantissa in
      let second = be_bytes 8 fee.exponent in
      let c : Cursor = record { bytes = body; pos = 0 } in
      let whole : body ≡ first ++ second = cc (
        h,
        natural_to_buffer-be_bytes 8 fee.mantissa m,
        natural_to_buffer-be_bytes 8 fee.exponent e,
      ) in
      let later : remaining (advanced c 8) ≡ second ++ [] =
        remaining_next 8 c first second whole (length-be_bytes 8 fee.mantissa)
        ∙ sym (append-nil second) in
      rw (
        laws.new_none body,
        read_uint-be_bytes k laws 8 fee.mantissa c second m whole,
        read_uint-be_bytes k laws 8 fee.exponent (advanced c 8) [] e later,
      )

  pub parse_threshold :
      (stacks : StacksTransactions) (update : PtgmUpdateStalePriceThreshold) (body : Bytes)
      → update.threshold < 256 ^ 8
      → serialize_threshold stacks update ≡ some body
      → parse_and_verify_stale_price_threshold k body ≡ ok update.threshold
  unfolding parse_and_verify_stale_price_threshold serialize_threshold bigint_to_buffer
  parse_threshold stacks update body m h =
      let first = be_bytes 8 update.threshold in
      let c : Cursor = record { bytes = body; pos = 0 } in
      let whole : body ≡ first ++ [] =
        cc (h, natural_to_buffer-be_bytes 8 update.threshold m, append-nil first) in
      rw (laws.new_none body, read_uint-be_bytes k laws 8 update.threshold c [] m whole)

  pub parse_governance_source :
      (source : Emitter) (body : Bytes)
      → IsEmitter source
      → serialize_data_source source ≡ some body
      → parse_and_verify_governance_data_source k body ≡ ok (source_of source)
  unfolding parse_and_verify_governance_data_source serialize_data_source
  parse_governance_source source body (m, e) h =
      let first = be_bytes 2 source.chain in
      let c : Cursor = record { bytes = body; pos = 0 } in
      let whole : body ≡ first ++ source.address =
        cc (rw (write_uint_be_fits 2 source.chain m) at h) in
      let later : remaining (advanced c 2) ≡ source.address ++ [] =
        remaining_next 2 c first source.address whole (length-be_bytes 2 source.chain)
        ∙ sym (append-nil source.address) in
      rw (
        laws.new_none body,
        read_uint-be_bytes k laws 2 source.chain c source.address m whole,
        laws.read_buff_ok 32 (advanced c 2) source.address [] later e,
      )

  pub parse_principal_bytes :
      (stacks : StacksTransactions) (host : Host) (payload : PtgmPrincipal) (p : Principal)
      (body : Bytes)
      → host.from_consensus_buff (principal_bytes stacks payload.address payload.contract_name)
        ≡ some p
      → length (principal_bytes stacks payload.address payload.contract_name) < 256
      → serialize_principal stacks payload ≡ some body
      → parse_principal k host body ≡ ok p
  unfolding parse_principal serialize_principal
  parse_principal_bytes stacks host payload p body known fits h =
      let bytes = principal_bytes stacks payload.address payload.contract_name in
      let n = length bytes in
      let c : Cursor = record { bytes = body; pos = 0 } in
      let whole : body ≡ be_bytes 1 n ++ bytes = cc (rw (write_uint_be_fits 1 n fits) at h) in
      let later : remaining (advanced c 1) ≡ bytes ++ [] =
        remaining_next 1 c (be_bytes 1 n) bytes whole (length-be_bytes 1 n)
        ∙ sym (append-nil bytes) in
      rw (
        laws.new_none body,
        read_uint-be_bytes k laws 1 n c bytes fits whole,
        laws.slice_some n (advanced c 1) bytes [] later refl,
        known,
      )

-- ===== src/Bridge/Signatures.antt =====
-- The signatures of a VAA from unit-tests/wormhole/helpers.ts, as the loop of
-- contracts/wormhole/wormhole-core-v2.clar reads them.
use stacks_pyth_bridge.Prelude.{
  ℕ, zero, suc, ◌+◌, ◌-◌, ◌^◌, ◌<◌, ◌≤◌, ◌≡◌, refl, sym, ap, ◌∙◌, List, [], ◌∷◌, ◌++◌, length,
  length-append, map, arith, false, lt→ltb, append-nil, append_assoc, All, ◌==◌,
}
use stacks_pyth_bridge.Prelude.Bytes.{Bytes, be_bytes, length-be_bytes}
use stacks_pyth_bridge.Clarity.Outcome.{ok, append_max}
use stacks_pyth_bridge.Clarity.Cursor.{Cursor, HkCursor, HkCursorLaws, remaining, advanced}
use stacks_pyth_bridge.Clarity.Types.{Signature}
use stacks_pyth_bridge.Harness.Buffers.{concat}
use stacks_pyth_bridge.Bridge.Fields.{read_uint-be_bytes, remaining_next}
use stacks_pyth_bridge.Wormhole.{SignatureCursor, read_signatures, batch_read_signatures}

-- A signature with its guardian's id, as the helpers write it.
abbrev pub signature_bytes : Signature → Bytes
signature_bytes s = be_bytes 1 s.guardian_id ++ s.signature

abbrev pub IsSignature : Signature → Type 0
IsSignature s = (s.guardian_id < 256 ^ 1) × (length s.signature ≡ 65)

append_within :
    (xs : List Signature) (x : Signature) → length xs < 19 → append_max 19 xs x ≡ ok (xs ++ x ∷ [])
unfolding append_max
append_within xs x h = rw (lt→ltb _ _ h)

module _ (k : HkCursor) (laws : HkCursorLaws k) where
  abbrev pub reading : Cursor → ℕ → List Signature → SignatureCursor
  reading c n value = record { next = c; iter = n; value = value }

  idle :
      (n : ℕ) (c : Cursor) (value : List Signature)
      → read_signatures k n (reading c 0 value) ≡ ok (reading c 0 value)
  unfolding read_signatures batch_read_signatures
  idle zero c value = refl
  idle (suc n) c value = idle n c value

  read_one :
      (c : Cursor) (n : ℕ) (value : List Signature) (s : Signature) (rest : Bytes)
      → IsSignature s
      → length value < 19
      → remaining c ≡ signature_bytes s ++ rest
      → (batch_read_signatures k (reading c (suc n) value)
          ≡ ok (reading (advanced (advanced c 1) 65) n (value ++ s ∷ [])))
        × (remaining (advanced (advanced c 1) 65) ≡ rest)
  unfolding batch_read_signatures
  read_one c n value s rest (i, l) m h =
      let r0 = h ∙ append_assoc (be_bytes 1 s.guardian_id) s.signature rest in
      let r1 = remaining_next 1 c _ _ r0 (length-be_bytes 1 s.guardian_id) in
      let less : suc n - 1 ≡ n = omega arith in
      let more : (suc n == 0) ≡ false = ground arith in
      (
        rw
            (
              read_uint-be_bytes k laws 1 s.guardian_id c _ i r0,
              laws.read_buff_ok 65 (advanced c 1) s.signature rest r1 l,
              append_within value s m,
              more,
            )
            (ap (λ (t : ℕ). ok (reading (advanced (advanced c 1) 65) t (value ++ s ∷ []))) less),
        remaining_next 65 (advanced c 1) s.signature rest r1 l,
      )

  pub read_signatures-append :
      (n : ℕ) (c : Cursor) (value signatures : List Signature) (rest : Bytes)
      → All IsSignature signatures
      → length value + length signatures ≤ 19
      → length signatures ≤ n
      → remaining c ≡ concat (map signature_bytes signatures) ++ rest
      → (c' : Cursor) × (read_signatures k n (reading c (length signatures) value)
          ≡ ok (reading c' 0 (value ++ signatures)))
        × (remaining c' ≡ rest)
  unfolding read_signatures concat
  read_signatures-append n c value [] rest a m l h = (
    c,
    idle n c value ∙ ap (λ (t : List Signature). ok (reading c 0 t)) (sym (append-nil value)),
    h,
  )
  read_signatures-append zero c value (s ∷ ss) rest a m l h = absurd (omega arith)
  read_signatures-append (suc n) c value (s ∷ ss) rest (i, a) m l h =
      let tail = concat (map signature_bytes ss) in
      let (e, r) =
        read_one c (length ss) value s (tail ++ rest) i (omega arith)
          (h ∙ append_assoc (signature_bytes s) tail rest) in
      let (c', e', r') =
        read_signatures-append n (advanced (advanced c 1) 65) (value ++ s ∷ []) ss rest a
          (omega (arith, length-append value (s ∷ []))) (omega arith) r in
      (
        c',
        rw e (
            e' ∙ ap (λ (t : List Signature). ok (reading c' 0 t)) (append_assoc value (s ∷ []) ss)),
        r',
      )

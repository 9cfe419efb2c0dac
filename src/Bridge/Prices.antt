-- ===== src/Bridge/Prices.antt =====
-- The price updates with their proofs that unit-tests/pyth/helpers.ts puts into a PNAU buffer, as the
-- fold of contracts/pyth-pnau-decoder-v1.clar reads them.
use stacks_pyth_bridge.Prelude.{
  ℕ, suc, ◌+◌, ◌*◌, ◌≤◌, ◌≡◌, refl, sym, ap, ◌∙◌, List, [], ◌∷◌, ◌++◌, length, length-append, some,
  arith, append-nil, append_assoc, All, drop, if◌then◌else◌, Bool-cases, inl, inr, le→leb,
}
use stacks_pyth_bridge.Prelude.Bytes.{Bytes, be_bytes, length-be_bytes}
use stacks_pyth_bridge.Clarity.Outcome.{ok}
use stacks_pyth_bridge.Clarity.Cursor.{
  Cursor, HkCursor, HkCursorLaws, remaining, advanced, remaining-advanced,
}
use stacks_pyth_bridge.Clarity.Walk.{Reads, chunks}
use stacks_pyth_bridge.Harness.Buffers.{concat}
use stacks_pyth_bridge.Harness.Merkle.{Object}
use stacks_pyth_bridge.Harness.Pnau.{
  PriceUpdate, bytes_of, preserialize_price_update_to_buffer, serialize_price_update_to_buffer,
  includes, serialize_updates,
}
use stacks_pyth_bridge.Bridge.Fields.{read_uint-be_bytes, remaining_next, write_uint_be_fits}
use stacks_pyth_bridge.Bridge.Ptgm.{bind-some}
use stacks_pyth_bridge.Bridge.Messages.{IsWritable, message_of, read_message-preserialize}
use stacks_pyth_bridge.Bridge.Proofs.{IsHash20, length-concat, parse_proof-concat}
use stacks_pyth_bridge.Pnau.Updates.{PriceInfo, price_info, read_price_info}

-- An update that can be submitted, with its message and its proof.
pub record IsSubmittable (p : PriceUpdate) (message : Bytes) (proof : List Bytes) : Type 0 where
  pub writable : IsWritable p
  pub serialized : preserialize_price_update_to_buffer p ≡ some message
  pub short : length proof ≤ 128
  pub hashes : All IsHash20 proof

-- The bytes of an update.
abbrev pub entry_bytes : Bytes → List Bytes → Bytes
entry_bytes message proof =
    be_bytes 2 (length message) ++ (message ++ (be_bytes 1 (length proof) ++ concat proof))

pub length-bytes_of : (os : List Object) → length (bytes_of os) ≡ length os
length-bytes_of [] = refl
length-bytes_of (o ∷ os) = ap suc (length-bytes_of os)

module _ (k : HkCursor) (laws : HkCursorLaws k) where
  length-entry_bytes :
      (message : Bytes) (proof : List Bytes)
      → All IsHash20 proof
      → length (entry_bytes message proof) ≡ 3 + length message + 20 * length proof
  length-entry_bytes message proof a = omega (
    arith,
    length-append (be_bytes 2 (length message))
        (message ++ (be_bytes 1 (length proof) ++ concat proof)),
    length-append message (be_bytes 1 (length proof) ++ concat proof),
    length-append (be_bytes 1 (length proof)) (concat proof),
    length-be_bytes 2 (length message),
    length-be_bytes 1 (length proof),
    length-concat k laws proof a,
  )

  read_price_info-entry :
      (bytes : Bytes) (off : ℕ) (p : PriceUpdate) (message : Bytes) (proof : List Bytes)
      (rest : Bytes)
      → IsSubmittable p message proof
      → drop off bytes ≡ entry_bytes message proof ++ rest
      → read_price_info k bytes off
        ≡ ok (price_info (message_of p) proof message, off + length (entry_bytes message proof))
  unfolding read_price_info
  read_price_info-entry bytes off p message proof rest s h =
      let c : Cursor = record { bytes = bytes; pos = off } in
      let c1 = advanced c 2 in
      let m = length proof in
      let size = be_bytes 2 (length message) in
      let count = be_bytes 1 m in
      let body = concat proof in
      let r0 : remaining c ≡ size ++ ((message ++ (count ++ body)) ++ rest) =
        h ∙ append_assoc size (message ++ (count ++ body)) rest in
      let r1 : remaining c1 ≡ message ++ ((count ++ body) ++ rest) =
        remaining_next 2 c size _ r0 (length-be_bytes 2 (length message))
        ∙ append_assoc message (count ++ body) rest in
      let (read, len) =
        read_message-preserialize k laws c1 p message _ s.writable s.serialized r1 in
      let c2 = advanced c1 (length message) in
      let r2 : remaining c2 ≡ count ++ (body ++ rest) =
        remaining_next (length message) c1 message _ r1 refl ∙ append_assoc count body rest in
      let r3 : remaining (advanced c2 1) ≡ body ++ rest =
        remaining_next 1 c2 count _ r2 (length-be_bytes 1 m) in
      let whole = length-entry_bytes message proof s.hashes in
      let small = s.short in
      rw
        (
          laws.new_some bytes off,
          read_uint-be_bytes k laws 2 (length message) c _ (omega (arith, len)) r0,
          read,
          laws.advance_lem c1 (length message),
          read_uint-be_bytes k laws 1 m c2 _ (omega arith) r2,
          laws.slice_some (20 * m) (advanced c2 1) body rest r3
              (length-concat k laws proof s.hashes),
          parse_proof-concat k laws proof s.hashes s.short,
          laws.slice_some (length message) c1 message _ r1 refl,
          le→leb (length message) 255 (omega (arith, len)),
          whole,
        )
        (ap (λ (t : ℕ). ok (price_info (message_of p) proof message, t)) (omega arith))

-- Each update of a batch can be submitted.
abbrev pub AreSubmittable : List PriceUpdate → List Bytes → List (List Object) → Type 0
AreSubmittable [] _ _ = Unit
AreSubmittable (p ∷ ps) (m ∷ ms) (proof ∷ proofs) =
    IsSubmittable p m (bytes_of proof) × AreSubmittable ps ms proofs
AreSubmittable (p ∷ ps) _ _ = ⊥

-- Those that are submitted, as the contract reads them, with their bytes.
unfoldable pub submitted :
    List Object → List PriceUpdate → List Bytes → List (List Object) → List (PriceInfo × Bytes)
submitted chosen (p ∷ ps) (m ∷ ms) (proof ∷ proofs) =
    let rest = submitted chosen ps ms proofs in
    if includes chosen p.price_identifier
    then (price_info (message_of p) (bytes_of proof) m, entry_bytes m (bytes_of proof)) ∷ rest
    else rest
submitted chosen _ _ _ = []

module _ (k : HkCursor) (laws : HkCursorLaws k) where
  entry_written :
      (p : PriceUpdate) (message bytes : Bytes) (proof : List Object)
      → IsSubmittable p message (bytes_of proof)
      → length message ≡ 85
      → serialize_price_update_to_buffer message proof ≡ some bytes
      → bytes ≡ entry_bytes message (bytes_of proof)
  unfolding serialize_price_update_to_buffer
  entry_written p message bytes proof s l h =
      let n = length-bytes_of proof in
      let small = s.short in
      let e =
        rw
          (
            write_uint_be_fits 2 (length message) (omega (arith, l)),
            write_uint_be_fits 1 (length proof) (omega (arith, n)),
          )
          at h in
      rw n (cc e)

  length-message :
      (p : PriceUpdate) (m : Bytes)
      → IsWritable p
      → preserialize_price_update_to_buffer p ≡ some m
      → length m ≡ 85
  length-message p m w h =
      (read_message-preserialize k laws (record { bytes = m; pos = 0 }) p m [] w h
        (sym (append-nil m))).1

  pub serialize_updates-chunks :
      (chosen : List Object) (ps : List PriceUpdate) (ms : List Bytes) (proofs : List (List Object))
      (body : Bytes)
      → AreSubmittable ps ms proofs
      → serialize_updates chosen ps ms proofs ≡ some body
      → body ≡ chunks (submitted chosen ps ms proofs)
  unfolding serialize_updates submitted
  serialize_updates-chunks chosen [] ms proofs body a h = cc h
  serialize_updates-chunks chosen (p ∷ ps) [] proofs body a h = absurd a
  serialize_updates-chunks chosen (p ∷ ps) (m ∷ ms) [] body a h = absurd a
  serialize_updates-chunks chosen (p ∷ ps) (m ∷ ms) (proof ∷ proofs) body (s, a) h =
      elim (Bool-cases (includes chosen p.price_identifier)) [
        | inl is_in ↦
            let h' = rw is_in at h in
            let (first, e, g) = bind-some (serialize_price_update_to_buffer m proof) _ h' in
            let (rest, e', g') = bind-some (serialize_updates chosen ps ms proofs) _ g in
            let x =
              entry_written p m first proof s (length-message p m s.writable s.serialized) e in
            let y = serialize_updates-chunks chosen ps ms proofs rest a e' in
            rw is_in (cc (g', x, y))
        | inr not_in ↦
            let h' = rw not_in at h in
            let (rest, e', g') = bind-some (serialize_updates chosen ps ms proofs) _ h' in
            let y = serialize_updates-chunks chosen ps ms proofs rest a e' in rw not_in (cc (g', y))
      ]

  pub submitted-Reads :
      (bytes : Bytes) (off : ℕ) (chosen : List Object) (ps : List PriceUpdate) (ms : List Bytes)
      (proofs : List (List Object))
      → AreSubmittable ps ms proofs
      → drop off bytes ≡ chunks (submitted chosen ps ms proofs)
      → Reads (read_price_info k bytes) off (submitted chosen ps ms proofs)
  unfolding submitted
  submitted-Reads bytes off chosen [] ms proofs a h = tt
  submitted-Reads bytes off chosen (p ∷ ps) [] proofs a h = absurd a
  submitted-Reads bytes off chosen (p ∷ ps) (m ∷ ms) [] a h = absurd a
  submitted-Reads bytes off chosen (p ∷ ps) (m ∷ ms) (proof ∷ proofs) (s, a) h =
      elim (Bool-cases (includes chosen p.price_identifier)) [
        | inl is_in ↦
            let h' : drop off bytes
                ≡ entry_bytes m (bytes_of proof) ++ chunks (submitted chosen ps ms proofs) =
              rw is_in at h in
            let c : Cursor = record { bytes = bytes; pos = off } in
            rw is_in (
              read_price_info-entry k laws bytes off p m (bytes_of proof) _ s h',
              omega (arith, length-entry_bytes k laws m (bytes_of proof) s.hashes),
              submitted-Reads bytes (off + length (entry_bytes m (bytes_of proof))) chosen ps ms
                  proofs a (remaining-advanced c (entry_bytes m (bytes_of proof)) _ h'),
            )
        | inr not_in ↦ rw not_in (submitted-Reads bytes off chosen ps ms proofs a (rw not_in at h))
      ]

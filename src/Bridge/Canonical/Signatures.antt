-- ===== src/Bridge/Canonical/Signatures.antt =====
-- contracts/wormhole/wormhole-core-v2.clar, parse-vaa: what the signatures that are read say of
-- their bytes.
use stacks_pyth_bridge.Prelude.{
  ℕ, zero, suc, ◌-◌, ◌≤◌, ◌≡◌, refl, sym, ap, ◌∙◌, subst, List, [], ◌∷◌, ◌++◌, length, append_assoc,
  append-nil, arith, All, map, ◌==◌, true, false, Bool-cases, inl, inr,
}
use stacks_pyth_bridge.Prelude.Bytes.{Bytes, IsByte, be_bytes}
use stacks_pyth_bridge.Clarity.Outcome.{
  ok, >>=-eq-ok, unwrap_panic, unwrap_panic-eq-ok, append_max, append_max-eq-ok,
}
use stacks_pyth_bridge.Clarity.Cursor.{HkCursor, HkCursorLaws, remaining}
use stacks_pyth_bridge.Clarity.Reading.{read_buff-inv, read_uint-inv, All-split}
use stacks_pyth_bridge.Clarity.Types.{Signature}
use stacks_pyth_bridge.Harness.Buffers.{concat}
use stacks_pyth_bridge.Bridge.Signatures.{signature_bytes, IsSignature}
use stacks_pyth_bridge.Wormhole.{Crypto, SignatureCursor, batch_read_signatures, read_signatures}

module _ (k : HkCursor) (laws : HkCursorLaws k) (crypto : Crypto) where
  -- The layout of the signatures that were read between two states of the loop.
  abbrev pub SignaturesAt : SignatureCursor → SignatureCursor → List Signature → Type 0
  SignaturesAt acc acc' sigs =
      (acc'.value ≡ acc.value ++ sigs)
      × (length sigs ≡ acc.iter)
      × (remaining acc.next ≡ concat (map signature_bytes sigs) ++ remaining acc'.next)
      × All IsSignature sigs
      × All IsByte (remaining acc'.next)

  one-inv :
      (acc acc' : SignatureCursor)
      → batch_read_signatures k acc ≡ ok acc'
      → (acc.iter == 0) ≡ false
      → All IsByte (remaining acc.next)
      → (s : Signature) × (acc'.value ≡ acc.value ++ s ∷ [])
        × (acc'.iter ≡ acc.iter - 1)
        × (remaining acc.next ≡ signature_bytes s ++ remaining acc'.next)
        × IsSignature s
        × All IsByte (remaining acc'.next)
  unfolding batch_read_signatures
  one-inv acc acc' h more a =
      let (r1, e1, h1) = >>=-eq-ok (unwrap_panic (k.read_uint 1 acc.next)) _ (rw more at h) in
      let (r2, e2, h2) = >>=-eq-ok (unwrap_panic (k.read_buff 65 r1.next)) _ h1 in
      let s : Signature = record { guardian_id = r1.value; signature = r2.value } in
      let (v, e3, h3) = >>=-eq-ok (append_max 19 acc.value s) _ h2 in
      let (f1, x1, a1) = read_uint-inv k laws 1 acc.next r1 (unwrap_panic-eq-ok _ e1) a in
      let (l, x2) = read_buff-inv k laws 65 r1.next r2 (unwrap_panic-eq-ok _ e2) in
      let (_, a2) = All-split r2.value (remaining r2.next) (subst (All IsByte) x2 a1) in
      let same : record { next = r2.next; iter = acc.iter - 1; value = v } ≡ acc' = cc h3 in
      let whole : remaining acc.next ≡ signature_bytes s ++ remaining r2.next =
        x1
        ∙ ap (λ (t : Bytes). be_bytes 1 r1.value ++ t) x2
        ∙ sym (append_assoc (be_bytes 1 r1.value) r2.value (remaining r2.next)) in
      (
        s,
        cc (same, append_max-eq-ok 19 acc.value s e3),
        cc same,
        subst (λ (t : SignatureCursor). remaining acc.next ≡ signature_bytes s ++ remaining t.next)
            same whole,
        (f1, l),
        subst (λ (t : SignatureCursor). All IsByte (remaining t.next)) same a2,
      )

  stopped :
      (acc acc' : SignatureCursor)
      → batch_read_signatures k acc ≡ ok acc'
      → (acc.iter == 0) ≡ true
      → acc ≡ acc'
  unfolding batch_read_signatures
  stopped acc acc' h done = cc (rw done at h)

  -- One signature before those of the other rounds.
  SignaturesAt-cons :
      (acc mid acc' : SignatureCursor) (s : Signature) (sigs : List Signature)
      → mid.value ≡ acc.value ++ s ∷ []
      → mid.iter ≡ acc.iter - 1
      → (acc.iter == 0) ≡ false
      → remaining acc.next ≡ signature_bytes s ++ remaining mid.next
      → IsSignature s
      → SignaturesAt mid acc' sigs
      → SignaturesAt acc acc' (s ∷ sigs)
  unfolding concat
  SignaturesAt-cons acc mid acc' s sigs v i more x good (v', i', x', goods, a) = (
    v' ∙ ap (λ (t : List Signature). t ++ sigs) v ∙ append_assoc acc.value (s ∷ []) sigs,
    ground (arith, i, i', more),
    x
        ∙ ap (λ (t : Bytes). signature_bytes s ++ t) x'
        ∙ sym (
            append_assoc (signature_bytes s) (concat (map signature_bytes sigs))
              (remaining acc'.next)),
    (good, goods),
    a,
  )

  pub signatures-inv :
      (n : ℕ) (acc acc' : SignatureCursor)
      → read_signatures k n acc ≡ ok acc'
      → acc.iter ≤ n
      → All IsByte (remaining acc.next)
      → (sigs : List Signature) × SignaturesAt acc acc' sigs
  unfolding read_signatures concat
  signatures-inv zero acc acc' h le a =
      let same : acc ≡ acc' = cc h in
      (
        [],
        subst (λ (t : SignatureCursor). SignaturesAt acc t []) same
            (sym (append-nil acc.value), omega arith, refl, tt, a),
      )
  signatures-inv (suc n) acc acc' h le a =
      let (mid, e, h1) = >>=-eq-ok (batch_read_signatures k acc) _ h in
      elim (Bool-cases (acc.iter == 0)) [
        | inl done ↦
            let same : acc ≡ mid = stopped acc mid e done in
            signatures-inv n acc acc'
              (subst (λ (t : SignatureCursor). read_signatures k n t ≡ ok acc') (sym same) h1)
              (ground (arith, done)) a
        | inr more ↦
            let (s, v, i, x, good, b) = one-inv acc mid e more a in
            let (sigs, rest) = signatures-inv n mid acc' h1 (ground (arith, i)) b in
            (s ∷ sigs, SignaturesAt-cons acc mid acc' s sigs v i more x good rest)
      ]

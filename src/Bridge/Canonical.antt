-- ===== src/Bridge/Canonical.antt =====
-- contracts/wormhole/wormhole-core-v2.clar, parse-vaa: what a VAA that parses says of its bytes.
pub mod Heads
pub mod Signatures
pub mod Bodies
use stacks_pyth_bridge.Prelude.{
  ℕ, zero, suc, ◌+◌, ◌-◌, ◌^◌, ◌<◌, ◌≤◌, ◌≡◌, refl, sym, ap, ◌∙◌, subst, List, [], ◌∷◌, ◌++◌,
  length, length-append, append_assoc, append-nil, none, arith, All, map, ◌==◌, true, false,
  Bool-cases, inl, inr, if◌then◌else◌,
}
use stacks_pyth_bridge.Prelude.Bytes.{Bytes, IsByte, be_bytes}
use stacks_pyth_bridge.Clarity.Outcome.{
  Outcome, ok, ◌>>=◌, >>=-eq-ok, unwrap, unwrap-eq-ok, unwrap_panic, unwrap_panic-eq-ok, append_max,
  append_max-eq-ok,
}
use stacks_pyth_bridge.Clarity.Cursor.{Cursor, Reading, HkCursor, HkCursorLaws, remaining}
use stacks_pyth_bridge.Clarity.Reading.{read_buff-inv, read_uint-inv, All-split}
use stacks_pyth_bridge.Clarity.Types.{Signature, Vaa}
use stacks_pyth_bridge.Harness.Buffers.{concat}
use stacks_pyth_bridge.Bridge.Signatures.{signature_bytes, IsSignature}
use stacks_pyth_bridge.Bridge.SignedVaa.{header_of, layout}
use stacks_pyth_bridge.Wormhole.{
  Crypto, Header, Body, Message, SignatureCursor, batch_read_signatures, read_signatures,
  parse_header, parse_body, parse_vaa, recover_public_keys, vaa_of,
}
use stacks_pyth_bridge.Bridge.Canonical.Heads.{header-inv}
use stacks_pyth_bridge.Bridge.Canonical.Signatures.{signatures-inv}
use stacks_pyth_bridge.Bridge.Canonical.Bodies.{BodyAt, body_layout, body-inv}

module _ (k : HkCursor) (laws : HkCursorLaws k) (crypto : Crypto) where
  parts-inv :
      (bytes : Bytes) (m : Message)
      → parse_vaa k crypto bytes ≡ ok m
      → (h : Header) × (acc : SignatureCursor) × (b : Body) × (parse_header k crypto bytes ≡ ok h)
        × (read_signatures k 19 (record { next = h.next; iter = h.signatures_len; value = [] })
            ≡ ok acc)
        × (parse_body k crypto acc.next ≡ ok b)
        × (m.vaa ≡ vaa_of h acc.value b)
  unfolding parse_vaa
  parts-inv bytes m e =
      let (h, e1, h1) = >>=-eq-ok (parse_header k crypto bytes) _ e in
      let (acc, e2, h2) =
        >>=-eq-ok
          (read_signatures k 19 (record { next = h.next; iter = h.signatures_len; value = [] })) _
          h1 in
      let (hashed, e3, h3) = >>=-eq-ok (unwrap (k.read_buff_8192_max acc.next none) 1012) _ h2 in
      let (b, e4, h4) = >>=-eq-ok (parse_body k crypto acc.next) _ h3 in
      let (keys, e5, h5) =
        >>=-eq-ok
          (recover_public_keys crypto (crypto.keccak256 (crypto.keccak256 hashed.value)) acc.value
            [])
          _ h4 in
      (h, acc, b, e1, e2, e4, cc h5)

  pub layout-inv :
      (bytes : Bytes) (m : Message)
      → parse_vaa k crypto bytes ≡ ok m
      → All IsByte bytes
      → m.vaa.signatures_len ≤ 19
      → (h : Header) × (sigs : List Signature) × (b : Body) × (m.vaa ≡ vaa_of h sigs b)
        × (h.version < 256 ^ 1)
        × (h.guardian_set_id < 256 ^ 4)
        × (length sigs ≡ h.signatures_len)
        × All IsSignature sigs
        × (c : Cursor) × BodyAt k laws crypto c b
        × (bytes ≡ layout h.version h.guardian_set_id sigs (body_layout b))
  layout-inv bytes m e a few =
      let (h, acc, b, e1, e2, e3, v) = parts-inv bytes m e in
      let (f1, f2, f3, x, a1) = header-inv k laws crypto bytes h e1 a in
      let start : SignatureCursor = record { next = h.next; iter = h.signatures_len; value = [] } in
      let few' : h.signatures_len ≤ 19 = subst (λ (t : Vaa). t.signatures_len ≤ 19) v few in
      let (sigs, (g1, g2, g3, g4, g5)) = signatures-inv k laws crypto 19 start acc e2 few' a1 in
      let (b1, b2, b3, b4, b5, b6, b7) = body-inv k laws crypto acc.next b e3 g5 in
      (
        h,
        sigs,
        b,
        v ∙ ap (λ (t : List Signature). vaa_of h t b) g1,
        f1,
        f2,
        g2,
        g4,
        acc.next,
        (b1, b2, b3, b4, b5, b6, b7),
        rw (g2, ← b7, ← g3) x,
      )

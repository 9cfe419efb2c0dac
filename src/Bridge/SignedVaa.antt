-- ===== src/Bridge/SignedVaa.antt =====
-- A whole VAA from unit-tests/wormhole/helpers.ts, with its signatures, as
-- contracts/wormhole/wormhole-core-v2.clar parses it.
use stacks_pyth_bridge.Prelude.{
  ℕ, suc, ◌^◌, ◌<◌, ◌≤◌, ◌≡◌, refl, sym, ap, ◌∙◌, List, [], ◌∷◌, ◌++◌, length, map, some, arith,
  append-nil, append_assoc, All, subst,
}
use stacks_pyth_bridge.Prelude.Bytes.{Bytes, be_bytes, length-be_bytes}
use stacks_pyth_bridge.Clarity.Outcome.{ok, ◌>>=◌}
use stacks_pyth_bridge.Clarity.Cursor.{Cursor, HkCursor, HkCursorLaws, remaining, advanced}
use stacks_pyth_bridge.Clarity.Types.{Signature}
use stacks_pyth_bridge.Harness.Buffers.{write_uint_be, concat}
use stacks_pyth_bridge.Harness.Wormhole.{
  VaaBody, VaaHeader, serialize_vaa_body_to_buffer, serialize_vaa_header_to_buffer,
  serialize_vaa_to_buffer,
}
use stacks_pyth_bridge.Bridge.Fields.{read_uint-be_bytes, remaining_next}
use stacks_pyth_bridge.Bridge.Ptgm.{bind-some}
use stacks_pyth_bridge.Bridge.Vaa.{body_of, written, parse_body-serialize}
use stacks_pyth_bridge.Bridge.Signatures.{
  signature_bytes, IsSignature, reading, read_signatures-append,
}
use stacks_pyth_bridge.Wormhole.{
  Crypto, Body, Header, vaa_of, parse_vaa, parse_header, parse_body, read_signatures,
  recover_public_keys,
}

-- The header of these signatures.
abbrev pub header_of : ℕ → ℕ → List Signature → VaaHeader
header_of version set_id signatures = record {
  version = version;
  guardian_set_id = set_id;
  signatures = map signature_bytes signatures;
}

pub length-map : (xs : List Signature) → length (map signature_bytes xs) ≡ length xs
length-map [] = refl
length-map (x ∷ xs) = ap suc (length-map xs)

-- The layout of a VAA.
abbrev pub layout : ℕ → ℕ → List Signature → Bytes → Bytes
layout version set_id signatures body =
    be_bytes 1 version
    ++ (be_bytes 4 set_id
        ++ (be_bytes 1 (length signatures) ++ (concat (map signature_bytes signatures) ++ body)))

some_injective : (a b : Bytes) → some a ≡ some b → a ≡ b
some_injective a b e = cc e

joined :
    (x y z s body head bytes : Bytes)
    → some (concat (x ∷ y ∷ z ∷ s ∷ [])) ≡ some head
    → some (concat (head ∷ body ∷ [])) ≡ some bytes
    → bytes ≡ x ++ (y ++ (z ++ (s ++ body)))
unfolding concat
joined x y z s body head bytes e h =
    let first : x ++ (y ++ (z ++ s)) ≡ head =
      ap (λ (t : Bytes). x ++ (y ++ (z ++ t))) (sym (append-nil s)) ∙ some_injective _ head e in
    let second : bytes ≡ head ++ body =
      sym (some_injective _ bytes h) ∙ ap (λ (t : Bytes). head ++ t) (append-nil body) in
    second
    ∙ ap (λ (t : Bytes). t ++ body) (sym first)
    ∙ append_assoc x (y ++ (z ++ s)) body
    ∙ ap (λ (t : Bytes). x ++ t)
        (append_assoc y (z ++ s) body ∙ ap (λ (t : Bytes). y ++ t) (append_assoc z s body))

fields :
    (version set_id : ℕ) (signatures : List Signature) (x y z body bytes : Bytes)
    → bytes ≡ x ++ (y ++ (z ++ (concat (map signature_bytes signatures) ++ body)))
    → x ≡ be_bytes 1 version
    → y ≡ be_bytes 4 set_id
    → z ≡ be_bytes 1 (length signatures)
    → bytes ≡ layout version set_id signatures body
fields version set_id signatures x y z body bytes h a b c = rw (← a, ← b, ← c) h

pub serialized :
    (version set_id : ℕ) (signatures : List Signature) (b : VaaBody) (bytes : Bytes)
    → serialize_vaa_to_buffer (header_of version set_id signatures) b ≡ some bytes
    → (version < 256 ^ 1)
      × (set_id < 256 ^ 4)
      × (length signatures < 256 ^ 1)
      × (body : Bytes) × (serialize_vaa_body_to_buffer b ≡ some body)
      × (bytes ≡ layout version set_id signatures body)
unfolding serialize_vaa_to_buffer serialize_vaa_header_to_buffer concat
serialized version set_id signatures b bytes h =
    let (hd, e0, h0) =
      bind-some (serialize_vaa_header_to_buffer (header_of version set_id signatures)) _ h in
    let (body, e, g) = bind-some (serialize_vaa_body_to_buffer b) _ h0 in
    let (x1, e1, h1) = bind-some (write_uint_be 1 version) _ e0 in
    let (x2, e2, h2) = bind-some (write_uint_be 4 set_id) _ h1 in
    let (x3, e3, h3) = bind-some (write_uint_be 1 (length (map signature_bytes signatures))) _ h2 in
    let (f1, g1) = written 1 version x1 e1 in
    let (f2, g2) = written 4 set_id x2 e2 in
    let size = length-map signatures in
    let (f3, g3) = written 1 (length (map signature_bytes signatures)) x3 e3 in
    (
      f1,
      f2,
      subst (λ (t : ℕ). t < 256 ^ 1) size f3,
      body,
      e,
      fields version set_id signatures x1 x2 x3 body bytes
          (joined x1 x2 x3 (concat (map signature_bytes signatures)) body hd bytes h3 g) g1 g2
          (g3 ∙ ap (λ (t : ℕ). be_bytes 1 t) size),
    )

module _ (k : HkCursor) (laws : HkCursorLaws k) (crypto : Crypto) where
  parse_header-layout :
      (version set_id : ℕ) (signatures : List Signature) (bytes body : Bytes)
      → version < 256 ^ 1
      → set_id < 256 ^ 4
      → length signatures < 256 ^ 1
      → bytes ≡ layout version set_id signatures body
      → (header : Header) × (parse_header k crypto bytes ≡ ok header)
        × (header.version ≡ version)
        × (header.guardian_set_id ≡ set_id)
        × (header.signatures_len ≡ length signatures)
        × (remaining header.next ≡ concat (map signature_bytes signatures) ++ body)
  unfolding parse_header
  parse_header-layout version set_id signatures bytes body f1 f2 f3 h =
      let c : Cursor = record { bytes = bytes; pos = 0 } in
      let r1 = remaining_next 1 c _ _ h (length-be_bytes 1 version) in
      let c1 = advanced c 1 in
      let r2 = remaining_next 4 c1 _ _ r1 (length-be_bytes 4 set_id) in
      let c2 = advanced c1 4 in
      (
        record {
          version = version;
          guardian_set_id = set_id;
          signatures_len = length signatures;
          next = advanced c2 1;
        },
        rw (
          read_uint-be_bytes k laws 1 version c _ f1 h,
          read_uint-be_bytes k laws 4 set_id c1 _ f2 r1,
          read_uint-be_bytes k laws 1 (length signatures) c2 _ f3 r2,
        ),
        refl,
        refl,
        refl,
        remaining_next 1 c2 _ _ r2 (length-be_bytes 1 (length signatures)),
      )

  -- The parts of a VAA together.
  assembled :
      (bytes body : Bytes) (header : Header) (c : Cursor) (signatures : List Signature) (b : Body)
      → parse_header k crypto bytes ≡ ok header
      → read_signatures k 19
          (record { next = header.next; iter = header.signatures_len; value = [] })
        ≡ ok (record { next = c; iter = 0; value = signatures })
      → remaining c ≡ body
      → parse_body k crypto c ≡ ok b
      → parse_vaa k crypto bytes ≡ (
          recover_public_keys crypto (crypto.keccak256 (crypto.keccak256 body)) signatures []
          >>= λ keys.
              ok (record { vaa = vaa_of header signatures b; recovered_public_keys = keys }))
  unfolding parse_vaa
  assembled bytes body header c signatures b e f r g = rw (e, f, laws.read_all c, r, g)

  -- The function parse_vaa, on bytes of any length, gives the fields and the signatures of a
  -- serialized VAA, and the keys that are recovered from the signatures over the double hash of the
  -- serialized body.
  pub parse_vaa-serialize :
      (version set_id : ℕ) (signatures : List Signature) (b : VaaBody) (bytes : Bytes)
      → All IsSignature signatures
      → length signatures ≤ 19
      → length b.emitter_address ≡ 32
      → b.sequence < 256 ^ 8
      → serialize_vaa_to_buffer (header_of version set_id signatures) b ≡ some bytes
      → (header : Header) × (body : Bytes) × (header.version ≡ version)
        × (header.guardian_set_id ≡ set_id)
        × (header.signatures_len ≡ length signatures)
        × (serialize_vaa_body_to_buffer b ≡ some body)
        × (parse_vaa k crypto bytes ≡ (
            recover_public_keys crypto (crypto.keccak256 (crypto.keccak256 body)) signatures []
            >>= λ keys. ok (record {
              vaa = vaa_of header signatures (body_of b);
              recovered_public_keys = keys;
            })))
  parse_vaa-serialize version set_id signatures b bytes a m len s h =
      let (f1, f2, f3, body, e, whole) = serialized version set_id signatures b bytes h in
      let (header, p, x, y, z, r) =
        parse_header-layout version set_id signatures bytes body f1 f2 f3 whole in
      let (c, q, r') =
        read_signatures-append k laws 19 header.next [] signatures body a (omega arith) m r in
      let q' =
        subst
          (λ (t : ℕ).
            read_signatures k 19 (reading k laws header.next t [])
            ≡ ok (reading k laws c 0 signatures))
          (sym z) q in
      (
        header,
        body,
        x,
        y,
        z,
        e,
        assembled bytes body header c signatures (body_of b) p q' r'
            (parse_body-serialize k laws crypto c b body len s e r'),
      )

-- ===== src/Bridge/Accepted.antt =====
-- A VAA that the keychain of unit-tests/wormhole/helpers.ts signs (buildValidVaaHeader), as
-- contracts/wormhole/wormhole-core-v2.clar verifies it.
use stacks_pyth_bridge.Prelude.{
  ℕ, ◌*◌, ◌^◌, ◌<◌, ◌≤◌, ◌≡◌, refl, sym, ap, ◌∙◌, List, [], length, some, arith, map, suc, ◌∷◌,
  ◌==◌, ==_iff, true, le→leb, All,
}
use stacks_pyth_bridge.Prelude.Bytes.{Bytes}
use stacks_pyth_bridge.Clarity.Outcome.{Outcome, ok, ◌>>=◌}
use stacks_pyth_bridge.Clarity.Cursor.{HkCursor, HkCursorLaws}
use stacks_pyth_bridge.Clarity.Types.{Signature}
use stacks_pyth_bridge.Harness.Wormhole.{
  Noble, Guardian, VaaBody, VaaHeader, generate_guardian_set_keychain, guardian_signatures,
  build_valid_vaa_header, serialize_vaa_body_to_buffer, serialize_vaa_to_buffer,
}
use stacks_pyth_bridge.Bridge.Ptgm.{bind-some}
use stacks_pyth_bridge.Bridge.Signatures.{IsSignature}
use stacks_pyth_bridge.Bridge.Vaa.{body_of}
use stacks_pyth_bridge.Bridge.SignedVaa.{header_of, parse_vaa-serialize}
use stacks_pyth_bridge.Bridge.Guardians.{
  NobleLaws, public_key_of, recovered_of, keys_of, length-keys_of, IsKeychain, generate-IsKeychain,
  signature_of, signed_all,
}
use stacks_pyth_bridge.Bridge.Recovered.{recover-keychain, check-keychain}
use stacks_pyth_bridge.Wormhole.{
  Crypto, Wormhole, Message, Header, PublicKey, Recovered, vaa_of, parse_vaa, parse_and_verify_vaa,
  recover_public_keys, check_active_public_keys, get_quorum,
}
use stacks_pyth_bridge.Wormhole.Keys.{IsDistinct}

-- For a set of guardians that is not empty, the quorum is at most its length, and more than two
-- thirds of it.
pub get_quorum-bounds : (n : ℕ) → 1 ≤ n → (get_quorum n ≤ n) × (2 * n < 3 * get_quorum n)
unfolding get_quorum
get_quorum-bounds n h = (omega arith, omega arith)

pub length-generate :
    (noble : Noble) (n : ℕ) (secrets : List Bytes)
    → length (generate_guardian_set_keychain noble n secrets) ≡ length secrets
unfolding generate_guardian_set_keychain
length-generate noble n [] = refl
length-generate noble n (s ∷ secrets) = ap suc (length-generate noble (suc n) secrets)

pub length-signatures :
    (f : Guardian → Signature) (gs : List Guardian) → length (map f gs) ≡ length gs
length-signatures f [] = refl
length-signatures f (g ∷ gs) = ap suc (length-signatures f gs)

pub length-public_keys : (gs : List Guardian) → length (map public_key_of gs) ≡ length gs
length-public_keys [] = refl
length-public_keys (g ∷ gs) = ap suc (length-public_keys gs)

quorum_met :
    (guardians : List PublicKey) (keys : List Bytes) (gs : List Guardian)
    → length guardians ≡ length gs
    → length keys ≡ length gs
    → get_quorum (length gs) ≤ length gs
    → get_quorum (length guardians) ≤ length keys
quorum_met guardians keys gs a b h = rw (a, b) h

module _ (k : HkCursor) (crypto : Crypto) where
  accepted_by :
      (w : Wormhole) (bytes : Bytes) (m : Message) (guardians : List PublicKey) (keys : List Bytes)
      → parse_vaa k crypto bytes ≡ ok m
      → m.vaa.guardian_set_id ≡ w.active_guardian_set_id
      → w.guardian_sets w.active_guardian_set_id ≡ some guardians
      → check_active_public_keys guardians m.recovered_public_keys [] ≡ ok keys
      → m.vaa.version ≡ 1
      → get_quorum (length guardians) ≤ length keys
      → parse_and_verify_vaa k crypto w bytes ≡ ok m.vaa
  unfolding parse_and_verify_vaa
  accepted_by w bytes m guardians keys p i s c v q =
      let current : (m.vaa.guardian_set_id == w.active_guardian_set_id) ≡ true = (==_iff _ _).1 i in
      let version : (m.vaa.version == 1) ≡ true = (==_iff _ _).1 v in
      rw (p, current, ap w.guardian_sets i ∙ s, c, version, le→leb _ _ q)

module _ (k : HkCursor) (laws : HkCursorLaws k) (noble : Noble) (crypto : Crypto)
    (noble_laws : NobleLaws noble crypto) where
  -- The signatures of a header that the helpers build.
  built :
      (gs : List Guardian) (b : VaaBody) (version set_id : ℕ) (header : VaaHeader)
      → build_valid_vaa_header noble gs b version set_id ≡ some header
      → (body : Bytes) × (serialize_vaa_body_to_buffer b ≡ some body)
        × (sigs : List Bytes) × (guardian_signatures noble
              (noble.keccak_256 (noble.keccak_256 body))
              gs
            ≡ some sigs)
        × (record { version = version; guardian_set_id = set_id; signatures = sigs } ≡ header)
  unfolding build_valid_vaa_header
  built gs b version set_id header h =
      let (body, e, h1) = bind-some (serialize_vaa_body_to_buffer b) _ h in
      let (sigs, e', h2) =
        bind-some (guardian_signatures noble (noble.keccak_256 (noble.keccak_256 body)) gs) _ h1 in
      (body, e, sigs, e', cc h2)

  recover_signed :
      (gs : List Guardian) (body body' : Bytes)
      → IsKeychain noble crypto noble_laws 0 gs
      → length gs ≤ 19
      → body ≡ body'
      → recover_public_keys crypto
          (crypto.keccak256 (crypto.keccak256 body'))
          (map (signature_of noble crypto noble_laws (noble.keccak_256 (noble.keccak_256 body))) gs)
          []
        ≡ ok (map recovered_of gs)
  recover_signed gs body body' chain m e =
      let hash = noble.keccak_256 (noble.keccak_256 body) in
      let same : crypto.keccak256 (crypto.keccak256 body') ≡ hash =
        ap crypto.keccak256 (noble_laws.keccak256_lem body')
        ∙ noble_laws.keccak256_lem (noble.keccak_256 body')
        ∙ ap (λ (t : Bytes). noble.keccak_256 (noble.keccak_256 t)) (sym e) in
      rw same (recover-keychain noble crypto noble_laws hash 0 gs [] chain (omega arith))

  -- Whatever the state, such a VAA parses, with all the keys.
  pub parse_vaa-build :
      (secrets : List Bytes) (b : VaaBody) (id : ℕ) (header : VaaHeader) (bytes : Bytes)
      → length secrets ≤ 19
      → length b.emitter_address ≡ 32
      → b.sequence < 256 ^ 8
      → build_valid_vaa_header noble (generate_guardian_set_keychain noble 0 secrets) b 1 id
        ≡ some header
      → serialize_vaa_to_buffer header b ≡ some bytes
      → (h : Header) × (signatures : List Signature) × (h.version ≡ 1)
        × (h.guardian_set_id ≡ id)
        × (h.signatures_len ≡ length signatures)
        × (header ≡ header_of 1 id signatures)
        × (hash : Bytes) × (signatures
            ≡ map
                (signature_of noble crypto noble_laws hash)
                (generate_guardian_set_keychain noble 0 secrets))
        × All IsSignature signatures
        × (parse_vaa k crypto bytes
            ≡ ok (record {
              vaa = vaa_of h signatures (body_of b);
              recovered_public_keys =
                  map recovered_of (generate_guardian_set_keychain noble 0 secrets);
            }))
  parse_vaa-build secrets b id header bytes few size sequence made sent =
      let gs = generate_guardian_set_keychain noble 0 secrets in
      let chain = generate-IsKeychain noble crypto noble_laws 0 secrets in
      let count : length gs ≡ length secrets = length-generate noble 0 secrets in
      let (body, e, sigs, signed, same) = built gs b 1 id header made in
      let hash = noble.keccak_256 (noble.keccak_256 body) in
      let signatures = map (signature_of noble crypto noble_laws hash) gs in
      let (x, good) = signed_all noble crypto noble_laws hash gs sigs signed in
      let whole : header ≡ header_of 1 id signatures =
        sym same
        ∙ ap (λ (t : List Bytes). record { version = 1; guardian_set_id = id; signatures = t }) x in
      let sent' = ap (λ (t : VaaHeader). serialize_vaa_to_buffer t b) (sym whole) ∙ sent in
      let n = length-signatures (signature_of noble crypto noble_laws hash) gs in
      let (h, body', v, i, l, e', parsed) =
        parse_vaa-serialize k laws crypto 1 id signatures b bytes good (omega (arith, n)) size
          sequence sent' in
      let recovered = recover_signed gs body body' chain (omega arith) (cc (e, e')) in
      (
        h,
        signatures,
        v,
        i,
        l,
        whole,
        hash,
        refl,
        good,
        parsed
            ∙ ap
                (λ (t : Outcome (List Recovered)). t >>= λ keys.
                  ok (record {
                    vaa = vaa_of h signatures (body_of b);
                    recovered_public_keys = keys;
                  }))
                recovered,
      )

  -- The function parse_and_verify_vaa, on bytes of any length, accepts a VAA that is signed with
  -- the whole keychain of the active set, and gives the fields of its body.
  pub parse_and_verify_vaa-build :
      (secrets : List Bytes) (b : VaaBody) (w : Wormhole) (header : VaaHeader) (bytes : Bytes)
      → 1 ≤ length secrets
      → length secrets ≤ 19
      → IsDistinct (keys_of (generate_guardian_set_keychain noble 0 secrets))
      → w.guardian_sets w.active_guardian_set_id
        ≡ some (map public_key_of (generate_guardian_set_keychain noble 0 secrets))
      → length b.emitter_address ≡ 32
      → b.sequence < 256 ^ 8
      → build_valid_vaa_header noble
          (generate_guardian_set_keychain noble 0 secrets)
          b
          1
          w.active_guardian_set_id
        ≡ some header
      → serialize_vaa_to_buffer header b ≡ some bytes
      → (header' : Header) × (signatures : List Signature) × (parse_and_verify_vaa k crypto w bytes
          ≡ ok (vaa_of header' signatures (body_of b)))
  parse_and_verify_vaa-build secrets b w header bytes some_keys few distinct stored size sequence
        made sent =
      let gs = generate_guardian_set_keychain noble 0 secrets in
      let chain = generate-IsKeychain noble crypto noble_laws 0 secrets in
      let count : length gs ≡ length secrets = length-generate noble 0 secrets in
      let (h, signatures, v, i, _, _, _, _, _, message) =
        parse_vaa-build secrets b w.active_guardian_set_id header bytes few size sequence made
          sent in
      let m : Message = record {
        vaa = vaa_of h signatures (body_of b);
        recovered_public_keys = map recovered_of gs;
      } in
      let (enough, most) = get_quorum-bounds (length gs) (omega arith) in
      let guardians = map public_key_of gs in
      (
        h,
        signatures,
        accepted_by k crypto w bytes m guardians (keys_of gs) message i stored
            (check-keychain noble crypto noble_laws [] gs chain distinct (omega arith)) v
            (quorum_met guardians (keys_of gs) gs (length-public_keys gs) (length-keys_of gs)
              enough),
      )

-- ===== src/Bridge/Generated.antt =====
-- The VAAs that the generators of unit-tests/wormhole/helpers.ts draw, as
-- contracts/wormhole/wormhole-core-v2.clar parses them.
use stacks_pyth_bridge.Prelude.{
  ℕ, zero, suc, ◌+◌, ◌/◌, ◌%◌, ◌-◌, ◌^◌, ◌<◌, ◌≤◌, ◌≡◌, refl, sym, ap, ◌∙◌, subst, List, [], ◌∷◌,
  ◌++◌, length, length-append, some, none, arith, All, map, Option,
}
use stacks_pyth_bridge.Prelude.Bytes.{Bytes, IsByte, be_bytes}
use stacks_pyth_bridge.Clarity.Outcome.{ok, ◌>>=◌, with_buff}
use stacks_pyth_bridge.Clarity.Cursor.{HkCursor, HkCursorLaws}
use stacks_pyth_bridge.Clarity.Types.{Signature}
use stacks_pyth_bridge.Harness.Wormhole.{serialize_vaa_to_buffer, serialize_vaa_body_to_buffer}
use stacks_pyth_bridge.Harness.Generators.{
  FastCheck, FastCheckLaws, VaaBodyBuildOptions, VaaHeaderBuildOptions, fixed, fixed_number,
  length_or_zero, vaa_body, vaa_header, assemble_vaa_body, assemble_vaa_header,
}
use stacks_pyth_bridge.Bridge.Signatures.{signature_bytes, IsSignature}
use stacks_pyth_bridge.Bridge.SignedVaa.{header_of}
use stacks_pyth_bridge.Bridge.Within.{parse_vaa-serialize_within}
use stacks_pyth_bridge.Bridge.Vaa.{body_of}
use stacks_pyth_bridge.Bridge.Applied.{body-IsMade, header-IsMade, vaa-IsMade}
use stacks_pyth_bridge.Wormhole.{Crypto, Header, vaa_of, parse_vaa, recover_public_keys}

-- A value that is given fits.
abbrev pub Below : ℕ → Option ℕ → Type 0
Below bound none = Unit
Below bound (some n) = n < bound

abbrev pub HasLength : ℕ → Option Bytes → Type 0
HasLength n none = Unit
HasLength n (some b) = length b ≡ n

abbrev pub IsShort : ℕ → Option Bytes → Type 0
IsShort n none = Unit
IsShort n (some b) = length b ≤ n

-- The bytes of a signature with its guardian's id.
abbrev pub IsRaw : Bytes → Type 0
IsRaw b = (length b ≡ 66) × All IsByte b

abbrev pub AreRaw : Option (List Bytes) → Type 0
AreRaw none = Unit
AreRaw (some xs) = All IsRaw xs

pub record Fits (b : VaaBodyBuildOptions) (h : VaaHeaderBuildOptions) : Type 0 where
  pub timestamp : Below (2 ^ 32) b.timestamp
  pub nonce : Below (2 ^ 32) b.nonce
  pub emitter_chain : Below (2 ^ 16) b.emitter_chain
  pub emitter_address : HasLength 32 b.emitter_address
  pub sequence : Below (2 ^ 64) b.sequence
  pub consistency_level : Below (2 ^ 8) b.consistency_level
  pub payload : IsShort 2048 b.payload
  pub version : Below (2 ^ 8) h.version
  pub guardian_set_id : Below (2 ^ 32) h.guardian_set_id
  pub signatures : AreRaw h.signatures
  pub count : length_or_zero h.signatures ≤ 19

abbrev signature_from : Bytes → Signature
signature_from [] = record { guardian_id = 0; signature = [] }
signature_from (id ∷ bytes) = record { guardian_id = id; signature = bytes }

raw_signatures :
    (xs : List Bytes)
    → All IsRaw xs
    → (xs ≡ map signature_bytes (map signature_from xs))
      × All IsSignature (map signature_from xs)
      × (length (map signature_from xs) ≡ length xs)
unfolding be_bytes
raw_signatures [] a = (refl, tt, refl)
raw_signatures ([] ∷ xs) ((l, b), a) = absurd (omega (arith, l))
raw_signatures ((id ∷ bytes) ∷ xs) ((l, (small, b)), a) =
    let (e, s, n) = raw_signatures xs a in
    let low : id ≡ id / 256 ^ 0 % 256 = omega arith in
    (λ i. (low i ∷ bytes) ∷ e i, ((omega arith, omega arith), s), ap suc n)

All-append : (xs ys : List Bytes) → All IsRaw xs → All IsRaw ys → All IsRaw (xs ++ ys)
All-append [] ys a b = b
All-append (x ∷ xs) ys (p, a) b = (p, All-append xs ys a b)

module _ (fc : FastCheck) (fc_laws : FastCheckLaws fc) where
  pub number-Below :
      (bound n : ℕ) (o : Option ℕ) (a : fc.Arbitrary ℕ)
      → ((x : ℕ) → fc.Gives a x → x < bound)
      → Below bound o
      → fc.Gives (fixed_number fc o a) n
      → n < bound
  number-Below bound n none a f b g = f n g
  number-Below bound n (some zero) a f b g = f n g
  number-Below bound n (some (suc m)) a f b g =
      subst (λ (t : ℕ). t < bound) (fc_laws.constant_value (suc m) n g) b

  nat_below : (max n : ℕ) → fc.Gives (fc.nat max) n → n < max + 1
  nat_below max n g = let h = fc_laws.nat_range max n g in omega arith

  pub address_length :
      (o : Option Bytes) (b : Bytes)
      → HasLength 32 o
      → fc.Gives (fixed fc o (fc.uint8_array 32 32)) b
      → length b ≡ 32
  address_length none b h g = let (x, y, z) = fc_laws.uint8_array_range 32 32 b g in omega arith
  address_length (some a) b h g =
      subst (λ (t : Bytes). length t ≡ 32) (fc_laws.constant_value a b g) h

  pub payload_length :
      (o : Option Bytes) (b : Bytes)
      → IsShort 2048 o
      → fc.Gives (fixed fc o (fc.uint8_array 20 2048)) b
      → length b ≤ 2048
  payload_length none b h g = let (x, y, z) = fc_laws.uint8_array_range 20 2048 b g in y
  payload_length (some a) b h g =
      subst (λ (t : Bytes). length t ≤ 2048) (fc_laws.constant_value a b g) h

  IsRaw-array : (xs : List Bytes) → All (fc.Gives (fc.uint8_array 66 66)) xs → All IsRaw xs
  IsRaw-array [] a = tt
  IsRaw-array (x ∷ xs) (g, a) =
      let (p, q, r) = fc_laws.uint8_array_range 66 66 x g in ((omega arith, r), IsRaw-array xs a)

  specified :
      (o : Option (List Bytes)) (xs : List Bytes)
      → AreRaw o
      → fc.Gives (fixed fc o (fc.array (fc.uint8_array 66 66) 0 0)) xs
      → All IsRaw xs × (length xs ≤ length_or_zero o)
  specified none xs h g =
      let (p, q, r) = fc_laws.array_range (fc.uint8_array 66 66) 0 0 xs g in (IsRaw-array xs r, q)
  specified (some ys) xs h g =
      let e = fc_laws.constant_value ys xs g in
      subst (λ (t : List Bytes). All IsRaw t × (length t ≤ length ys)) e (h, omega arith)

  -- Every VAA that the generators can draw, with up to 19 signatures of which some may be given, is
  -- serialized without an exception, and the contract parses it to its header, its signatures and
  -- its fields, with the keys that are recovered over the double hash of the serialized body.
  -- Given: options whose values fit their fields, a given payload of at most 2048 bytes (so that
  -- the VAA fits the argument's 8192) and given signatures of 66 bytes, and a random test library
  -- and a cursor contract that meet their laws.
  pub parse_vaa-generated :
      (k : HkCursor) (laws : HkCursorLaws k) (crypto : Crypto) (b : VaaBodyBuildOptions)
      (h : VaaHeaderBuildOptions) (timestamp nonce chain sequence level version set_id : ℕ)
      (address payload : Bytes) (given drawn : List Bytes)
      → Fits b h
      → fc.Gives (vaa_body fc b).timestamp timestamp
      → fc.Gives (vaa_body fc b).nonce nonce
      → fc.Gives (vaa_body fc b).emitter_chain chain
      → fc.Gives (vaa_body fc b).emitter_address address
      → fc.Gives (vaa_body fc b).sequence sequence
      → fc.Gives (vaa_body fc b).consistency_level level
      → fc.Gives (vaa_body fc b).payload payload
      → fc.Gives (vaa_header fc h 19).version version
      → fc.Gives (vaa_header fc h 19).guardian_set_id set_id
      → fc.Gives (vaa_header fc h 19).specified_signatures given
      → fc.Gives (vaa_header fc h 19).generated_signatures drawn
      → (bytes : Bytes) × (serialize_vaa_to_buffer
            (assemble_vaa_header version set_id (given ++ drawn))
            (assemble_vaa_body timestamp nonce chain address sequence level payload)
          ≡ some bytes)
        × (header : Header) × (body : Bytes) × (signatures : List Signature)
        × (serialize_vaa_body_to_buffer
              (assemble_vaa_body timestamp nonce chain address sequence level payload)
            ≡ some body)
        × (header.version ≡ version)
        × (header.guardian_set_id ≡ set_id)
        × (map signature_bytes signatures ≡ given ++ drawn)
        × (with_buff 8192 (parse_vaa k crypto) bytes ≡ (
            recover_public_keys crypto (crypto.keccak256 (crypto.keccak256 body)) signatures []
            >>= λ keys. ok (record {
              vaa = vaa_of header signatures (
                  body_of (assemble_vaa_body timestamp nonce chain address sequence level payload));
              recovered_public_keys = keys;
            })))
  unfolding vaa_body vaa_header assemble_vaa_body assemble_vaa_header
  parse_vaa-generated k laws crypto b h timestamp nonce chain sequence level version set_id address
        payload given drawn fits g1 g2 g3 g4 g5 g6 short g7 g8 g9 g10 =
      let word = nat_below 4294967295 in
      let byte = nat_below 255 in
      let t1 =
        number-Below (2 ^ 32) timestamp b.timestamp (fc.nat 4294967295) word fits.timestamp g1 in
      let t2 = number-Below (2 ^ 32) nonce b.nonce (fc.nat 4294967295) word fits.nonce g2 in
      let t3 =
        number-Below (2 ^ 16) chain b.emitter_chain (fc.nat 65535) (nat_below 65535)
          fits.emitter_chain g3 in
      let t4 = address_length b.emitter_address address fits.emitter_address g4 in
      let t5 =
        number-Below (2 ^ 64) sequence b.sequence (fc.big_uint_n 64) (fc_laws.big_uint_n_range 64)
          fits.sequence g5 in
      let t6 =
        number-Below (2 ^ 8) level b.consistency_level (fc.nat 255) byte fits.consistency_level
          g6 in
      let t7 = number-Below (2 ^ 8) version h.version (fc.nat 255) byte fits.version g7 in
      let t8 =
        number-Below (2 ^ 32) set_id h.guardian_set_id (fc.nat 255)
          (λ x m. let low = byte x m in omega arith) fits.guardian_set_id g8 in
      let t11 = payload_length b.payload payload fits.payload short in
      let (a1, l1) = specified h.signatures given fits.signatures g9 in
      let (p, q, r) =
        fc_laws.array_range (fc.uint8_array 66 66) 0 (19 - length_or_zero h.signatures) drawn g10 in
      let (e, s, n) =
        raw_signatures (given ++ drawn) (All-append given drawn a1 (IsRaw-array drawn r)) in
      let count = fits.count in
      let total = length-append given drawn in
      let signatures = map signature_from (given ++ drawn) in
      let body = assemble_vaa_body timestamp nonce chain address sequence level payload in
      let size = ap (λ (t : List Bytes). length t) e in
      let (bytes, w) =
        vaa-IsMade (header_of version set_id signatures) body
          (header-IsMade (header_of version set_id signatures) (omega arith) (omega arith)
            (omega (arith, sym size)))
          (body-IsMade body (omega arith) (omega arith) (omega arith) (omega arith)) in
      let (header, body_bytes, v, i, c, m, parsed) =
        parse_vaa-serialize_within k laws crypto version set_id signatures body bytes s
          (omega arith) t4 (omega arith) (omega (arith, t11)) w in
      (
        bytes,
        ap (λ (t : List Bytes). serialize_vaa_to_buffer (assemble_vaa_header version set_id t) body)
              e
            ∙ w,
        header,
        body_bytes,
        signatures,
        m,
        v,
        i,
        sym e,
        parsed,
      )

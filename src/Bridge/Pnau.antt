-- ===== src/Bridge/Pnau.antt =====
-- A buffer of price updates (PNAU) from unit-tests/pyth/helpers.ts, as
-- contracts/pyth-pnau-decoder-v1.clar decodes it.
use stacks_pyth_bridge.Prelude.{
  ℕ, suc, ◌^◌, ◌<◌, ◌≡◌, refl, ap, ◌∙◌, List, [], ◌∷◌, ◌++◌, length, some, arith, append-nil,
  if◌then◌else◌, Bool-cases, inl, inr, map,
}
use stacks_pyth_bridge.Prelude.Bytes.{Bytes, be_bytes, bytes_eq}
use stacks_pyth_bridge.Clarity.Walk.{entries}
use stacks_pyth_bridge.Store.{PriceEntry}
use stacks_pyth_bridge.Harness.Values.{serialize_price_update_to_clarity_value}
use stacks_pyth_bridge.Harness.Buffers.{write_uint_be, concat}
use stacks_pyth_bridge.Harness.Merkle.{Object, keccak160_hash_leaf}
use stacks_pyth_bridge.Harness.Merkle.Proof.{climb}
use stacks_pyth_bridge.Harness.Pnau.{
  PriceUpdate, PnauHeader, PnauBody, includes, serialize_updates, serialize_pnau_to_buffer,
}
use stacks_pyth_bridge.Bridge.Fields.{write_uint_be_fits}
use stacks_pyth_bridge.Bridge.Ptgm.{bind-some}
use stacks_pyth_bridge.Bridge.Vaa.{written}
use stacks_pyth_bridge.Bridge.Prices.{AreSubmittable, submitted}
use stacks_pyth_bridge.Pnau.{cast_decoded_price, pnau_magic}
use stacks_pyth_bridge.Pnau.Updates.{HkMerkle}

-- The documented behaviour of hk-merkle-tree-keccak160-v1: from the hash of the leaf, each sibling of
-- the proof is hashed in, and the root is met.
pub record HkMerkleLaws (keccak_256 : Bytes → Bytes) (merkle : HkMerkle) : Type 0 where
  pub check_proof_lem :
      (root leaf : Bytes) (proof : List Bytes)
      → merkle.check_proof root leaf proof
        ≡ bytes_eq root (climb keccak_256 (keccak160_hash_leaf keccak_256 leaf) proof)

-- The updates whose identifiers are chosen.
unfoldable pub selected : List Object → List PriceUpdate → List PriceUpdate
selected chosen [] = []
selected chosen (p ∷ ps) =
    let rest = selected chosen ps in if includes chosen p.price_identifier then p ∷ rest else rest

-- Each loop of the two lists is over the same updates.
pub submitted-selected :
    (chosen : List Object) (ps : List PriceUpdate) (ms : List Bytes) (proofs : List (List Object))
    → AreSubmittable ps ms proofs
    → (map cast_decoded_price (entries (submitted chosen ps ms proofs))
        ≡ map serialize_price_update_to_clarity_value (selected chosen ps))
      × (length (submitted chosen ps ms proofs) ≡ length (selected chosen ps))
unfolding submitted selected cast_decoded_price
submitted-selected chosen [] ms proofs a = (refl, refl)
submitted-selected chosen (p ∷ ps) [] proofs a = absurd a
submitted-selected chosen (p ∷ ps) (m ∷ ms) [] a = absurd a
submitted-selected chosen (p ∷ ps) (m ∷ ms) (proof ∷ proofs) (s, a) =
    let (e, l) = submitted-selected chosen ps ms proofs a in
    elim (Bool-cases (includes chosen p.price_identifier)) [
      | inl is_in ↦
          rw is_in (
            ap (λ (t : List PriceEntry). serialize_price_update_to_clarity_value p ∷ t) e,
            ap suc l,
          )
      | inr not_in ↦ rw not_in (e, l)
    ]

-- The bytes behind the header.
abbrev pub layout : Bytes → ℕ → Bytes → List Bytes
layout vaa n updates = be_bytes 2 (length vaa) ∷ vaa ∷ be_bytes 1 n ∷ updates ∷ []

abbrev pub header_layout : List Bytes
header_layout = pnau_magic ∷ be_bytes 1 1 ∷ be_bytes 1 0 ∷ be_bytes 1 0 ∷ be_bytes 1 0 ∷ []

-- The header that the contract takes: no byte stands behind its sizes.
abbrev pub IsStandard : PnauHeader → Type 0
IsStandard h =
    (h.magic_bytes ≡ pnau_magic)
    × (h.version_maj ≡ 1)
    × (h.version_min ≡ 0)
    × (h.trailing_size ≡ 0)
    × (h.proof_type ≡ 0)

pub serialized :
    (header : PnauHeader) (body : PnauBody) (bytes : Bytes)
    → IsStandard header
    → serialize_pnau_to_buffer header body ≡ some bytes
    → (length body.vaa < 256 ^ 2)
      × (length body.prices_updates_to_submit < 256)
      × (updates : Bytes) × (serialize_updates body.prices_updates_to_submit
            body.prices_updates.decoded body.prices_updates.serialized body.prices_updates.proofs
          ≡ some updates)
      × (bytes
          ≡ concat header_layout
            ++ concat (layout body.vaa (length body.prices_updates_to_submit) updates))
unfolding serialize_pnau_to_buffer concat be_bytes
serialized header body bytes (h1, h2, h3, h4, h5) h =
    let one : write_uint_be 1 1 ≡ some (be_bytes 1 1) = write_uint_be_fits 1 1 (omega arith) in
    let nil : write_uint_be 1 0 ≡ some (be_bytes 1 0) = write_uint_be_fits 1 0 (omega arith) in
    let (size, e1, g1) =
      bind-some (write_uint_be 2 (length body.vaa)) _ (rw (h1, h2, h3, h4, h5, one, nil) at h) in
    let (count, e2, g2) = bind-some (write_uint_be 1 (length body.prices_updates_to_submit)) _ g1 in
    let (updates, e3, g3) =
      bind-some
        (serialize_updates body.prices_updates_to_submit body.prices_updates.decoded
          body.prices_updates.serialized body.prices_updates.proofs)
        _ g2 in
    let (f1, x1) = written 2 (length body.vaa) size e1 in
    let (f2, x2) = written 1 (length body.prices_updates_to_submit) count e2 in
    (f1, omega arith, updates, e3, cc (g3, x1, x2))

pub no_more : (rest : Bytes) → concat [] ++ rest ≡ rest
unfolding concat
no_more rest = refl

pub last_chunk : (b : Bytes) → concat (b ∷ []) ++ [] ≡ b
unfolding concat
last_chunk b = append-nil (b ++ []) ∙ append-nil b

-- ===== src/Harness/Merkle/Root.antt =====
-- The proofs of computeMerkleProof and the root of buildAuwvVaaPayload (unit-tests/pyth/helpers.ts)
-- belong together.
use stacks_pyth_bridge.Prelude.{
  ℕ, suc, ◌+◌, ◌*◌, ◌≤◌, ◌≡◌, refl, sym, ap, ◌∙◌, inl, inr, some, List, [], ◌∷◌, ltb, ltb→lt,
  length, take, get_elem?, arith, All, Bool-cases,
}
use stacks_pyth_bridge.Prelude.Bytes.{Bytes, IsByte, be_from}
use stacks_pyth_bridge.Harness.Buffers.{buffer_to_bigint}
use stacks_pyth_bridge.Harness.Buffers.Bigint.{buffer_to_bigint-be_from}
use stacks_pyth_bridge.Harness.Merkle.{
  Object, keccak160_hash_nodes, keccak160_hash_leaf, merkle_leaves, compute_merkle_proof,
}
use stacks_pyth_bridge.Harness.Merkle.Proof.{IsNumbered, contents, climb}
use stacks_pyth_bridge.Harness.Merkle.Steps.{climbs}

-- The hash of a node.
abbrev pub IsNode : Bytes → Type 0
IsNode b = (length b ≡ 20) × All IsByte b

-- keccak_256 gives 32 bytes.
abbrev pub IsHash : (Bytes → Bytes) → Type 0
IsHash keccak_256 = (b : Bytes) → (length (keccak_256 b) ≡ 32) × All IsByte (keccak_256 b)

-- Buffers of one length are their values.
be_from_injective :
    (a b : ℕ) (xs ys : Bytes)
    → length xs ≡ length ys
    → All IsByte xs
    → All IsByte ys
    → be_from a xs ≡ be_from b ys
    → (a ≡ b) × (xs ≡ ys)
unfolding be_from
be_from_injective a b [] [] l p q e = (e, refl)
be_from_injective a b [] (y ∷ ys) l p q e = absurd (omega (arith, l))
be_from_injective a b (x ∷ xs) [] l p q e = absurd (omega (arith, l))
be_from_injective a b (x ∷ xs) (y ∷ ys) l (p, ps) (q, qs) e =
    let (f, g) = be_from_injective (a * 256 + x) (b * 256 + y) xs ys (omega arith) ps qs e in
    let high : a ≡ b = omega (arith, f) in
    let low : x ≡ y = omega (arith, f) in (high, λ i. low i ∷ g i)

pub take_within : (n : ℕ) (xs : Bytes) → n ≤ length xs → length (take n xs) ≡ n
take_within ℕ.zero xs h = refl
take_within (suc n) [] h = absurd (omega arith)
take_within (suc n) (x ∷ xs) h = ap suc (take_within n xs (omega arith))

All-take : (P : ℕ → Type 0) (n : ℕ) (xs : Bytes) → All P xs → All P (take n xs)
All-take P ℕ.zero xs h = tt
All-take P (suc n) [] h = tt
All-take P (suc n) (x ∷ xs) (p, h) = (p, All-take P n xs h)

module _ (keccak_256 : Bytes → Bytes) (is_hash : IsHash keccak_256) where
  take-IsNode : (b : Bytes) → IsNode (take 20 (keccak_256 b))
  take-IsNode b =
      let (l, a) = is_hash b in
      (take_within 20 (keccak_256 b) (omega (arith, l)), All-take IsByte 20 (keccak_256 b) a)

  pub hash_nodes-IsNode : (a b : Bytes) → IsNode (keccak160_hash_nodes keccak_256 a b)
  unfolding keccak160_hash_nodes
  hash_nodes-IsNode a b = elim (Bool-cases (ltb (buffer_to_bigint b) (buffer_to_bigint a))) [
    | inl less ↦ rw less (take-IsNode _)
    | inr more ↦ rw more (take-IsNode _)
  ]

  pub hash_leaf-IsNode : (leaf : Bytes) → IsNode (keccak160_hash_leaf keccak_256 leaf)
  unfolding keccak160_hash_leaf
  hash_leaf-IsNode leaf = take-IsNode (0 ∷ leaf)

  -- The order of two siblings does not matter, since the lower one is hashed first.
  hash_nodes_comm :
      (a b : Bytes)
      → IsNode a
      → IsNode b
      → keccak160_hash_nodes keccak_256 a b ≡ keccak160_hash_nodes keccak_256 b a
  unfolding keccak160_hash_nodes
  hash_nodes_comm a b (l, p) (m, q) =
      elim (Bool-cases (ltb (buffer_to_bigint b) (buffer_to_bigint a))) [
        | inl less ↦ elim (Bool-cases (ltb (buffer_to_bigint a) (buffer_to_bigint b))) [
          | inl more ↦ absurd (omega (arith, ltb→lt _ _ less, ltb→lt _ _ more))
          | inr not_more ↦ rw (less, not_more)
        ]
        | inr not_less ↦ elim (Bool-cases (ltb (buffer_to_bigint a) (buffer_to_bigint b))) [
          | inl more ↦ rw (not_less, more)
          | inr not_more ↦
              let same : buffer_to_bigint a ≡ buffer_to_bigint b =
                ground (arith, not_less, not_more) in
              let (z, e) =
                be_from_injective 0 0 a b (omega (arith, l, m)) p q
                  (sym (buffer_to_bigint-be_from a p) ∙ same ∙ buffer_to_bigint-be_from b q) in
              λ i. keccak160_hash_nodes keccak_256 (e i) (sym e i)
        ]
      ]

  -- The proof that the helpers compute for a leaf leads from it, sibling by sibling, to the root
  -- that they compute for the whole batch; it is not longer than the batch and consists of hashes
  -- of 20 bytes. Given: leaves that are different objects and such hashes, and a hash function of
  -- 32 bytes.
  pub compute_merkle_proof-climb :
      (b next i : ℕ) (batch : List Object) (target : Object)
      → IsNumbered b batch
      → b + length batch ≤ next
      → All IsNode (contents batch)
      → get_elem? batch i ≡ some target
      → (climb keccak_256 target.bytes
              (contents (compute_merkle_proof keccak_256 next target batch))
            ∷ []
          ≡ merkle_leaves keccak_256 (length batch) (contents batch))
        × (length (compute_merkle_proof keccak_256 next target batch) ≤ length batch)
        × All IsNode (contents (compute_merkle_proof keccak_256 next target batch))
  unfolding compute_merkle_proof
  compute_merkle_proof-climb b next i batch target n h a g =
      let (steps, p, c, l, q) =
        climbs keccak_256 IsNode hash_nodes_comm (length batch) b next i batch target []
          hash_nodes-IsNode (omega arith) n h a g in
      rw p (c, l, q)

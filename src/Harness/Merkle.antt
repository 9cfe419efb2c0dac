-- ===== src/Harness/Merkle.antt =====
-- unit-tests/pyth/helpers.ts: the Merkle tree over the messages of a batch. JavaScript compares
-- buffers with === by reference, so a node has the number of its object, and new objects are
-- numbered on.
pub mod Proof
pub mod Steps
pub mod Root
pub mod Loops
use stacks_pyth_bridge.Prelude.{
  ℕ, zero, suc, ◌+◌, Bool, true, false, List, [], ◌∷◌, ◌++◌, ◌==◌, ltb, if◌then◌else◌, length, take,
  map,
}
use stacks_pyth_bridge.Prelude.Bytes.{Bytes}
use stacks_pyth_bridge.Harness.Buffers.{buffer_to_bigint}

-- A Uint8Array.
pub record Object : Type 0 where
  pub ref : ℕ
  pub bytes : Bytes

-- `===`
abbrev pub is_same : Object → Object → Bool
is_same a b = a.ref == b.ref

-- The loop `for (let i = 0; i < merkleLeaves.length; i += 2)` with what it changes: the parents, the
-- number of the next object, the node whose proof is sought, and the proof.
pub record Level : Type 0 where
  pub new_leaves : List Object
  pub next : ℕ
  pub target_hash : Object
  pub proof : List Object

-- The proof takes the sibling of the node that is sought, which then is the parent.
unfoldable pub capture : Object → Object → Object → Object → List Object → Object × List Object
capture left right parent target_hash proof =
    if is_same left target_hash
    then (parent, proof ++ right ∷ [])
    else if is_same right target_hash
    then (parent, proof ++ left ∷ [])
    else (target_hash, proof)

abbrev pub with_leaf : Object → Level → Level
with_leaf parent r = record {
  new_leaves = parent ∷ r.new_leaves;
  next = r.next;
  target_hash = r.target_hash;
  proof = r.proof;
}

-- `keccak_256` is the function of @noble/hashes.
module _ (keccak_256 : Bytes → Bytes) where
  unfoldable pub keccak160_hash_nodes : Bytes → Bytes → Bytes
  keccak160_hash_nodes node1 node2 =
      if ltb (buffer_to_bigint node2) (buffer_to_bigint node1)
      then take 20 (keccak_256 (1 ∷ (node2 ++ node1)))
      else take 20 (keccak_256 (1 ∷ (node1 ++ node2)))

  unfoldable pub keccak160_hash_leaf : Bytes → Bytes
  keccak160_hash_leaf leaf = take 20 (keccak_256 (0 ∷ leaf))

  -- Adjacent pairs, the last leaf with itself where their number is odd.
  unfoldable pub hash_level : List Bytes → List Bytes
  unfolding keccak160_hash_nodes
  hash_level [] = []
  hash_level (left ∷ []) = keccak160_hash_nodes left left ∷ []
  hash_level (left ∷ right ∷ leaves) = keccak160_hash_nodes left right ∷ hash_level leaves

  -- `while (merkleLeaves.length > 1)` of buildAuwvVaaPayload; the length of the list is enough fuel.
  unfoldable pub merkle_leaves : ℕ → List Bytes → List Bytes
  unfolding hash_level
  merkle_leaves zero leaves = leaves
  merkle_leaves (suc fuel) leaves =
      let rest = merkle_leaves fuel (hash_level leaves) in
      if ltb 1 (length leaves) then rest else leaves

  abbrev pub parent_of : ℕ → Object → Object → Object
  parent_of next left right = record {
    ref = next;
    bytes = keccak160_hash_nodes left.bytes right.bytes;
  }

  unfoldable pub proof_level : ℕ → List Object → Object → List Object → Level
  unfolding capture
  proof_level next [] target_hash proof = record {
    new_leaves = [];
    next = next;
    target_hash = target_hash;
    proof = proof;
  }
  proof_level next (left ∷ []) target_hash proof =
      let parent = parent_of next left left in
      let step = capture left left parent target_hash proof in
      record { new_leaves = parent ∷ []; next = suc next; target_hash = step.0; proof = step.1 }
  proof_level next (left ∷ right ∷ leaves) target_hash proof =
      let parent = parent_of next left right in
      let step = capture left right parent target_hash proof in
      with_leaf parent (proof_level (suc next) leaves step.0 step.1)

  -- The loop of computeMerkleProof.
  unfoldable pub proof_loop : ℕ → ℕ → List Object → Object → List Object → List Object
  unfolding proof_level
  proof_loop zero next merkle_leaves target_hash proof = proof
  proof_loop (suc fuel) next merkle_leaves target_hash proof =
      let level = proof_level next merkle_leaves target_hash proof in
      let rest = proof_loop fuel level.next level.new_leaves level.target_hash level.proof in
      if ltb 1 (length merkle_leaves) then rest else proof

  -- `next` is the number of the next object.
  unfoldable pub compute_merkle_proof : ℕ → Object → List Object → List Object
  unfolding proof_loop
  compute_merkle_proof next target_leaf batch = proof_loop (length batch) next batch target_leaf []

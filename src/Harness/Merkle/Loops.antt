-- ===== src/Harness/Merkle/Loops.antt =====
-- The loops of unit-tests/pyth/helpers.ts over the levels of the Merkle tree end: the number of leaves
-- is enough fuel.
use stacks_pyth_bridge.Prelude.{
  ℕ, zero, suc, ◌+◌, ◌<◌, ◌≤◌, ◌≡◌, refl, true, false, List, [], ◌∷◌, ltb, length, arith,
}
use stacks_pyth_bridge.Prelude.Bytes.{Bytes}
use stacks_pyth_bridge.Harness.Merkle.{
  Object, hash_level, merkle_leaves, proof_level, proof_loop, compute_merkle_proof,
}
use stacks_pyth_bridge.Harness.Merkle.Proof.{shorter, loop_once, leaves_once}

module _ (keccak_256 : Bytes → Bytes) where
  level_shorter :
      (x y : Bytes) (xs : List Bytes) → length (hash_level keccak_256 (x ∷ y ∷ xs)) < 2 + length xs
  unfolding hash_level
  level_shorter x y [] = omega arith
  level_shorter x y (z ∷ []) = omega arith
  level_shorter x y (z ∷ w ∷ xs) = omega (arith, level_shorter z w xs)

  leaves_idle :
      (fuel : ℕ) (leaves : List Bytes)
      → length leaves ≤ 1
      → merkle_leaves keccak_256 fuel leaves ≡ leaves
  unfolding merkle_leaves
  leaves_idle zero leaves h = refl
  leaves_idle (suc fuel) leaves h =
      let short : ltb 1 (length leaves) ≡ false = ground arith in rw short

  loop_idle :
      (fuel next : ℕ) (leaves : List Object) (target : Object) (proof : List Object)
      → length leaves ≤ 1
      → proof_loop keccak_256 fuel next leaves target proof ≡ proof
  unfolding proof_loop
  loop_idle zero next leaves target proof h = refl
  loop_idle (suc fuel) next leaves target proof h =
      let short : ltb 1 (length leaves) ≡ false = ground arith in rw short

  leaves_settled :
      (fuel more : ℕ) (leaves : List Bytes)
      → length leaves ≤ fuel
      → length leaves ≤ more
      → (length (merkle_leaves keccak_256 fuel leaves) ≤ 1)
        × (merkle_leaves keccak_256 fuel leaves ≡ merkle_leaves keccak_256 more leaves)
  leaves_settled fuel more [] h m =
      rw (leaves_idle fuel [] (omega arith), leaves_idle more [] (omega arith)) (omega arith, refl)
  leaves_settled fuel more (x ∷ []) h m =
      rw (leaves_idle fuel (x ∷ []) (omega arith), leaves_idle more (x ∷ []) (omega arith))
        (omega arith, refl)
  leaves_settled zero more (x ∷ y ∷ xs) h m = absurd (omega arith)
  leaves_settled (suc fuel) zero (x ∷ y ∷ xs) h m = absurd (omega arith)
  leaves_settled (suc fuel) (suc more) (x ∷ y ∷ xs) h m =
      let less = level_shorter x y xs in
      let long : ltb 1 (length (x ∷ y ∷ xs)) ≡ true = ground arith in
      rw
        (
          leaves_once keccak_256 fuel (x ∷ y ∷ xs) long,
          leaves_once keccak_256 more (x ∷ y ∷ xs) long,
        )
        (leaves_settled fuel more (hash_level keccak_256 (x ∷ y ∷ xs)) (omega arith) (omega arith))

  loop_settled :
      (fuel more next : ℕ) (leaves : List Object) (target : Object) (proof : List Object)
      → length leaves ≤ fuel
      → length leaves ≤ more
      → proof_loop keccak_256 fuel next leaves target proof
        ≡ proof_loop keccak_256 more next leaves target proof
  loop_settled fuel more next [] target proof h m = rw (
    loop_idle fuel next [] target proof (omega arith),
    loop_idle more next [] target proof (omega arith),
  )
  loop_settled fuel more next (x ∷ []) target proof h m = rw (
    loop_idle fuel next (x ∷ []) target proof (omega arith),
    loop_idle more next (x ∷ []) target proof (omega arith),
  )
  loop_settled zero more next (x ∷ y ∷ xs) target proof h m = absurd (omega arith)
  loop_settled (suc fuel) zero next (x ∷ y ∷ xs) target proof h m = absurd (omega arith)
  loop_settled (suc fuel) (suc more) next (x ∷ y ∷ xs) target proof h m =
      let less = shorter keccak_256 next x y xs target proof in
      let long : ltb 1 (length (x ∷ y ∷ xs)) ≡ true = ground arith in
      let r = proof_level keccak_256 next (x ∷ y ∷ xs) target proof in
      rw
        (
          loop_once keccak_256 fuel next (x ∷ y ∷ xs) target proof long,
          loop_once keccak_256 more next (x ∷ y ∷ xs) target proof long,
        )
        (loop_settled fuel more r.next r.new_leaves r.target_hash r.proof (omega arith)
          (omega arith))

  -- Both loops over the levels of the Merkle tree end: with the number of leaves as fuel the one
  -- leaves at most one node, and more fuel changes neither its result nor the proof of the other.
  pub merkle_loops-end :
      (more next : ℕ) (leaves : List Bytes) (batch : List Object) (target : Object)
      → length leaves ≤ more
      → length batch ≤ more
      → (length (merkle_leaves keccak_256 (length leaves) leaves) ≤ 1)
        × (merkle_leaves keccak_256 (length leaves) leaves ≡ merkle_leaves keccak_256 more leaves)
        × (compute_merkle_proof keccak_256 next target batch
            ≡ proof_loop keccak_256 more next batch target [])
  unfolding compute_merkle_proof
  merkle_loops-end more next leaves batch target h m =
      let (l, e) = leaves_settled (length leaves) more leaves (omega arith) h in
      (l, e, loop_settled (length batch) more next batch target [] (omega arith) m)

-- ===== src/Harness/Merkle/Proof.antt =====
-- The levels of the tree of buildAuwvVaaPayload (unit-tests/pyth/helpers.ts), as computeMerkleProof walks
-- them.
use stacks_pyth_bridge.Prelude.{
  ℕ, zero, suc, ◌+◌, ◌<◌, ◌≤◌, ◌≡◌, ◌≢◌, refl, ap, true, some, List, [], ◌∷◌, ◌++◌, ltb, length,
  map, get_elem?, arith,
}
use stacks_pyth_bridge.Prelude.Bytes.{Bytes}
use stacks_pyth_bridge.Harness.Merkle.{
  Object, keccak160_hash_nodes, hash_level, merkle_leaves, parent_of, capture, with_leaf,
  proof_level, proof_loop,
}

-- Objects numbered from b on.
abbrev pub IsNumbered : ℕ → List Object → Type 0
IsNumbered b [] = Unit
IsNumbered b (x ∷ xs) = (x.ref ≡ b) × IsNumbered (suc b) xs

abbrev pub contents : List Object → List Bytes
contents xs = map (λ (x : Object). x.bytes) xs

pub capture_other :
    (left right parent target : Object) (proof : List Object)
    → left.ref ≢ target.ref
    → right.ref ≢ target.ref
    → capture left right parent target proof ≡ (target, proof)
unfolding capture
capture_other left right parent target proof a b = ground arith

pub capture_left :
    (left right parent target : Object) (proof : List Object)
    → left.ref ≡ target.ref
    → capture left right parent target proof ≡ (parent, proof ++ right ∷ [])
unfolding capture
capture_left left right parent target proof a = ground arith

pub capture_right :
    (left right parent target : Object) (proof : List Object)
    → left.ref ≢ target.ref
    → right.ref ≡ target.ref
    → capture left right parent target proof ≡ (parent, proof ++ left ∷ [])
unfolding capture
capture_right left right parent target proof a b = ground arith

module _ (keccak_256 : Bytes → Bytes) where
  -- From a node up by its siblings, which is how a proof is checked.
  abbrev pub climb : Bytes → List Bytes → Bytes
  climb node [] = node
  climb node (sibling ∷ proof) = climb (keccak160_hash_nodes keccak_256 node sibling) proof

  pub later :
      (b i : ℕ) (leaves : List Object) (target : Object)
      → IsNumbered b leaves
      → get_elem? leaves i ≡ some target
      → b ≤ target.ref
  later b i [] target n g = cc g
  later b zero (l ∷ leaves) target (e, n) g =
      let same : l ≡ target = cc g in omega (arith, ap (λ (x : Object). x.ref) same)
  later b (suc i) (l ∷ leaves) target (e, n) g = omega (arith, later (suc b) i leaves target n g)

  -- A level has the parents of the leaves, numbered on.
  pub contents-level :
      (next : ℕ) (leaves : List Object) (target : Object) (proof : List Object)
      → contents (proof_level keccak_256 next leaves target proof).new_leaves
        ≡ hash_level keccak_256 (contents leaves)
  unfolding proof_level hash_level
  contents-level next [] target proof = refl
  contents-level next (l ∷ []) target proof = refl
  contents-level next (l ∷ r ∷ leaves) target proof =
      ap (λ (t : List Bytes). keccak160_hash_nodes keccak_256 l.bytes r.bytes ∷ t)
        (contents-level (suc next) leaves _ _)

  pub IsNumbered-level :
      (next : ℕ) (leaves : List Object) (target : Object) (proof : List Object)
      → IsNumbered next (proof_level keccak_256 next leaves target proof).new_leaves
  unfolding proof_level
  IsNumbered-level next [] target proof = tt
  IsNumbered-level next (l ∷ []) target proof = (refl, tt)
  IsNumbered-level next (l ∷ r ∷ leaves) target proof =
      (refl, IsNumbered-level (suc next) leaves _ _)

  pub next-level :
      (next : ℕ) (leaves : List Object) (target : Object) (proof : List Object)
      → (proof_level keccak_256 next leaves target proof).next
        ≡ next + length (proof_level keccak_256 next leaves target proof).new_leaves
  unfolding proof_level
  next-level next [] target proof = omega arith
  next-level next (l ∷ []) target proof = omega arith
  next-level next (l ∷ r ∷ leaves) target proof = omega (arith, next-level (suc next) leaves _ _)

  pub level_pair :
      (next : ℕ) (l r : Object) (leaves : List Object) (target : Object) (proof : List Object)
      (c : Object × List Object)
      → capture l r (parent_of keccak_256 next l r) target proof ≡ c
      → proof_level keccak_256 next (l ∷ r ∷ leaves) target proof
        ≡ with_leaf
            (parent_of keccak_256 next l r)
            (proof_level keccak_256 (suc next) leaves c.0 c.1)
  unfolding proof_level
  level_pair next l r leaves target proof c e =
      ap
        (λ (t : Object × List Object).
          with_leaf (parent_of keccak_256 next l r)
            (proof_level keccak_256 (suc next) leaves t.0 t.1))
        e

  -- A node that is not among the leaves is left as it is.
  pub missed :
      (b next : ℕ) (leaves : List Object) (target : Object) (proof : List Object)
      → IsNumbered b leaves
      → b + length leaves ≤ target.ref
      → ((proof_level keccak_256 next leaves target proof).target_hash ≡ target)
        × ((proof_level keccak_256 next leaves target proof).proof ≡ proof)
  unfolding proof_level capture
  missed b next [] target proof n h = (refl, refl)
  missed b next (l ∷ []) target proof (e, n) h =
      rw
        (capture_other l l (parent_of keccak_256 next l l) target proof (λ x. omega (arith, x))
          (λ x. omega (arith, x)))
        (refl, refl)
  missed b next (l ∷ r ∷ leaves) target proof (e, (f, n)) h =
      rw
        (capture_other l r (parent_of keccak_256 next l r) target proof (λ x. omega (arith, x))
          (λ x. omega (arith, x)))
        (missed (suc (suc b)) (suc next) leaves target proof n (omega arith))

  no_longer :
      (next : ℕ) (leaves : List Object) (target : Object) (proof : List Object)
      → length (proof_level keccak_256 next leaves target proof).new_leaves ≤ length leaves
  unfolding proof_level
  no_longer next [] target proof = omega arith
  no_longer next (l ∷ []) target proof = omega arith
  no_longer next (l ∷ r ∷ leaves) target proof = omega (arith, no_longer (suc next) leaves _ _)

  pub shorter :
      (next : ℕ) (x y : Object) (xs : List Object) (target : Object) (proof : List Object)
      → length (proof_level keccak_256 next (x ∷ y ∷ xs) target proof).new_leaves < 2 + length xs
  unfolding proof_level
  shorter next x y xs target proof = omega (arith, no_longer (suc next) xs _ _)

  pub loop_once :
      (fuel next : ℕ) (leaves : List Object) (target : Object) (proof : List Object)
      → ltb 1 (length leaves) ≡ true
      → proof_loop keccak_256 (suc fuel) next leaves target proof
        ≡ proof_loop keccak_256 fuel
            (proof_level keccak_256 next leaves target proof).next
            (proof_level keccak_256 next leaves target proof).new_leaves
            (proof_level keccak_256 next leaves target proof).target_hash
            (proof_level keccak_256 next leaves target proof).proof
  unfolding proof_loop
  loop_once fuel next leaves target proof e = rw e

  pub leaves_once :
      (fuel : ℕ) (leaves : List Bytes)
      → ltb 1 (length leaves) ≡ true
      → merkle_leaves keccak_256 (suc fuel) leaves
        ≡ merkle_leaves keccak_256 fuel (hash_level keccak_256 leaves)
  unfolding merkle_leaves
  leaves_once fuel leaves e = rw e

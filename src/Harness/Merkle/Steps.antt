-- ===== src/Harness/Merkle/Steps.antt =====
-- The proofs of computeMerkleProof (unit-tests/pyth/helpers.ts) lead to the root of
-- buildAuwvVaaPayload.
use stacks_pyth_bridge.Prelude.{
  ℕ, zero, suc, ◌+◌, ◌≤◌, ◌≡◌, refl, sym, ap, ◌∙◌, true, some, List, [], ◌∷◌, ◌++◌, ltb, length,
  get_elem?, arith, All, append_assoc, append-nil, subst,
}
use stacks_pyth_bridge.Prelude.Bytes.{Bytes}
use stacks_pyth_bridge.Harness.Merkle.{
  Object, Level, keccak160_hash_nodes, hash_level, merkle_leaves, parent_of, proof_level,
  proof_loop,
}
use stacks_pyth_bridge.Harness.Merkle.Proof.{
  IsNumbered, contents, capture_other, capture_left, capture_right, missed, later, level_pair,
  contents-level, IsNumbered-level, next-level, shorter, loop_once, leaves_once, climb,
}

module _ (keccak_256 : Bytes → Bytes) where
  -- A step of the proof: its sibling leads from the node to the new one, which is among the parents.
  abbrev IsStep : (Bytes → Type 0) → Object → List Object → Level → Type 0
  IsStep node target proof r =
      (sibling : Object) × (i : ℕ) × node sibling.bytes
      × (r.proof ≡ proof ++ sibling ∷ [])
      × (get_elem? r.new_leaves i ≡ some r.target_hash)
      × (keccak160_hash_nodes keccak_256 target.bytes sibling.bytes ≡ r.target_hash.bytes)

  -- Two nodes whose order does not matter.
  abbrev Commutes : Bytes → Bytes → Type 0
  Commutes a b = keccak160_hash_nodes keccak_256 a b ≡ keccak160_hash_nodes keccak_256 b a

  module _ (node : Bytes → Type 0) (commutes : (a b : Bytes) → node a → node b → Commutes a b) where
    found :
        (b next i : ℕ) (leaves : List Object) (target : Object) (proof : List Object)
        → IsNumbered b leaves
        → b + length leaves ≤ next
        → All node (contents leaves)
        → get_elem? leaves i ≡ some target
        → IsStep node target proof (proof_level keccak_256 next leaves target proof)
    unfolding proof_level
    found b next i [] target proof n h a g = cc g
    found b next zero (l ∷ []) target proof (e, n) h (p, a) g =
        let same : l ≡ target = cc g in
        rw
          (capture_left l l (parent_of keccak_256 next l l) target proof
            (ap (λ (x : Object). x.ref) same))
          (
            l,
            0,
            p,
            refl,
            refl,
            ap (λ (x : Object). keccak160_hash_nodes keccak_256 x.bytes l.bytes) (sym same),
          )
    found b next (suc i) (l ∷ []) target proof (e, n) h a g = cc g
    found b next zero (l ∷ r ∷ leaves) target proof (e, (f, n)) h (p, (q, a)) g =
        let same : l ≡ target = cc g in
        let parent = parent_of keccak_256 next l r in
        let (x, y) =
          missed keccak_256 (suc (suc b)) (suc next) leaves parent (proof ++ r ∷ []) n
            (omega arith) in
        rw (capture_left l r parent target proof (ap (λ (x : Object). x.ref) same)) (
          r,
          0,
          q,
          y,
          ap (λ (t : Object). some t) (sym x),
          ap (λ (x : Object). keccak160_hash_nodes keccak_256 x.bytes r.bytes) (sym same)
              ∙ ap (λ (t : Object). t.bytes) (sym x),
        )
    found b next (suc zero) (l ∷ r ∷ leaves) target proof (e, (f, n)) h (p, (q, a)) g =
        let same : r ≡ target = cc g in
        let parent = parent_of keccak_256 next l r in
        let at : r.ref ≡ target.ref = ap (λ (x : Object). x.ref) same in
        let (x, y) =
          missed keccak_256 (suc (suc b)) (suc next) leaves parent (proof ++ l ∷ []) n
            (omega arith) in
        rw (capture_right l r parent target proof (λ z. omega (arith, z, at)) at) (
          l,
          0,
          p,
          y,
          ap (λ (t : Object). some t) (sym x),
          ap (λ (x : Object). keccak160_hash_nodes keccak_256 x.bytes l.bytes) (sym same)
              ∙ commutes r.bytes l.bytes q p
              ∙ ap (λ (t : Object). t.bytes) (sym x),
        )
    found b next (suc (suc i)) (l ∷ r ∷ leaves) target proof (e, (f, n)) h (p, (q, a)) g =
        let at = later keccak_256 (suc (suc b)) i leaves target n g in
        let (s, j, m, x, y, z) =
          found (suc (suc b)) (suc next) i leaves target proof n (omega arith) a g in
        subst (λ (t : Level). IsStep node target proof t)
          (sym (
            level_pair keccak_256 next l r leaves target proof (target, proof)
              (capture_other l r (parent_of keccak_256 next l r) target proof
                (λ u. omega (arith, u, at)) (λ u. omega (arith, u, at)))))
          (s, suc j, m, x, y, z)

    made_level :
        ((a b : Bytes) → node (keccak160_hash_nodes keccak_256 a b))
        → (xs : List Bytes) → All node (hash_level keccak_256 xs)
    unfolding hash_level
    made_level made [] = tt
    made_level made (x ∷ []) = (made x x, tt)
    made_level made (x ∷ y ∷ xs) = (made x y, made_level made xs)

    -- Each level of the tree is a step of the proof.
    pub climbs :
        (fuel b next i : ℕ) (leaves : List Object) (target : Object) (proof : List Object)
        → ((a b : Bytes) → node (keccak160_hash_nodes keccak_256 a b))
        → length leaves ≤ fuel
        → IsNumbered b leaves
        → b + length leaves ≤ next
        → All node (contents leaves)
        → get_elem? leaves i ≡ some target
        → (steps : List Object) × (proof_loop keccak_256 fuel next leaves target proof
            ≡ proof ++ steps)
          × (climb keccak_256 target.bytes (contents steps) ∷ []
              ≡ merkle_leaves keccak_256 fuel (contents leaves))
          × (length steps ≤ fuel)
          × All node (contents steps)
    unfolding proof_loop merkle_leaves
    climbs zero b next i [] target proof made f n h a g = cc g
    climbs zero b next i (x ∷ xs) target proof made f n h a g = absurd (omega arith)
    climbs (suc fuel) b next i [] target proof made f n h a g = cc g
    climbs (suc fuel) b next zero (x ∷ []) target proof made f n h a g =
        let same : x ≡ target = cc g in
        ([], sym (append-nil proof), ap (λ (t : Object). t.bytes ∷ []) (sym same), omega arith, tt)
    climbs (suc fuel) b next (suc i) (x ∷ []) target proof made f n h a g = cc g
    climbs (suc fuel) b next i (x ∷ y ∷ xs) target proof made f n h a g =
        let leaves = x ∷ y ∷ xs in
        let r = proof_level keccak_256 next leaves target proof in
        let long : ltb 1 (length leaves) ≡ true = ground arith in
        let (s, j, node_s, px, gx, hx) = found b next i leaves target proof n h a g in
        let content = contents-level keccak_256 next leaves target proof in
        let (steps, px', c, len, all) =
          climbs fuel next r.next j r.new_leaves r.target_hash r.proof made
            (omega (arith, shorter keccak_256 next x y xs target proof))
            (IsNumbered-level keccak_256 next leaves target proof)
            (omega (arith, next-level keccak_256 next leaves target proof))
            (subst (λ (t : List Bytes). All node t) (sym content)
              (made_level made (contents leaves)))
            gx in
        (
          s ∷ steps,
          loop_once keccak_256 fuel next leaves target proof long
              ∙ px'
              ∙ ap (λ (t : List Object). t ++ steps) px
              ∙ append_assoc proof (s ∷ []) steps,
          ap (λ (t : Bytes). climb keccak_256 t (contents steps) ∷ []) hx
              ∙ c
              ∙ ap (λ (t : List Bytes). merkle_leaves keccak_256 fuel t) content
              ∙ sym (leaves_once keccak_256 fuel (contents leaves) long_contents),
          omega (arith, len),
          (node_s, all),
        )
      where
        long_contents : ltb 1 (length (contents (x ∷ y ∷ xs))) ≡ true
        long_contents = ground arith

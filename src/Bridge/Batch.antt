-- ===== src/Bridge/Batch.antt =====
-- A batch of price updates from unit-tests/pyth/helpers.ts: every message with its proof leads to the
-- root that the helpers put into the VAA.
use stacks_pyth_bridge.Prelude.{
  ℕ, suc, ◌+◌, ◌≤◌, ◌≡◌, refl, sym, ap, ◌∙◌, subst, List, [], ◌∷◌, ◌++◌, length, some, arith,
  append_assoc, All, map, get_elem?,
}
use stacks_pyth_bridge.Prelude.Bytes.{Bytes}
use stacks_pyth_bridge.Harness.Merkle.{
  Object, keccak160_hash_leaf, keccak160_hash_nodes, merkle_leaves, compute_merkle_proof,
}
use stacks_pyth_bridge.Harness.Merkle.Proof.{IsNumbered, contents, climb}
use stacks_pyth_bridge.Harness.Merkle.Root.{
  IsNode, IsHash, hash_leaf-IsNode, hash_nodes-IsNode, compute_merkle_proof-climb,
}
use stacks_pyth_bridge.Harness.Pnau.{
  PriceUpdate, PriceUpdateOptions, PriceUpdateBatch, AuwvOptions, bytes_of, build_price_update,
  preserialize_price_update_to_buffer, build_leaves, compute_proofs, build_price_update_batch,
  build_auwv_vaa_payload,
}
use stacks_pyth_bridge.Bridge.Ptgm.{bind-some}
use stacks_pyth_bridge.Bridge.Messages.{IsWritable}
use stacks_pyth_bridge.Bridge.Proofs.{IsHash20}
use stacks_pyth_bridge.Bridge.Prices.{AreSubmittable, length-bytes_of}

-- The updates that the specifications ask for.
abbrev pub requested : ℕ → List (Object × PriceUpdateOptions) → List PriceUpdate
requested date specs =
    map (λ (s : Object × PriceUpdateOptions). build_price_update date s.0 s.1) specs

-- Each message is that of its update.
abbrev Serialized : List PriceUpdate → List Bytes → Type 0
Serialized [] [] = Unit
Serialized (p ∷ ps) (m ∷ ms) = (preserialize_price_update_to_buffer p ≡ some m) × Serialized ps ms
Serialized _ _ = ⊥

get_elem?-append :
    (front : List Object) (x : Object) (rest : List Object)
    → get_elem? (front ++ x ∷ rest) (length front) ≡ some x
get_elem?-append [] x rest = refl
get_elem?-append (y ∷ front) x rest = get_elem?-append front x rest

nodes-IsHash20 : (bs : List Bytes) → All IsNode bs → All IsHash20 bs
nodes-IsHash20 [] a = tt
nodes-IsHash20 (b ∷ bs) ((l, x), a) = (l, nodes-IsHash20 bs a)

first_root :
    (x : Bytes) (leaves : List Bytes) {root : Bytes}
    → x ∷ [] ≡ leaves
    → get_elem? leaves 0 ≡ some root
    → x ≡ root
first_root x leaves c g = cc (ap (λ (t : List Bytes). get_elem? t 0) c, g)

module _ (keccak_256 : Bytes → Bytes) where
  -- Each message leads to the root.
  abbrev pub AreRooted : Bytes → List Bytes → List (List Object) → Type 0
  AreRooted root (m ∷ ms) (proof ∷ proofs) =
      (climb keccak_256 (keccak160_hash_leaf keccak_256 m) (bytes_of proof) ≡ root)
      × AreRooted root ms proofs
  AreRooted root _ _ = Unit

module _ (keccak_256 : Bytes → Bytes) (is_hash : IsHash keccak_256) where
  -- What build_leaves has made.
  abbrev Built : ℕ → List PriceUpdate → List Bytes → List Object → Type 0
  Built next ps ms hs =
      Serialized ps ms
      × IsNumbered next hs
      × (contents hs ≡ map (keccak160_hash_leaf keccak_256) ms)
      × All IsNode (contents hs)

  abbrev Made :
      ℕ
      → ℕ
      → List (Object × PriceUpdateOptions)
      → List PriceUpdate × (List Bytes × List Object)
      → Type 0
  Made date next specs t =
      (t.0 ≡ requested date specs) × (length t.1.1 ≡ length specs) × Built next t.0 t.1.0 t.1.1

  build_leaves-Made :
      (date next : ℕ) (specs : List (Object × PriceUpdateOptions))
      (t : List PriceUpdate × (List Bytes × List Object))
      → build_leaves keccak_256 date next specs ≡ some t
      → Made date next specs t
  unfolding build_leaves
  build_leaves-Made date next [] t h =
      let e : ([], ([], [])) ≡ t = cc h in
      subst (λ (u : List PriceUpdate × (List Bytes × List Object)). Made date next [] u) e
        (refl, refl, (tt, tt, refl, tt))
  build_leaves-Made date next ((id, opts) ∷ specs) t h =
      let p = build_price_update date id opts in
      let (m, e, h1) = bind-some (preserialize_price_update_to_buffer p) _ h in
      let (r, e', g) = bind-some (build_leaves keccak_256 date (suc next) specs) _ h1 in
      let (f, l, (s, n, c, a)) = build_leaves-Made date (suc next) specs r e' in
      let leaf : Object = record { ref = next; bytes = keccak160_hash_leaf keccak_256 m } in
      let same : (p ∷ r.0, (m ∷ r.1.0, leaf ∷ r.1.1)) ≡ t = cc g in
      subst
        (λ (u : List PriceUpdate × (List Bytes × List Object)).
          Made date next ((id, opts) ∷ specs) u)
        same
        (
          ap (λ (x : List PriceUpdate). p ∷ x) f,
          ap suc l,
          (
            (e, s),
            (refl, n),
            ap (λ (x : List Bytes). keccak160_hash_leaf keccak_256 m ∷ x) c,
            (hash_leaf-IsNode keccak_256 is_hash m, a),
          ),
        )

  climb-IsNode :
      (node : Bytes) (proof : List Bytes) → IsNode node → IsNode (climb keccak_256 node proof)
  climb-IsNode node [] n = n
  climb-IsNode node (x ∷ proof) n =
      climb-IsNode (keccak160_hash_nodes keccak_256 node x) proof
        (hash_nodes-IsNode keccak_256 is_hash node x)

  root_size :
      (root : Bytes) (b next : ℕ) (hashed : List Object)
      → IsNumbered b hashed
      → b + length hashed ≤ next
      → All IsNode (contents hashed)
      → get_elem? (merkle_leaves keccak_256 (length hashed) (contents hashed)) 0 ≡ some root
      → length root ≡ 20
  unfolding merkle_leaves
  root_size root b next [] n f a g = cc g
  root_size root b next (h ∷ hs) n f a g =
      let (c, l, s) =
        compute_merkle_proof-climb keccak_256 is_hash b next 0 (h ∷ hs) h n f a refl in
      let proof = contents (compute_merkle_proof keccak_256 next h (h ∷ hs)) in
      let (size, bytes) = climb-IsNode h.bytes proof (a.0) in
      ap (λ (t : Bytes). length t) (sym (first_root _ _ c g)) ∙ size

  module _ (root : Bytes) (b next : ℕ) (hashed : List Object) (numbered : IsNumbered b hashed)
      (fresh : b + length hashed ≤ next) (nodes : All IsNode (contents hashed))
      (rooted : get_elem? (merkle_leaves keccak_256 (length hashed) (contents hashed)) 0
        ≡ some root)
      (few : length hashed ≤ 128) where
    one_proof :
        (i : ℕ) (x : Object)
        → get_elem? hashed i ≡ some x
        → (climb keccak_256 x.bytes (bytes_of (compute_merkle_proof keccak_256 next x hashed))
            ≡ root)
          × (length (bytes_of (compute_merkle_proof keccak_256 next x hashed)) ≤ 128)
          × All IsHash20 (bytes_of (compute_merkle_proof keccak_256 next x hashed))
    one_proof i x g =
        let proof = compute_merkle_proof keccak_256 next x hashed in
        let (c, l, a) =
          compute_merkle_proof-climb keccak_256 is_hash b next i hashed x numbered fresh nodes g in
        (
          first_root _ _ c rooted,
          omega (arith, length-bytes_of proof),
          nodes-IsHash20 (bytes_of proof) a,
        )

    compute_proofs-AreRooted :
        (front hs : List Object) (ps : List PriceUpdate) (ms : List Bytes)
        → hashed ≡ front ++ hs
        → Serialized ps ms
        → All IsWritable ps
        → contents hs ≡ map (keccak160_hash_leaf keccak_256) ms
        → AreSubmittable ps ms (compute_proofs keccak_256 next hashed hs)
          × AreRooted keccak_256 root ms (compute_proofs keccak_256 next hashed hs)
    unfolding compute_proofs
    compute_proofs-AreRooted front hs [] [] f s w c = (tt, tt)
    compute_proofs-AreRooted front hs [] (m ∷ ms) f s w c = absurd s
    compute_proofs-AreRooted front hs (p ∷ ps) [] f s w c = absurd s
    compute_proofs-AreRooted front [] (p ∷ ps) (m ∷ ms) f s w c = cc c
    compute_proofs-AreRooted front (h ∷ hs) (p ∷ ps) (m ∷ ms) f (e, s) (u, w) c =
        let same : h.bytes ≡ keccak160_hash_leaf keccak_256 m = cc c in
        let later : contents hs ≡ map (keccak160_hash_leaf keccak_256) ms = cc c in
        let at =
          ap (λ (t : List Object). get_elem? t (length front)) f ∙ get_elem?-append front h hs in
        let (x, y, z) = one_proof (length front) h at in
        let (q, r) =
          compute_proofs-AreRooted (front ++ h ∷ []) hs ps ms
            (f ∙ sym (append_assoc front (h ∷ []) hs)) s w later in
        let proof = compute_merkle_proof keccak_256 next h hashed in
        (
          (record { writable = u; serialized = e; short = y; hashes = z }, q),
          (ap (λ (t : Bytes). climb keccak_256 t (bytes_of proof)) (sym same) ∙ x, r),
        )

  -- A batch.
  pub build_price_update_batch-AreRooted :
      (date next : ℕ) (specs : List (Object × PriceUpdateOptions)) (batch : PriceUpdateBatch)
      (opts : AuwvOptions) (root : Bytes)
      → All IsWritable (requested date specs)
      → length specs ≤ 128
      → build_price_update_batch keccak_256 date next specs ≡ some batch
      → (build_auwv_vaa_payload keccak_256 batch opts).merkle_root_hash ≡ some root
      → (batch.decoded ≡ requested date specs)
        × AreSubmittable batch.decoded batch.serialized batch.proofs
        × AreRooted keccak_256 root batch.serialized batch.proofs
        × (length root ≡ 20)
  unfolding build_price_update_batch build_auwv_vaa_payload
  build_price_update_batch-AreRooted date next specs batch opts root w few h g =
      let (t, e, h1) = bind-some (build_leaves keccak_256 date next specs) _ h in
      let (f, l, (s, n, c, a)) = build_leaves-Made date next specs t e in
      let made : PriceUpdateBatch = record {
        decoded = t.0;
        serialized = t.1.0;
        hashed = t.1.1;
        proofs = compute_proofs keccak_256 (next + length t.1.1) t.1.1 t.1.1;
      } in
      let same : made ≡ batch = cc h1 in
      let top =
        subst
          (λ (x : PriceUpdateBatch).
            (build_auwv_vaa_payload keccak_256 x opts).merkle_root_hash ≡ some root)
          (sym same) g in
      let (x, y) =
        compute_proofs-AreRooted root next (next + length t.1.1) t.1.1 n (omega arith) a top
          (omega (arith, l)) [] t.1.1 t.0 t.1.0 refl s
          (subst (λ (ps : List PriceUpdate). All IsWritable ps) (sym f) w) c in
      subst
        (λ (x : PriceUpdateBatch).
          (x.decoded ≡ requested date specs)
          × AreSubmittable x.decoded x.serialized x.proofs
          × AreRooted keccak_256 root x.serialized x.proofs
          × (length root ≡ 20))
        same (f, x, y, root_size root next (next + length t.1.1) t.1.1 n (omega arith) a top)

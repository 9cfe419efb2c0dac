-- ===== src/Pnau/Sound.antt =====
-- What the decoder of contracts/pyth-pnau-decoder-v1.clar has checked of the prices that it returns.
use stacks_pyth_bridge.Prelude.{
  ℕ, ◌≡◌, sym, ◌∙◌, subst, ◌⊎◌, inl, inr, Bool, true, ◌&&◌, ◌==◌, List, [], ◌∷◌, map, none, some,
  arith, All, Bool-cases,
}
use stacks_pyth_bridge.Prelude.Bytes.{Bytes, bytes_eq, bytes_eq_sound}
use stacks_pyth_bridge.Clarity.Outcome.{ok, ◌>>=◌, ◌>>◌, >>=-eq-ok, asserts, asserts-true, unwrap}
use stacks_pyth_bridge.Clarity.Cursor.{Reading, HkCursor, HkCursorLaws}
use stacks_pyth_bridge.Clarity.Walk.{Walk, walk, walk-All}
use stacks_pyth_bridge.Clarity.Types.{DataSource, Vaa, WormholeCore, data_source_eq}
use stacks_pyth_bridge.Governance.{Governance}
use stacks_pyth_bridge.Store.{PriceEntry}
use stacks_pyth_bridge.Pnau.{
  MerkleRootData, PnauHeader, is_authorized, cast_decoded_price,
  parse_merkle_root_data_from_vaa_payload, parse_pnau_header, decode_pnau_price_update, auwv_magic,
  err_unauthorized_price_update, err_invalid_auwv,
}
use stacks_pyth_bridge.Pnau.Leaf.{IsUpdateOf, read_price_info-IsUpdateOf}
use stacks_pyth_bridge.Pnau.Updates.{
  PriceInfo, HkMerkle, check_merkle_proofs, parse_and_verify_prices_updates, read_price_info,
  merkle_root_mismatch, err_magic_bytes, err_proof_type,
}

-- A member of a list.
abbrev pub IsMember : DataSource → List DataSource → Type 0
IsMember source [] = ⊥
IsMember source (s ∷ sources) = (s ≡ source) ⊎ IsMember source sources

data_source_eq_sound : (a b : DataSource) → data_source_eq a b ≡ true → a ≡ b
unfolding data_source_eq
data_source_eq_sound a b h =
    let chain : a.emitter_chain ≡ b.emitter_chain = ground arith in
    let same : bytes_eq a.emitter_address b.emitter_address ≡ true = ground arith in
    let address = bytes_eq_sound a.emitter_address b.emitter_address same in
    λ i. record { emitter_chain = chain i; emitter_address = address i }

is_authorized-IsMember :
    (source : DataSource) (sources : List DataSource)
    → is_authorized source sources ≡ true
    → IsMember source sources
unfolding is_authorized
is_authorized-IsMember source [] h = cc
is_authorized-IsMember source (s ∷ sources) h = elim (Bool-cases (data_source_eq s source)) [
  | inl same ↦ inl (data_source_eq_sound s source same)
  | inr other ↦ inr (is_authorized-IsMember source sources (rw other at h))
]

module _ (k : HkCursor) (merkle : HkMerkle) where
  -- The proof of an update leads to the root.
  abbrev pub IsProven : Bytes → PriceInfo → Type 0
  IsProven root u = merkle.check_proof root u.leaf_bytes u.proof ≡ true

  check_merkle_proofs-All :
      (root : Bytes) (us : List PriceInfo) (t : Bool)
      → check_merkle_proofs k merkle root us t ≡ true
      → (t ≡ true) × All (IsProven root) us
  unfolding check_merkle_proofs
  check_merkle_proofs-All root [] t h = (h, tt)
  check_merkle_proofs-All root (u ∷ us) t h =
      let (e, a) =
        check_merkle_proofs-All root us (t && merkle.check_proof root u.leaf_bytes u.proof) h in
      (ground arith, (ground arith, a))

  verified_updates :
      (bytes root : Bytes) (us : List PriceInfo)
      → parse_and_verify_prices_updates k merkle bytes root ≡ ok us
      → All (IsProven root) us
  unfolding parse_and_verify_prices_updates
  verified_updates bytes root us h =
      let (count, e0, h0) = >>=-eq-ok (k.read_uint 1 (record { bytes = bytes; pos = 0 })) _ h in
      let (w, e1, h1) =
        >>=-eq-ok
          (walk (read_price_info k (k.slice count.next none)) 64 (k.slice count.next none)
            (record { index = 0; next_update_index = 0; result = []; limit = count.value }))
          _ h0 in
      let (u, e2, h2) =
        >>=-eq-ok (asserts (check_merkle_proofs k merkle root w.result true) merkle_root_mismatch) _
          h1 in
      let e : w.result ≡ us = cc h2 in
      subst (λ (t : List PriceInfo). All (IsProven root) t) e
        (check_merkle_proofs-All root w.result true (asserts-true _ _ e2)).1

  read_updates :
      (laws : HkCursorLaws k) (bytes root : Bytes) (us : List PriceInfo)
      → parse_and_verify_prices_updates k merkle bytes root ≡ ok us
      → (count : Reading ℕ) × (k.read_uint 1 (record { bytes = bytes; pos = 0 }) ≡ ok count)
        × All (IsUpdateOf k (k.slice count.next none)) us
  unfolding parse_and_verify_prices_updates
  read_updates laws bytes root us h =
      let (count, e0, h0) = >>=-eq-ok (k.read_uint 1 (record { bytes = bytes; pos = 0 })) _ h in
      let start : Walk PriceInfo = record {
        index = 0;
        next_update_index = 0;
        result = [];
        limit = count.value;
      } in
      let entries = k.slice count.next none in
      let (w, e1, h1) = >>=-eq-ok (walk (read_price_info k entries) 64 entries start) _ h0 in
      let (u, e2, h2) =
        >>=-eq-ok (asserts (check_merkle_proofs k merkle root w.result true) merkle_root_mismatch) _
          h1 in
      let e : w.result ≡ us = cc h2 in
      (
        count,
        e0,
        subst (All (IsUpdateOf k entries)) e (
            walk-All (read_price_info k entries) 64 (IsUpdateOf k entries)
              (read_price_info-IsUpdateOf k laws entries) entries start w e1 tt),
      )

  root_kind :
      (x0 : Reading Bytes) (x1 x2 x3 : Reading ℕ) (x4 : Reading Bytes) (r : Reading MerkleRootData)
      → (do
        asserts (bytes_eq x0.value auwv_magic) err_magic_bytes
        asserts (x1.value == 0) err_proof_type
        ok (record {
          value = record {
            merkle_root_slot = x2.value;
            merkle_root_ring_size = x3.value;
            merkle_root_hash = x4.value;
            payload_type = x0.value;
          };
          next = x4.next;
        }))
        ≡ ok r
      → r.value.payload_type ≡ auwv_magic
  root_kind x0 x1 x2 x3 x4 r h =
      let (u, e, h1) = >>=-eq-ok (asserts (bytes_eq x0.value auwv_magic) err_magic_bytes) _ h in
      let (u', e', h2) = >>=-eq-ok (asserts (x1.value == 0) err_proof_type) _ h1 in
      let same : x0.value ≡ r.value.payload_type = cc h2 in
      sym same ∙ bytes_eq_sound x0.value auwv_magic (asserts-true _ _ e)

  -- The payload is of the kind that carries a root.
  root_magic :
      (payload : Bytes) (r : Reading MerkleRootData)
      → parse_merkle_root_data_from_vaa_payload k payload ≡ ok r
      → r.value.payload_type ≡ auwv_magic
  unfolding parse_merkle_root_data_from_vaa_payload
  root_magic payload r h =
      let (x0, e0, h0) =
        >>=-eq-ok (unwrap (k.read_buff 4 (record { bytes = payload; pos = 0 })) err_invalid_auwv) _
          h in
      let (x1, e1, h1) = >>=-eq-ok (unwrap (k.read_uint 1 x0.next) err_invalid_auwv) _ h0 in
      let (x2, e2, h2) = >>=-eq-ok (unwrap (k.read_uint 8 x1.next) err_invalid_auwv) _ h1 in
      let (x3, e3, h3) = >>=-eq-ok (unwrap (k.read_uint 4 x2.next) err_invalid_auwv) _ h2 in
      let (x4, e4, h4) = >>=-eq-ok (unwrap (k.read_buff 20 x3.next) err_invalid_auwv) _ h3 in
      root_kind x0 x1 x2 x3 x4 r h4

  -- The prices are those of the updates in the bytes, proven against the root in the VAA in the
  -- bytes, which the core has verified.
  pub record IsSound (g : Governance) (core : WormholeCore) (bytes : Bytes) (out : List PriceEntry)
      : Type 0 where
    pub header : Reading PnauHeader
    pub size : Reading ℕ
    pub body : Reading Bytes
    pub vaa : Vaa
    pub root : Reading MerkleRootData
    pub count : Reading ℕ
    pub updates : List PriceInfo
    pub headed : parse_pnau_header k bytes ≡ ok header
    pub sized : k.read_uint 2 header.next ≡ ok size
    pub carried : k.read_buff_8192_max size.next (some size.value) ≡ ok body
    pub verified : core.parse_and_verify_vaa body.value ≡ ok vaa
    pub authorized :
        IsMember
          (record { emitter_chain = vaa.emitter_chain; emitter_address = vaa.emitter_address })
          g.prices_data_sources
    pub rooted : parse_merkle_root_data_from_vaa_payload k vaa.payload ≡ ok root
    pub magic : root.value.payload_type ≡ auwv_magic
    pub counted : k.read_uint 1 (record { bytes = k.slice body.next none; pos = 0 }) ≡ ok count
    pub read : All (IsUpdateOf k (k.slice count.next none)) updates
    pub proven : All (IsProven root.value.merkle_root_hash) updates
    pub returned : out ≡ map cast_decoded_price updates

  from_updates :
      (g : Governance) (vaa : Vaa) (root rest : Bytes) (out : List PriceEntry)
      → (do
        us ← parse_and_verify_prices_updates k merkle rest root
        asserts
            (is_authorized
              (record { emitter_chain = vaa.emitter_chain; emitter_address = vaa.emitter_address })
              g.prices_data_sources)
            err_unauthorized_price_update
        ok (map cast_decoded_price us))
        ≡ ok out
      → IsMember
          (record { emitter_chain = vaa.emitter_chain; emitter_address = vaa.emitter_address })
          g.prices_data_sources
        × (us : List PriceInfo) × (parse_and_verify_prices_updates k merkle rest root ≡ ok us)
        × (out ≡ map cast_decoded_price us)
  from_updates g vaa root rest out h =
      let source : DataSource = record {
        emitter_chain = vaa.emitter_chain;
        emitter_address = vaa.emitter_address;
      } in
      let (us, e, h1) = >>=-eq-ok (parse_and_verify_prices_updates k merkle rest root) _ h in
      let (u, a, h2) =
        >>=-eq-ok
          (asserts (is_authorized source g.prices_data_sources) err_unauthorized_price_update) _
          h1 in
      (is_authorized-IsMember source g.prices_data_sources (asserts-true _ _ a), us, e, cc h2)

  -- Prices that the decoder returns are those of updates that are read from the submitted bytes,
  -- and whose proofs are all checked against one root. Each price is the message at the cursor
  -- where the update's leaf, the bytes that its proof is checked for, begins, and reading the leaf
  -- alone gives that message, unless the leaf has less than a message's 85 bytes. The root is read
  -- from the payload of the VAA in the submitted bytes, which the core has verified; the payload is
  -- of the kind that carries a root, and the VAA comes from an authorized data source. Given: a
  -- cursor contract that meets `HkCursorLaws`.
  pub decode_pnau_price_update-IsSound :
      (laws : HkCursorLaws k) (g : Governance) (core : WormholeCore) (bytes : Bytes)
      (out : List PriceEntry)
      → decode_pnau_price_update k merkle g bytes core ≡ ok out
      → IsSound g core bytes out
  unfolding decode_pnau_price_update
  decode_pnau_price_update-IsSound laws g core bytes out h =
      let (header, e0, h0) = >>=-eq-ok (parse_pnau_header k bytes) _ h in
      let (size, e1, h1) = >>=-eq-ok (k.read_uint 2 header.next) _ h0 in
      let (body, e2, h2) = >>=-eq-ok (k.read_buff_8192_max size.next (some size.value)) _ h1 in
      let (vaa, e3, h3) = >>=-eq-ok (core.parse_and_verify_vaa body.value) _ h2 in
      let (root, e4, h4) = >>=-eq-ok (parse_merkle_root_data_from_vaa_payload k vaa.payload) _ h3 in
      let rest = k.slice body.next none in
      let (member, us, e5, returned) = from_updates g vaa root.value.merkle_root_hash rest out h4 in
      let (count, counted, read) = read_updates laws rest root.value.merkle_root_hash us e5 in
      record {
        header = header;
        size = size;
        body = body;
        vaa = vaa;
        root = root;
        count = count;
        updates = us;
        headed = e0;
        sized = e1;
        carried = e2;
        verified = e3;
        authorized = member;
        rooted = e4;
        magic = root_magic vaa.payload root e4;
        counted = counted;
        read = read;
        proven = verified_updates rest root.value.merkle_root_hash us e5;
        returned = returned;
      }

-- ===== src/Pnau/Leaf.antt =====
-- contracts/pyth-pnau-decoder-v1.clar, parse-price-info-and-proof: the message of an update stands in
-- its leaf, the bytes whose proof is checked.
use stacks_pyth_bridge.Prelude.{
  ℕ, ◌+◌, ◌*◌, ◌≡◌, refl, sym, ap, ◌∙◌, subst, length, take, arith, ◌<◌, ◌⊎◌, inl, inr, some, drop,
  drop-add, length-append, length-drop, ltb, ◌==◌, ==_iff, Bool-cases,
}
use stacks_pyth_bridge.Prelude.Bytes.{Bytes, be_value}
use stacks_pyth_bridge.Clarity.Outcome.{
  Outcome, ok, err, panic, >>=-eq-ok, unwrap_panic, unwrap_panic-eq-ok, asserts, asserts-true,
}
use stacks_pyth_bridge.Clarity.Cursor.{
  Cursor, Reading, HkCursor, HkCursorLaws, remaining, advanced, map_value,
}
use stacks_pyth_bridge.Clarity.Reading.{read_buff-inv, take-drop, length-take}
use stacks_pyth_bridge.Pnau.Updates.{
  Message, PriceInfo, price_info, read_message, read_price_info, parse_proof, max_len_or_panic,
  err_update_type,
}
use stacks_pyth_bridge.Pnau.Cut.{read_message-IsCut}

max_len_or_panic-eq-ok : (n : ℕ) (b : Bytes) {c : Bytes} → max_len_or_panic n b ≡ ok c → c ≡ b
max_len_or_panic-eq-ok n b h = ground arith

first_of :
    {A : Type 0} {B : Type 0} (a a' : A) (b b' : B)
    → ◌≡◌ {A = Outcome (A × B)} (ok (a, b)) (ok (a', b'))
    → a ≡ a'
first_of a a' b b' h = cc h

-- An update that is read at some index of the bytes: the price is the message at the cursor where the
-- leaf begins, and the message is the leaf's own unless the leaf has less than its 85 bytes.
pub record IsUpdateOf (k : HkCursor) (bytes : Bytes) (u : PriceInfo) : Type 0 where
  pub index : ℕ
  pub size : Reading ℕ
  pub message : Message
  pub sized : k.read_uint 2 (k.new bytes (some index)) ≡ ok size
  pub read : read_message k size.next ≡ ok message
  pub kind : message.message_type ≡ 0
  pub leaf : u.leaf_bytes ≡ k.slice size.next (some size.value)
  pub price : u ≡ price_info message u.proof u.leaf_bytes
  pub own :
      (size.value < 85) ⊎ (read_message k (record { bytes = u.leaf_bytes; pos = 0 }) ≡ ok message)

module _ (k : HkCursor) (laws : HkCursorLaws k) where
  -- Where a number is read behind n bytes, these stand in the buffer.
  slice-cut :
      (n : ℕ) (c : Cursor) (r : Reading ℕ)
      → k.read_uint 1 (k.advance c n) ≡ ok r
      → k.slice c (some n) ≡ take n (remaining c)
  slice-cut n c r h =
      from_buff (k.read_buff 1 (advanced c n)) refl
        (sym (laws.read_uint_lem 1 (advanced c n)) ∙ rw (laws.advance_lem c n) at h)
    where
      from_buff :
          (o : Outcome (Reading Bytes))
          → k.read_buff 1 (advanced c n) ≡ o
          → map_value be_value o ≡ ok r
          → k.slice c (some n) ≡ take n (remaining c)
      from_buff (ok b) e w =
          let (l, at) = read_buff-inv k laws 1 (advanced c n) b e in
          let behind : length (drop n (remaining c)) ≡ 1 + length (remaining b.next) =
            ap length (sym (drop-add c.pos n c.bytes) ∙ at)
            ∙ length-append b.value (remaining b.next)
            ∙ omega (arith, l) in
          laws.slice_some n c (take n (remaining c)) (drop n (remaining c))
            (sym (take-drop n (remaining c)))
            (length-take n (remaining c) (omega (arith, behind, length-drop n (remaining c))))
      from_buff (err code) e w = cc w
      from_buff panic e w = cc w

  own_message :
      (n : ℕ) (c : Cursor) (leaf : Bytes) (m : Message)
      → leaf ≡ take n (remaining c)
      → read_message k c ≡ ok m
      → (n < 85) ⊎ (read_message k (record { bytes = leaf; pos = 0 }) ≡ ok m)
  own_message n c leaf m e h = elim (Bool-cases (ltb n 85)) [
    | inl short ↦ inl (ground arith)
    | inr long ↦
        inr (read_message-IsCut k laws n c (record { bytes = leaf; pos = 0 }) m (ground arith) e h)
  ]

  pub read_price_info-IsUpdateOf :
      (bytes : Bytes) (index next : ℕ) (u : PriceInfo)
      → read_price_info k bytes index ≡ ok (u, next)
      → IsUpdateOf k bytes u
  unfolding read_price_info
  read_price_info-IsUpdateOf bytes index next u h =
      let (size, e0, h0) =
        >>=-eq-ok (unwrap_panic (k.read_uint 2 (k.new bytes (some index)))) _ h in
      let (message, e1, h1) = >>=-eq-ok (read_message k size.next) _ h0 in
      let (count, e2, h2) =
        >>=-eq-ok (unwrap_panic (k.read_uint 1 (k.advance size.next size.value))) _ h1 in
      let (proof, e3, h3) =
        >>=-eq-ok (parse_proof k (k.slice count.next (some (20 * count.value))) count.value) _ h2 in
      let (t, e4, h4) =
        >>=-eq-ok (unwrap_panic (asserts (message.message_type == 0) err_update_type)) _ h3 in
      let (leaf, e5, h5) =
        >>=-eq-ok (max_len_or_panic 255 (k.slice size.next (some size.value))) _ h4 in
      let same : price_info message proof leaf ≡ u = first_of _ _ _ _ h5 in
      let whole : leaf ≡ k.slice size.next (some size.value) = max_len_or_panic-eq-ok 255 _ e5 in
      let kind = (==_iff _ _).0 (asserts-true _ _ (unwrap_panic-eq-ok _ e4)) in
      let cut = slice-cut size.value size.next count (unwrap_panic-eq-ok _ e2) in
      subst (λ (v : PriceInfo). IsUpdateOf k bytes v) same
        (record {
          index = index;
          size = size;
          message = message;
          sized = unwrap_panic-eq-ok _ e0;
          read = e1;
          kind = kind;
          leaf = whole;
          price = refl;
          own = own_message size.value size.next leaf message (whole ∙ cut) e1;
        })

-- ===== src/Pnau/Cut.antt =====
-- contracts/pyth-pnau-decoder-v1.clar, parse-price-info-and-proof: a message that is read from a buffer is
-- read from its first 85 bytes alone.
use stacks_pyth_bridge.Prelude.{
  ℕ, zero, suc, ◌-◌, ◌≤◌, ◌≡◌, refl, sym, ap, ◌∙◌, subst, [], ◌∷◌, ◌++◌, length, take, arith,
}
use stacks_pyth_bridge.Prelude.Bytes.{Bytes, be_value, be_signed}
use stacks_pyth_bridge.Prelude.Int.{ℤ}
use stacks_pyth_bridge.Clarity.Outcome.{
  Outcome, ok, err, panic, ◌>>=◌, >>=-eq-ok, unwrap_panic, unwrap_panic-eq-ok,
}
use stacks_pyth_bridge.Clarity.Cursor.{
  Cursor, Reading, HkCursor, HkCursorLaws, remaining, advanced, remaining-advanced, map_value,
}
use stacks_pyth_bridge.Clarity.Reading.{read_buff-inv}
use stacks_pyth_bridge.Pnau.Updates.{Message, read_message}

take-append_more :
    (m : ℕ) (xs ys : Bytes) → length xs ≤ m → take m (xs ++ ys) ≡ xs ++ take (m - length xs) ys
take-append_more m [] ys h = ap (λ (t : ℕ). take t ys) (omega arith)
take-append_more zero (x ∷ xs) ys h = absurd (omega arith)
take-append_more (suc m) (x ∷ xs) ys h =
    let e : suc m - suc (length xs) ≡ m - length xs = omega arith in
    ap (λ (t : Bytes). x ∷ t) (take-append_more m xs ys (omega arith))
    ∙ ap (λ (t : ℕ). x ∷ (xs ++ take t ys)) (sym e)

module _ (k : HkCursor) (laws : HkCursorLaws k) where
  -- One cursor has the first m bytes of what another has.
  abbrev pub IsCut : ℕ → Cursor → Cursor → Type 0
  IsCut m c c' = remaining c' ≡ take m (remaining c)

  -- A field within those bytes is read as well, and leaves what is left of them.
  read_buff-IsCut :
      (m n : ℕ) (c c' : Cursor) (r : Reading Bytes)
      → n ≤ m
      → IsCut m c c'
      → k.read_buff n c ≡ ok r
      → (r' : Reading Bytes) × (k.read_buff n c' ≡ ok r')
        × (r.value ≡ r'.value)
        × IsCut (m - n) r.next r'.next
  read_buff-IsCut m n c c' r le cut h =
      let (l, at) = read_buff-inv k laws n c r h in
      let here : remaining c' ≡ r.value ++ take (m - n) (remaining r.next) =
        cut
        ∙ ap (λ (t : Bytes). take m t) at
        ∙ take-append_more m r.value (remaining r.next) (omega arith)
        ∙ ap (λ (t : ℕ). r.value ++ take (m - t) (remaining r.next)) l in
      (
        record { value = r.value; next = advanced c' n },
        laws.read_buff_ok n c' r.value _ here l,
        refl,
        subst (λ (t : ℕ). remaining (advanced c' t) ≡ take (m - n) (remaining r.next)) l
            (remaining-advanced c' r.value _ here),
      )

  map_value-IsCut :
      {A : Type 0} (f : Bytes → A) (m n : ℕ) (c c' : Cursor) (o o' : Outcome (Reading A))
      (r : Reading A)
      → o ≡ map_value f (k.read_buff n c)
      → o' ≡ map_value f (k.read_buff n c')
      → n ≤ m
      → IsCut m c c'
      → o ≡ ok r
      → (r' : Reading A) × (o' ≡ ok r') × (r.value ≡ r'.value) × IsCut (m - n) r.next r'.next
  map_value-IsCut {A = A} f m n c c' o o' r e e' le cut h =
      from_buff (k.read_buff n c) refl (sym e ∙ h)
    where
      from_buff :
          (b : Outcome (Reading Bytes))
          → k.read_buff n c ≡ b
          → map_value f b ≡ ok r
          → (r' : Reading A) × (o' ≡ ok r') × (r.value ≡ r'.value) × IsCut (m - n) r.next r'.next
      from_buff (ok x) q w =
          let (x', y, v, z) = read_buff-IsCut m n c c' x le cut q in
          let value : f x.value ≡ r.value = cc w in
          let next : x.next ≡ r.next = cc w in
          (
            record { value = f x'.value; next = x'.next },
            e' ∙ ap (map_value f) y,
            sym value ∙ ap f v,
            subst (λ (t : Cursor). IsCut (m - n) t x'.next) next z,
          )
      from_buff (err code) q w = cc w
      from_buff panic q w = cc w

  -- What follows a field may differ in the cursor alone.
  abbrev Follows : {A : Type 0} {B : Type 0} → ℕ → (A → Cursor → Outcome B) → B → Type 0
  Follows {A} m f b = (v : A) (c c' : Cursor) → IsCut m c c' → f v c ≡ ok b → f v c' ≡ ok b

  cut_step :
      {A B : Type 0} (m n : ℕ) (f : A → Cursor → Outcome B) (b : B) (o o' : Outcome (Reading A))
      → ((r : Reading A)
          → o ≡ ok r
          → (r' : Reading A) × (o' ≡ ok r') × (r.value ≡ r'.value) × IsCut (m - n) r.next r'.next)
      → Follows (m - n) f b
      → (unwrap_panic o >>= λ r. f r.value r.next) ≡ ok b
      → (unwrap_panic o' >>= λ r. f r.value r.next) ≡ ok b
  cut_step {A = A} m n f b o o' cut follows h =
      let (r, e, h1) = >>=-eq-ok (unwrap_panic o) (λ r. f r.value r.next) h in
      let (r', e', v, c) = cut r (unwrap_panic-eq-ok o e) in
      rw e' (subst (λ (t : A). f t r'.next ≡ ok b) v (follows r.value r.next r'.next c h1))

  step_buff :
      {B : Type 0} (m n : ℕ) (f : Bytes → Cursor → Outcome B) (b : B) (c c' : Cursor)
      → n ≤ m
      → IsCut m c c'
      → Follows (m - n) f b
      → (unwrap_panic (k.read_buff n c) >>= λ r. f r.value r.next) ≡ ok b
      → (unwrap_panic (k.read_buff n c') >>= λ r. f r.value r.next) ≡ ok b
  step_buff m n f b c c' le cut =
      cut_step m n f b (k.read_buff n c) (k.read_buff n c')
        (λ r e. read_buff-IsCut m n c c' r le cut e)

  step_uint :
      {B : Type 0} (m n : ℕ) (f : ℕ → Cursor → Outcome B) (b : B) (c c' : Cursor)
      → n ≤ m
      → IsCut m c c'
      → Follows (m - n) f b
      → (unwrap_panic (k.read_uint n c) >>= λ r. f r.value r.next) ≡ ok b
      → (unwrap_panic (k.read_uint n c') >>= λ r. f r.value r.next) ≡ ok b
  step_uint m n f b c c' le cut = cut_step m n f b (k.read_uint n c) (k.read_uint n c') (λ r e.
      map_value-IsCut be_value m n c c' (k.read_uint n c) (k.read_uint n c') r
        (laws.read_uint_lem n c) (laws.read_uint_lem n c') le cut e)

  step_int :
      {B : Type 0} (m n : ℕ) (f : ℤ → Cursor → Outcome B) (b : B) (c c' : Cursor)
      → n ≤ m
      → IsCut m c c'
      → Follows (m - n) f b
      → (unwrap_panic (k.read_int n c) >>= λ r. f r.value r.next) ≡ ok b
      → (unwrap_panic (k.read_int n c') >>= λ r. f r.value r.next) ≡ ok b
  step_int m n f b c c' le cut = cut_step m n f b (k.read_int n c) (k.read_int n c') (λ r e.
      map_value-IsCut (be_signed n) m n c c' (k.read_int n c) (k.read_int n c') r
        (laws.read_int_lem n c) (laws.read_int_lem n c') le cut e)

  abbrev from9 : ℕ → Bytes → ℤ → ℕ → ℤ → ℕ → ℕ → ℤ → ℕ → Cursor → Outcome Message
  from9 x0 x1 x2 x3 x4 x5 x6 x7 x8 c = ok (record {
    message_type = x0;
    price_identifier = x1;
    price = x2;
    conf = x3;
    expo = x4;
    publish_time = x5;
    prev_publish_time = x6;
    ema_price = x7;
    ema_conf = x8;
  })

  abbrev from8 : ℕ → Bytes → ℤ → ℕ → ℤ → ℕ → ℕ → ℤ → Cursor → Outcome Message
  from8 x0 x1 x2 x3 x4 x5 x6 x7 c =
      unwrap_panic (k.read_uint 8 c) >>= λ r. from9 x0 x1 x2 x3 x4 x5 x6 x7 r.value r.next

  abbrev from7 : ℕ → Bytes → ℤ → ℕ → ℤ → ℕ → ℕ → Cursor → Outcome Message
  from7 x0 x1 x2 x3 x4 x5 x6 c =
      unwrap_panic (k.read_int 8 c) >>= λ r. from8 x0 x1 x2 x3 x4 x5 x6 r.value r.next

  abbrev from6 : ℕ → Bytes → ℤ → ℕ → ℤ → ℕ → Cursor → Outcome Message
  from6 x0 x1 x2 x3 x4 x5 c =
      unwrap_panic (k.read_uint 8 c) >>= λ r. from7 x0 x1 x2 x3 x4 x5 r.value r.next

  abbrev from5 : ℕ → Bytes → ℤ → ℕ → ℤ → Cursor → Outcome Message
  from5 x0 x1 x2 x3 x4 c =
      unwrap_panic (k.read_uint 8 c) >>= λ r. from6 x0 x1 x2 x3 x4 r.value r.next

  abbrev from4 : ℕ → Bytes → ℤ → ℕ → Cursor → Outcome Message
  from4 x0 x1 x2 x3 c = unwrap_panic (k.read_int 4 c) >>= λ r. from5 x0 x1 x2 x3 r.value r.next

  abbrev from3 : ℕ → Bytes → ℤ → Cursor → Outcome Message
  from3 x0 x1 x2 c = unwrap_panic (k.read_uint 8 c) >>= λ r. from4 x0 x1 x2 r.value r.next

  abbrev from2 : ℕ → Bytes → Cursor → Outcome Message
  from2 x0 x1 c = unwrap_panic (k.read_int 8 c) >>= λ r. from3 x0 x1 r.value r.next

  abbrev from1 : ℕ → Cursor → Outcome Message
  from1 x0 c = unwrap_panic (k.read_buff 32 c) >>= λ r. from2 x0 r.value r.next

  abbrev from0 : Cursor → Outcome Message
  from0 c = unwrap_panic (k.read_uint 1 c) >>= λ r. from1 r.value r.next

  -- The message is read from its 85 bytes, whatever follows them.
  pub read_message-IsCut :
      (m : ℕ) (c c' : Cursor) (b : Message)
      → 85 ≤ m
      → IsCut m c c'
      → read_message k c ≡ ok b
      → read_message k c' ≡ ok b
  unfolding read_message
  read_message-IsCut m c c' b le cut = step_uint m 1 from1 b c c' (omega arith) cut λ x0 c0 d0 cut0.
      step_buff (m - 1) 32 (from2 x0) b c0 d0 (omega arith) cut0 λ x1 c1 d1 cut1.
        step_int (m - 1 - 32) 8 (from3 x0 x1) b c1 d1 (omega arith) cut1 λ x2 c2 d2 cut2.
          step_uint (m - 1 - 32 - 8) 8 (from4 x0 x1 x2) b c2 d2 (omega arith) cut2 λ x3 c3 d3 cut3.
            step_int (m - 1 - 32 - 8 - 8) 4 (from5 x0 x1 x2 x3) b c3 d3 (omega arith) cut3
              λ x4 c4 d4 cut4.
                step_uint (m - 1 - 32 - 8 - 8 - 4) 8 (from6 x0 x1 x2 x3 x4) b c4 d4 (omega arith)
                  cut4
                  λ x5 c5 d5 cut5.
                    step_uint (m - 1 - 32 - 8 - 8 - 4 - 8) 8 (from7 x0 x1 x2 x3 x4 x5) b c5 d5
                      (omega arith) cut5
                      λ x6 c6 d6 cut6.
                        step_int (m - 1 - 32 - 8 - 8 - 4 - 8 - 8) 8 (from8 x0 x1 x2 x3 x4 x5 x6) b
                          c6 d6 (omega arith) cut6
                          λ x7 c7 d7 cut7.
                            step_uint (m - 1 - 32 - 8 - 8 - 4 - 8 - 8 - 8) 8
                              (from9 x0 x1 x2 x3 x4 x5 x6 x7) b c7 d7 (omega arith) cut7
                              λ x8 c8 d8 cut8. λ h. h

-- ===== src/Clarity/Reading.antt =====
-- What a field that hk-cursor-v2 has read says of the buffer.
use stacks_pyth_bridge.Prelude.{
  ℕ, zero, suc, ◌+◌, ◌*◌, ◌/◌, ◌%◌, ◌^◌, ◌<◌, ◌≤◌, ◌≡◌, refl, sym, ap, ◌∙◌, subst, [], ◌∷◌, ◌++◌,
  length, take, drop, drop-add, leb, leb→le, Bool-cases, inl, inr, arith, All,
}
use stacks_pyth_bridge.Prelude.Bytes.{Bytes, IsByte, be_value, be_from, be_bytes}
use stacks_pyth_bridge.Clarity.Outcome.{Outcome, ok, err, panic}
use stacks_pyth_bridge.Clarity.Cursor.{
  Cursor, Reading, HkCursor, HkCursorLaws, remaining, advanced, map_value,
}
use native.Mathlib.Nat.{
  pow-suc, suc-mul, mul-add-div_right, mul-add-mod_self_right, div-eq_of_lt, mod-eq_of_lt,
  mul-le-mul_right,
}

be_from-digits : (acc : ℕ) (bs : Bytes) → be_from acc bs ≡ acc * 256 ^ length bs + be_value bs
unfolding be_from
be_from-digits acc [] = omega arith
be_from-digits acc (b ∷ bs) =
    rw (be_from-digits (acc * 256 + b) bs, be_from-digits (0 * 256 + b) bs)
      (omega (arith, ap (λ (t : ℕ). acc * t) (pow-suc 256 (length bs))))

digit_room : (b p : ℕ) → b < 256 → b * p + p ≤ 256 * p
digit_room b p h =
    let le : suc b ≤ 256 = omega arith in omega (arith, mul-le-mul_right p le, suc-mul b p)

be_value-below : (bs : Bytes) → All IsByte bs → be_value bs < 256 ^ length bs
unfolding be_from
be_value-below [] a = omega arith
be_value-below (b ∷ bs) (p, a) =
    rw (be_from-digits (0 * 256 + b) bs) (
      omega (arith, be_value-below bs a, pow-suc 256 (length bs), digit_room b (256 ^ length bs) p))

-- A number that is read is written back to the same bytes.
be_bytes-be_value : (bs : Bytes) → All IsByte bs → be_bytes (length bs) (be_value bs) ≡ bs
unfolding be_bytes be_from
be_bytes-be_value [] a = refl
be_bytes-be_value (b ∷ bs) (p, a) =
    let below = be_value-below bs a in
    let whole : be_value (b ∷ bs) ≡ b * 256 ^ length bs + be_value bs =
      be_from-digits (0 * 256 + b) bs ∙ omega arith in
    let q : (b * 256 ^ length bs + be_value bs) / 256 ^ length bs ≡ b =
      mul-add-div_right (omega arith) b (be_value bs) ∙ omega (arith, div-eq_of_lt below) in
    let r : (b * 256 ^ length bs + be_value bs) % 256 ^ length bs ≡ be_value bs =
      mul-add-mod_self_right b (256 ^ length bs) (be_value bs) ∙ mod-eq_of_lt below in
    let d : b % 256 ≡ b = omega arith in rw (whole, q, r, d, be_bytes-be_value bs a) refl

pub take-drop : (n : ℕ) (xs : Bytes) → take n xs ++ drop n xs ≡ xs
take-drop zero xs = refl
take-drop (suc n) [] = refl
take-drop (suc n) (x ∷ xs) = ap (λ (t : Bytes). x ∷ t) (take-drop n xs)

pub length-take : (n : ℕ) (xs : Bytes) → n ≤ length xs → length (take n xs) ≡ n
length-take zero xs h = refl
length-take (suc n) [] h = omega arith
length-take (suc n) (x ∷ xs) h = ap suc (length-take n xs (omega arith))

pub All-split : (xs ys : Bytes) → All IsByte (xs ++ ys) → All IsByte xs × All IsByte ys
All-split [] ys a = (tt, a)
All-split (x ∷ xs) ys (p, a) = let (l, r) = All-split xs ys a in ((p, l), r)

module _ (k : HkCursor) (laws : HkCursorLaws k) where
  -- A buffer that is read stands at the position, and the rest behind it.
  pub read_buff-inv :
      (n : ℕ) (c : Cursor) (r : Reading Bytes)
      → k.read_buff n c ≡ ok r
      → (length r.value ≡ n) × (remaining c ≡ r.value ++ remaining r.next)
  read_buff-inv n c r h = elim (Bool-cases (leb n (length (remaining c)))) [
    | inl fits ↦
        let l = length-take n (remaining c) (leb→le n _ fits) in
        let e =
          laws.read_buff_ok n c (take n (remaining c)) (drop n (remaining c))
            (sym (take-drop n (remaining c))) l in
        let same : record { value = take n (remaining c); next = advanced c n } ≡ r = cc (e, h) in
        subst
          (λ (t : Reading Bytes).
            (length t.value ≡ n) × (remaining c ≡ t.value ++ remaining t.next))
          same (l, rw (drop-add c.pos n c.bytes) (sym (take-drop n (remaining c))))
    | inr short ↦ let (code, e) = laws.read_buff_short n c (ground arith) in absurd (cc (e, h))
  ]

  -- A number that is read fits its bytes, and these are the ones at the position.
  pub read_uint-inv :
      (n : ℕ) (c : Cursor) (r : Reading ℕ)
      → k.read_uint n c ≡ ok r
      → All IsByte (remaining c)
      → (r.value < 256 ^ n)
        × (remaining c ≡ be_bytes n r.value ++ remaining r.next)
        × All IsByte (remaining r.next)
  read_uint-inv n c r h a = from_buff (k.read_buff n c) refl (sym (laws.read_uint_lem n c) ∙ h)
    where
      from_buff :
          (o : Outcome (Reading Bytes))
          → k.read_buff n c ≡ o
          → map_value be_value o ≡ ok r
          → (r.value < 256 ^ n)
            × (remaining c ≡ be_bytes n r.value ++ remaining r.next)
            × All IsByte (remaining r.next)
      from_buff (ok b) e m =
          let (l, at) = read_buff-inv n c b e in
          let v : be_value b.value ≡ r.value = cc m in
          let next : b.next ≡ r.next = cc m in
          let (x, y) = All-split b.value (remaining b.next) (subst (All IsByte) at a) in
          let back : be_bytes n r.value ≡ b.value = rw (← v, ← l) (be_bytes-be_value b.value x) in
          (
            rw (← v, ← l) (be_value-below b.value x),
            rw (back, ← next) at,
            subst (λ (t : Cursor). All IsByte (remaining t)) next y,
          )
      from_buff (err code) e m = cc m
      from_buff panic e m = cc m

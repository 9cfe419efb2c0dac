-- ===== src/Harness/Buffers/BigEndian.antt =====
-- What `bigintToBuffer` of unit-tests/utils/helpers.ts writes: the big-endian bytes.
use stacks_pyth_bridge.Prelude.{
  ℕ, zero, suc, ◌+◌, ◌-◌, ◌*◌, ◌/◌, ◌%◌, ◌^◌, ◌<◌, ◌≤◌, ◌≡◌, refl, sym, ap, ◌∙◌, arith, List, [],
  ◌∷◌, ◌++◌, length, append_assoc, append-nil, length-append, lt→ltb,
}
use stacks_pyth_bridge.Prelude.Bytes.{
  Bytes, be_bytes, be_signed, be_value-be_bytes, length-be_bytes,
}
use stacks_pyth_bridge.Prelude.Int.{ℤ, pos, negsuc}
use stacks_pyth_bridge.Harness.Buffers.{
  hex_loop, to_hex, pad, from_hex, natural_to_buffer, negative_to_buffer, bigint_to_buffer,
}
use native.Mathlib.Numerals.{towards_suc}
use native.Mathlib.Nat.{
  pow-suc, pow-succ', div-div-eq-div-mul, div-add-mod, mod-lt, mod-eq_of_lt, mul-add-mod_self_left,
}

-- The k lowest hexadecimal digits, the highest first.
nibbles : ℕ → ℕ → List ℕ
nibbles zero v = []
nibbles (suc k) v = nibbles k (v / 16) ++ (v % 16) ∷ []

length-nibbles : (k v : ℕ) → length (nibbles k v) ≡ k
unfolding nibbles
length-nibbles zero v = refl
length-nibbles (suc k) v =
    length-append (nibbles k (v / 16)) ((v % 16) ∷ []) ∙ omega (arith, length-nibbles k (v / 16))

pad_again : (n : ℕ) (ds : List ℕ) → pad n (0 ∷ ds) ≡ pad (suc n) ds
unfolding pad
pad_again zero ds = refl
pad_again (suc n) ds = ap (λ (t : List ℕ). 0 ∷ t) (pad_again n ds)

nibbles-zero : (k : ℕ) (ds : List ℕ) → nibbles k 0 ++ ds ≡ pad k ds
unfolding nibbles pad
nibbles-zero zero ds = refl
nibbles-zero (suc k) ds =
    append_assoc (nibbles k 0) (0 ∷ []) ds ∙ nibbles-zero k (0 ∷ ds) ∙ pad_again k ds

hex_loop-zero : (fuel : ℕ) (ds : List ℕ) → hex_loop fuel 0 ds ≡ ds
unfolding hex_loop
hex_loop-zero zero ds = refl
hex_loop-zero (suc fuel) ds = refl

hex_loop-suc :
    (fuel v : ℕ) (ds : List ℕ)
    → hex_loop (suc fuel) (suc v) ds ≡ hex_loop fuel (suc v / 16) ((suc v % 16) ∷ ds)
unfolding hex_loop
hex_loop-suc fuel v ds = ground arith

-- The digits that the loop puts before `ds`, padded to k.
pad-hex_loop :
    (k fuel v : ℕ) (ds : List ℕ)
    → v ≤ fuel
    → v < 16 ^ k
    → pad (k + length ds - length (hex_loop fuel v ds)) (hex_loop fuel v ds) ≡ nibbles k v ++ ds
unfolding nibbles
pad-hex_loop k fuel zero ds f h =
    rw (hex_loop-zero fuel ds) (ap (λ (t : ℕ). pad t ds) (omega arith) ∙ sym (nibbles-zero k ds))
pad-hex_loop zero fuel (suc v) ds f h = absurd (omega arith)
pad-hex_loop (suc k) zero (suc v) ds f h = absurd (omega arith)
pad-hex_loop (suc k) (suc fuel) (suc v) ds f h =
    let q : suc v / 16 < 16 ^ k = omega (arith, pow-suc 16 k) in
    let rest = hex_loop fuel (suc v / 16) ((suc v % 16) ∷ ds) in
    rw (hex_loop-suc fuel v ds) (
      ap (λ (t : ℕ). pad t rest) (omega arith)
      ∙ pad-hex_loop k fuel (suc v / 16) ((suc v % 16) ∷ ds) (omega arith) q
      ∙ sym (append_assoc (nibbles k (suc v / 16)) ((suc v % 16) ∷ []) ds))

to_hex-suc : (v : ℕ) → to_hex (suc v) ≡ hex_loop (suc v) (suc v) []
unfolding to_hex
to_hex-suc v = ground arith

nibbles_two :
    (k v : ℕ) → nibbles (suc (suc k)) v ≡ nibbles k (v / 16 / 16) ++ (v / 16 % 16) ∷ (v % 16) ∷ []
unfolding nibbles
nibbles_two k v = append_assoc (nibbles k (v / 16 / 16)) ((v / 16 % 16) ∷ []) ((v % 16) ∷ [])

-- A field of 2n digits.
pad-to_hex :
    (n v : ℕ)
    → v < 16 ^ (n * 2)
    → from_hex (pad (n * 2 - length (to_hex v)) (to_hex v)) ≡ from_hex (nibbles (n * 2) v)
unfolding to_hex nibbles pad from_hex
pad-to_hex zero zero h = refl
pad-to_hex (suc n) zero h =
    let e : suc (suc n * 2 - 1) ≡ suc n * 2 = omega arith in
    ap from_hex (
      pad_again (suc n * 2 - 1) []
      ∙ ap (λ (t : ℕ). pad t []) e
      ∙ sym (nibbles-zero (suc n * 2) [])
      ∙ append-nil (nibbles (suc n * 2) 0))
pad-to_hex n (suc v) h =
    let ds = hex_loop (suc v) (suc v) [] in
    let e : n * 2 - length ds ≡ n * 2 + 0 - length ds = omega arith in
    rw (to_hex-suc v) (
      ap from_hex (
        ap (λ (t : ℕ). pad t ds) e
        ∙ pad-hex_loop (n * 2) (suc v) (suc v) [] (omega arith) h
        ∙ append-nil (nibbles (n * 2) (suc v))))

-- Two digits at the end are a byte at the end.
from_hex-append :
    (k : ℕ) (ds : List ℕ) (d e : ℕ)
    → length ds ≡ k * 2
    → from_hex (ds ++ d ∷ e ∷ []) ≡ from_hex ds ++ (d * 16 + e) ∷ []
unfolding from_hex
from_hex-append zero [] d e h = refl
from_hex-append zero (x ∷ ds) d e h = absurd (omega arith)
from_hex-append (suc k) [] d e h = absurd (omega arith)
from_hex-append (suc k) (x ∷ []) d e h = absurd (omega arith)
from_hex-append (suc k) (x ∷ y ∷ ds) d e h =
    ap (λ (t : Bytes). (x * 16 + y) ∷ t) (from_hex-append k ds d e (omega arith))

split_mod : (v m : ℕ) → 0 < m → v % (m * 256) ≡ v / 256 % m * 256 + v % 256
split_mod v m h =
    let q = v / 256 in
    let c = q % m * 256 + v % 256 in
    let whole : v ≡ m * 256 * (q / m) + c =
      omega (arith, div-add-mod v 256, ap (λ (t : ℕ). 256 * t) (div-add-mod q m)) in
    let small : c < m * 256 = omega (arith, mod-lt q h) in
    ap (λ (t : ℕ). t % (m * 256)) whole
    ∙ mul-add-mod_self_left (m * 256) (q / m) c
    ∙ mod-eq_of_lt small

pow_pos : (n : ℕ) → 0 < 256 ^ n
pow_pos zero = omega arith
pow_pos (suc n) = omega (arith, pow-suc 256 n, pow_pos n)

-- The last byte apart.
be_bytes-snoc : (n v : ℕ) → be_bytes (suc n) v ≡ be_bytes n (v / 256) ++ (v % 256) ∷ []
unfolding be_bytes
be_bytes-snoc zero v = ap (λ (t : ℕ). t ∷ []) (omega arith)
be_bytes-snoc (suc n) v =
    let w = v % 256 ^ suc n in
    let m = 256 ^ n in
    let e : w ≡ v / 256 % m * 256 + v % 256 =
      ap (λ (t : ℕ). v % t) (pow-suc 256 n) ∙ split_mod v m (pow_pos n) in
    let top : v / 256 ^ suc n ≡ v / 256 / m =
      ap (λ (t : ℕ). v / t) (pow-succ' 256 n) ∙ sym (div-div-eq-div-mul v 256 m) in
    let high : w / 256 ≡ v / 256 % m = omega (arith, e) in
    let low : w % 256 ≡ v % 256 = omega (arith, e) in
    ap (λ (t : Bytes). (v / 256 ^ suc n % 256) ∷ t) (be_bytes-snoc n w)
    ∙ (λ i. (top i % 256) ∷ (be_bytes n (high i) ++ (low i) ∷ []))

from_hex-nibbles : (n v : ℕ) → from_hex (nibbles (n * 2) v) ≡ be_bytes n v
from_hex-nibbles zero v = unfold from_hex nibbles be_bytes in refl
from_hex-nibbles (suc n) v =
    let e : suc n * 2 ≡ suc (suc (n * 2)) = omega arith in
    let byte : v / 16 % 16 * 16 + v % 16 ≡ v % 256 = omega arith in
    let up : v / 16 / 16 ≡ v / 256 = omega arith in
    ap (λ (t : ℕ). from_hex (nibbles t v)) e
    ∙ ap from_hex (nibbles_two (n * 2) v)
    ∙ from_hex-append n (nibbles (n * 2) (v / 16 / 16)) (v / 16 % 16) (v % 16)
        (length-nibbles (n * 2) (v / 16 / 16))
    ∙ (λ i. from_hex (nibbles (n * 2) (up i)) ++ (byte i) ∷ [])
    ∙ ap (λ (t : Bytes). t ++ (v % 256) ∷ []) (from_hex-nibbles n (v / 256))
    ∙ sym (be_bytes-snoc n v)

digits_of_bytes : (n : ℕ) → 16 ^ (n * 2) ≡ 256 ^ n
digits_of_bytes zero = refl
digits_of_bytes (suc n) =
    let e : suc n * 2 ≡ suc (suc (n * 2)) = omega arith in
    ap (λ (t : ℕ). 16 ^ t) e
    ∙ omega (arith, pow-suc 16 (suc (n * 2)), pow-suc 16 (n * 2), digits_of_bytes n, pow-suc 256 n)

bits_of_bytes : (n : ℕ) → 2 ^ (n * 8) ≡ 256 ^ n
bits_of_bytes zero = refl
bits_of_bytes (suc n) =
    let e : suc n * 8 ≡ n * 8 + 8 = omega arith in
    ap (λ (t : ℕ). 2 ^ t) e ∙ simp towards_suc (omega (arith, bits_of_bytes n, pow-suc 256 n))

-- For a natural number that fits n bytes, the helper's way by hexadecimal digits and padding gives
-- the n big-endian bytes of the number.
pub natural_to_buffer-be_bytes : (n v : ℕ) → v < 256 ^ n → natural_to_buffer v n ≡ be_bytes n v
unfolding natural_to_buffer
natural_to_buffer-be_bytes n v h = pad-to_hex n v (rw (digits_of_bytes n) h) ∙ from_hex-nibbles n v

negative_fits :
    (fuel n byte_length : ℕ)
    → n < 256 ^ byte_length
    → negative_to_buffer fuel n byte_length
      ≡ natural_to_buffer (256 ^ byte_length - 1 - n) byte_length
unfolding negative_to_buffer
negative_fits zero n byte_length h = rw (bits_of_bytes byte_length)
negative_fits (suc fuel) n byte_length h = rw (bits_of_bytes byte_length, lt→ltb n _ h)

-- The integers that n bytes of two's complement hold.
abbrev pub FitsSigned : ℕ → ℤ → Type 0
FitsSigned n (pos v) = 2 * v < 256 ^ n
FitsSigned n (negsuc m) = 2 * (m + 1) ≤ 256 ^ n

-- A bigint that fits n bytes of two's complement is read back, sign included, by the contracts'
-- reading of an integer of n bytes from the buffer that the helper writes.
pub bigint_to_buffer-be_signed :
    (n : ℕ) (z : ℤ) → FitsSigned n z → be_signed n (bigint_to_buffer z n) ≡ z
unfolding bigint_to_buffer be_signed
bigint_to_buffer-be_signed n (pos v) h =
    rw (natural_to_buffer-be_bytes n v (omega arith), be_value-be_bytes n v (omega arith))
      (ground arith)
bigint_to_buffer-be_signed n (negsuc m) h =
    let v = 256 ^ n - 1 - m in
    rw
      (
        negative_fits m m n (omega arith),
        natural_to_buffer-be_bytes n v (omega arith),
        be_value-be_bytes n v (omega arith),
      )
      (ground arith)

-- A bigint that fits the field fills it.
pub length-bigint_to_buffer : (n : ℕ) (z : ℤ) → FitsSigned n z → length (bigint_to_buffer z n) ≡ n
unfolding bigint_to_buffer
length-bigint_to_buffer n (pos v) h =
    ap (λ (t : Bytes). length t) (natural_to_buffer-be_bytes n v (omega arith))
    ∙ length-be_bytes n v
length-bigint_to_buffer n (negsuc m) h =
    let v = 256 ^ n - 1 - m in
    ap (λ (t : Bytes). length t)
      (negative_fits m m n (omega arith) ∙ natural_to_buffer-be_bytes n v (omega arith))
    ∙ length-be_bytes n v

-- ===== src/Prelude/Bytes.antt =====
-- Buffers: lists of bytes, each a number below 256, and their big-endian values.
use stacks_pyth_bridge.Prelude.Tests.{◌==◌, ltb, if◌then◌else◌}
use stacks_pyth_bridge.Prelude.Lists.{length, All}
use stacks_pyth_bridge.Prelude.Int.{ℤ, pos, negsuc}
use Prim.Native.Nat.{ℕ, zero, suc, ◌+◌, ◌-◌, ◌*◌, ◌/◌, ◌%◌, ◌^◌, ◌<◌}
use mathlib.Core.Path.{◌≡◌, refl, ap, ◌∙◌, subst}
use mathlib.Core.Logic.{◌↔◌}
use mathlib.Core.Bool.{Bool, true, false, ◌&&◌}
use mathlib.Core.List.{List, [], ◌∷◌}
use native.Mathlib.Omega.{arith}
use native.Mathlib.Nat.{div-add-mod, div-lt_iff_lt-mul, pow-suc}

abbrev pub Bytes : Type 0
Bytes = List ℕ

abbrev pub IsByte : ℕ → Type 0
IsByte b = b < 256

-- `is-eq` of two buffers.
unfoldable pub bytes_eq : Bytes → Bytes → Bool
bytes_eq [] [] = true
bytes_eq [] (y ∷ ys) = false
bytes_eq (x ∷ xs) [] = false
bytes_eq (x ∷ xs) (y ∷ ys) = x == y && bytes_eq xs ys

pub bytes_eq_sound : (a b : Bytes) → bytes_eq a b ≡ true → a ≡ b
unfolding bytes_eq
bytes_eq_sound [] [] h = refl
bytes_eq_sound [] (y ∷ ys) h = cc
bytes_eq_sound (x ∷ xs) [] h = cc
bytes_eq_sound (x ∷ xs) (y ∷ ys) h = ground (arith, bytes_eq_sound xs ys)

pub bytes_eq_refl : (a : Bytes) → bytes_eq a a ≡ true
unfolding bytes_eq
bytes_eq_refl [] = refl
bytes_eq_refl (x ∷ xs) = ground (arith, bytes_eq_refl xs)

pub bytes_eq_iff : (a b : Bytes) → (bytes_eq a b ≡ true) ↔ (a ≡ b)
bytes_eq_iff a b =
    (bytes_eq_sound a b, λ e. subst (λ (t : Bytes). bytes_eq a t ≡ true) e (bytes_eq_refl a))

-- `buff-to-uint-be`, with the value of the bytes read before.
unfoldable pub be_from : ℕ → Bytes → ℕ
be_from acc [] = acc
be_from acc (b ∷ bs) = be_from (acc * 256 + b) bs

abbrev pub be_value : Bytes → ℕ
be_value bs = be_from 0 bs

-- `buff-to-int-be` of a field of n bytes: two's complement.
unfoldable pub be_signed : ℕ → Bytes → ℤ
be_signed n bs =
    let v = be_value bs in if ltb (2 * v) (256 ^ n) then pos v else negsuc (256 ^ n - 1 - v)

-- The n lowest bytes of a number, the highest first.
unfoldable pub be_bytes : ℕ → ℕ → Bytes
be_bytes zero v = []
be_bytes (suc n) v = (v / 256 ^ n % 256) ∷ be_bytes n (v % 256 ^ n)

pub length-be_bytes : (n v : ℕ) → length (be_bytes n v) ≡ n
unfolding be_bytes
length-be_bytes zero v = refl
length-be_bytes (suc n) v = ap suc (length-be_bytes n (v % 256 ^ n))

pub be_bytes-IsByte : (n v : ℕ) → All IsByte (be_bytes n v)
unfolding be_bytes
be_bytes-IsByte zero v = tt
be_bytes-IsByte (suc n) v = (omega arith, be_bytes-IsByte n (v % 256 ^ n))

pow_pos : (n : ℕ) → 0 < 256 ^ n
pow_pos zero = omega arith
pow_pos (suc n) = omega (arith, pow-suc 256 n, pow_pos n)

rest_below : (n v : ℕ) → v % 256 ^ n < 256 ^ n
rest_below n v = grind (arith, pow_pos n)

top_digit : (n v : ℕ) → v < 256 ^ suc n → v / 256 ^ n % 256 ≡ v / 256 ^ n
top_digit n v h =
    let q : v / 256 ^ n < 256 = (div-lt_iff_lt-mul (pow_pos n)).1 (omega (arith, pow-suc 256 n)) in
    omega arith

pub be_from-be_bytes : (n acc v : ℕ) → v < 256 ^ n → be_from acc (be_bytes n v) ≡ acc * 256 ^ n + v
unfolding be_from be_bytes
be_from-be_bytes zero acc v h = omega arith
be_from-be_bytes (suc n) acc v h =
    rw (be_from-be_bytes n (acc * 256 + v / 256 ^ n % 256) (v % 256 ^ n) (rest_below n v)) (
      omega (
        arith,
        top_digit n v h,
        div-add-mod v (256 ^ n),
        pow-suc 256 n,
        ap (λ (t : ℕ). acc * t) (pow-suc 256 n),
        ap (λ (t : ℕ). t * 256 ^ n) (top_digit n v h),
      ))

pub be_value-be_bytes : (n v : ℕ) → v < 256 ^ n → be_value (be_bytes n v) ≡ v
be_value-be_bytes n v h = be_from-be_bytes n 0 v h ∙ omega arith

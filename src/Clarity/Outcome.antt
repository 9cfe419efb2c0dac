-- ===== src/Clarity/Outcome.antt =====
-- Clarity, the language of the contracts under contracts/: responses, runtime errors, checked
-- 128-bit arithmetic.
use stacks_pyth_bridge.Prelude.{arith, ℕ, zero, suc, ◌-◌, ◌*◌, ◌^◌, ◌≡◌, refl, Bool, true, false}
use stacks_pyth_bridge.Prelude.Bytes.{Bytes}
use stacks_pyth_bridge.Prelude.{
  Option, none, some, ltb, leb, le→leb, ◌≤◌, if◌then◌else◌, List, [], ◌∷◌, ◌++◌, length,
}

-- `(response A uint)`, or the runtime error (a failed `unwrap-panic`, an arithmetic overflow) that
-- aborts the transaction.
pub data Outcome {ℓ} (A : Type ℓ) : Type ℓ where
  ok : A → Outcome A
  err : ℕ → Outcome A
  panic : Outcome A

-- `try!`
infixl 5 ◌>>=◌ ◌>>◌
abbrev pub ◌>>=◌ {ℓ κ} : {A : Type ℓ} {B : Type κ} → Outcome A → (A → Outcome B) → Outcome B
ok a >>= f = f a
err e >>= f = err e
panic >>= f = panic

-- A step whose answer is not used.
abbrev pub ◌>>◌ {ℓ} : {B : Type ℓ} → Outcome (Unit {0}) → Outcome B → Outcome B
first >> rest = first >>= λ _. rest

-- `(asserts! test (err code))`
abbrev pub asserts : Bool → ℕ → Outcome (Unit {0})
asserts true code = ok tt
asserts false code = err code

-- `(unwrap! response (err code))`, and `(unwrap! optional (err code))`
abbrev pub unwrap {ℓ} : {A : Type ℓ} → Outcome A → ℕ → Outcome A
unwrap (ok a) code = ok a
unwrap (err e) code = err code
unwrap panic code = panic

abbrev pub unwrap_some {ℓ} : {A : Type ℓ} → Option A → ℕ → Outcome A
unwrap_some (some a) code = ok a
unwrap_some none code = err code

-- `(unwrap-panic response)`, and `(unwrap-panic optional)`
abbrev pub unwrap_panic {ℓ} : {A : Type ℓ} → Outcome A → Outcome A
unwrap_panic (ok a) = ok a
unwrap_panic (err e) = panic
unwrap_panic panic = panic

abbrev pub some_or_panic {ℓ} : {A : Type ℓ} → Option A → Outcome A
some_or_panic (some a) = ok a
some_or_panic none = panic

abbrev pub is_ok {ℓ} : {A : Type ℓ} → Outcome A → Bool
is_ok (ok a) = true
is_ok (err e) = false
is_ok panic = false

-- `uint` holds 128 bits, and an operation that leaves the range is a runtime error.
abbrev pub uint_limit : ℕ
uint_limit = 2 ^ 128

unfoldable pub uint_sub : ℕ → ℕ → Outcome ℕ
uint_sub a b = if leb b a then ok (a - b) else panic

unfoldable pub uint_mul : ℕ → ℕ → Outcome ℕ
uint_mul a b = if ltb (a * b) uint_limit then ok (a * b) else panic

unfoldable pub uint_pow : ℕ → ℕ → Outcome ℕ
unfolding uint_mul
uint_pow a zero = ok 1
uint_pow a (suc e) = do r ← uint_pow a e; uint_mul a r

-- `(unwrap-panic (as-max-len? (append xs x) max-len))`
unfoldable pub append_max {ℓ} : {A : Type ℓ} → ℕ → List A → A → Outcome (List A)
append_max max_len xs x = if ltb (length xs) max_len then ok (xs ++ x ∷ []) else panic

-- Where a chain succeeds, its first step has.
pub >>=-eq-ok {ℓ κ} :
    {A : Type ℓ} {B : Type κ} {result : B} (first : Outcome A) (next : A → Outcome B)
    → (first >>= next) ≡ ok result
    → (value : A) × (first ≡ ok value) × (next value ≡ ok result)
>>=-eq-ok panic next done = cc
>>=-eq-ok (err code) next done = cc
>>=-eq-ok (ok value) next done = (value, refl, done)

pub asserts-true : (t : Bool) (code : ℕ) {u : Unit {0}} → asserts t code ≡ ok u → t ≡ true
asserts-true true code h = refl
asserts-true false code h = cc

pub unwrap-eq-ok {ℓ} :
    {A : Type ℓ} {a : A} (o : Outcome A) (code : ℕ) → unwrap o code ≡ ok a → o ≡ ok a
unwrap-eq-ok (ok x) code h = h
unwrap-eq-ok (err e) code h = cc h
unwrap-eq-ok panic code h = cc h

pub unwrap_panic-eq-ok {ℓ} : {A : Type ℓ} {a : A} (o : Outcome A) → unwrap_panic o ≡ ok a → o ≡ ok a
unwrap_panic-eq-ok (ok x) h = h
unwrap_panic-eq-ok (err e) h = cc h
unwrap_panic-eq-ok panic h = cc h

pub append_max-eq-ok {ℓ} :
    {A : Type ℓ} (n : ℕ) (xs : List A) (x : A) {ys : List A}
    → append_max n xs x ≡ ok ys
    → ys ≡ xs ++ x ∷ []
unfolding append_max
append_max-eq-ok n xs x h = ground arith

-- A function of a `(buff n)`: a longer buffer is a runtime error.
abbrev pub with_buff {ℓ} : {A : Type ℓ} → ℕ → (Bytes → Outcome A) → Bytes → Outcome A
with_buff n f b = if leb (length b) n then f b else panic

pub with_buff-fits {ℓ} :
    {A : Type ℓ} (n : ℕ) (f : Bytes → Outcome A) (b : Bytes) {result : Outcome A}
    → length b ≤ n
    → f b ≡ result
    → with_buff n f b ≡ result
with_buff-fits n f b fits done = rw (le→leb _ _ fits) done

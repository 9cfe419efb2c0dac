-- ===== src/Runs/Generated.antt =====
-- A run of a VAA that is drawn, with one signature that is given.
use stacks_pyth_bridge.Prelude.{
  ℕ, zero, suc, ◌≡◌, ◌≤◌, refl, sym, ap, ◌⊎◌, inl, inr, some, none, Bool-cases, List, [], ◌∷◌, ◌++◌,
  arith, map, length, All, leb, leb→le, if◌then◌else◌, subst,
}
use stacks_pyth_bridge.Prelude.Bytes.{Bytes, IsByte, be_bytes, length-be_bytes, be_bytes-IsByte}
use stacks_pyth_bridge.Clarity.Outcome.{ok, ◌>>=◌, with_buff}
use stacks_pyth_bridge.Clarity.Cursor.{flat, flat_laws}
use stacks_pyth_bridge.Clarity.Types.{Signature}
use stacks_pyth_bridge.Harness.Wormhole.{serialize_vaa_to_buffer, serialize_vaa_body_to_buffer}
use stacks_pyth_bridge.Harness.Generators.{
  FastCheck, FastCheckLaws, VaaBodyBuildOptions, VaaHeaderBuildOptions, vaa_body, vaa_header,
  assemble_vaa_body, assemble_vaa_header,
}
use stacks_pyth_bridge.Bridge.Signatures.{signature_bytes}
use stacks_pyth_bridge.Bridge.Vaa.{body_of}
use stacks_pyth_bridge.Bridge.Generated.{Fits, parse_vaa-generated}
use stacks_pyth_bridge.Wormhole.{Header, vaa_of, parse_vaa, recover_public_keys}
use stacks_pyth_bridge.Wormhole.Keys.{In}
use stacks_pyth_bridge.Runs.Wormhole.{sample_crypto}

pub zeros : ℕ → Bytes
zeros zero = []
zeros (suc n) = 0 ∷ zeros n

zeros-IsByte : (n : ℕ) → (length (zeros n) ≡ n) × All IsByte (zeros n)
unfolding zeros
zeros-IsByte zero = (refl, tt)
zeros-IsByte (suc n) = let (l, a) = zeros-IsByte n in (ap suc l, (omega arith, a))

-- An arbitrary is a list of samples: the least and the greatest number, the shortest array.
abbrev shortest : ℕ → ℕ → List Bytes
shortest min_length max_length = if leb min_length max_length then zeros min_length ∷ [] else []

abbrev empty_array : {A : Type 0} → ℕ → List (List A)
empty_array zero = [] ∷ []
empty_array (suc n) = []

-- What the samples of a list lead to.
abbrev chained : {A B : Type 0} → List A → (A → List B) → List B
chained [] f = []
chained (x ∷ xs) f = f x ++ chained xs f

In-append : {A : Type 0} (y : A) (xs ys : List A) → In y (xs ++ ys) → In y xs ⊎ In y ys
In-append y [] ys h = inr h
In-append y (x ∷ xs) ys (inl e) = inl (inl e)
In-append y (x ∷ xs) ys (inr h) = elim (In-append y xs ys h) [ inl a ↦ inl (inr a) | inr b ↦ inr b ]

chained_sample :
    {A B : Type 0} (xs : List A) (f : A → List B) (y : B)
    → In y (chained xs f)
    → (x : A) × In x xs × In y (f x)
chained_sample [] f y h = absurd h
chained_sample {A = A} {B = B} (x ∷ xs) f y h =
    found (In-append y (f x) (chained xs f) h) (chained_sample xs f y)
  where
    found :
        In y (f x) ⊎ In y (chained xs f)
        → (In y (chained xs f) → (z : A) × In z xs × In y (f z))
        → (z : A) × In z (x ∷ xs) × In y (f z)
    found (inl here) rest = (x, inl refl, here)
    found (inr there) rest = let (z, i, j) = rest there in (z, inr i, j)

abbrev pub samples : FastCheck
samples = record {
  Arbitrary = λ A. List A;
  Gives = λ a x. In x a;
  nat = λ max. 0 ∷ max ∷ [];
  big_uint_n = λ bits. [];
  big_int_n = λ bits. [];
  uint8_array = shortest;
  array = λ a min_length max_length. empty_array min_length;
  constant = λ a. a ∷ [];
  chain = chained;
}

nat_sample : (max n : ℕ) → In n (0 ∷ max ∷ []) → n ≤ max
nat_sample max n (inl e) = omega arith
nat_sample max n (inr (inl e)) = omega arith
nat_sample max n (inr (inr e)) = absurd e

array_sample :
    (a c : ℕ) (b : Bytes) → In b (shortest a c) → (a ≤ length b) × (length b ≤ c) × All IsByte b
array_sample a c b g = elim (Bool-cases (leb a c)) [
  | inl fits ↦ found (leb→le a c fits) (rw fits at g)
  | inr large ↦ absurd (rw large at g)
]
  where
    found : a ≤ c → In b (zeros a ∷ []) → (a ≤ length b) × (length b ≤ c) × All IsByte b
    found h (inl e) =
        let (l, s) = zeros-IsByte a in
        subst (λ (t : Bytes). (a ≤ length t) × (length t ≤ c) × All IsByte t) (sym e)
          (omega (arith, l), omega (arith, l), s)
    found h (inr e) = absurd e

list_sample :
    {A : Type 0} (xs : List A) (a c : ℕ) (ys : List A)
    → In ys (empty_array a)
    → (a ≤ length ys) × (length ys ≤ c) × All (λ x. In x xs) ys
list_sample xs zero c ys (inl e) =
    subst (λ t. (0 ≤ length t) × (length t ≤ c) × All (λ x. In x xs) t) (sym e)
      (omega arith, omega arith, tt)
list_sample xs zero c ys (inr e) = absurd e
list_sample xs (suc a) c ys g = absurd g

pub samples_laws : FastCheckLaws samples
samples_laws = record {
  nat_range = nat_sample;
  big_uint_n_range = λ bits n g. absurd g;
  uint8_array_range = array_sample;
  array_range = λ a min_length max_length xs g. list_sample a min_length max_length xs g;
  big_int_n_range = λ bits z g. absurd g;
  chain_value = λ a f y g. chained_sample a f y g;
  constant_value = λ a x g. elim g [ inl e ↦ sym e | inr e ↦ absurd e ];
}

abbrev body_options : VaaBodyBuildOptions
body_options = record {
  timestamp = none;
  emitter_chain = some 1;
  nonce = none;
  emitter_address = none;
  sequence = some 6;
  consistency_level = none;
  payload = some (8 ∷ 9 ∷ []);
}

abbrev raw : Bytes
raw = 2 ∷ be_bytes 65 3

abbrev header_options : VaaHeaderBuildOptions
header_options = record { version = some 1; guardian_set_id = none; signatures = some (raw ∷ []) }

fitting : Fits body_options header_options
fitting = record {
  timestamp = tt;
  nonce = tt;
  emitter_chain = omega arith;
  emitter_address = tt;
  sequence = omega arith;
  consistency_level = tt;
  payload = omega arith;
  version = omega arith;
  guardian_set_id = tt;
  signatures = ((ap suc (length-be_bytes 65 3), (omega arith, be_bytes-IsByte 65 3)), tt);
  count = omega arith;
}

parse_vaa-generated_example :
    (bytes : Bytes) × (serialize_vaa_to_buffer
        (assemble_vaa_header 1 255 ((raw ∷ []) ++ []))
        (assemble_vaa_body 4294967295 0 1 (zeros 32) 6 255 (8 ∷ 9 ∷ []))
      ≡ some bytes)
    × (header : Header) × (body : Bytes) × (signatures : List Signature)
    × (serialize_vaa_body_to_buffer (assemble_vaa_body 4294967295 0 1 (zeros 32) 6 255 (8 ∷ 9 ∷ []))
        ≡ some body)
    × (header.version ≡ 1)
    × (header.guardian_set_id ≡ 255)
    × (map signature_bytes signatures ≡ (raw ∷ []) ++ [])
    × (with_buff 8192 (parse_vaa flat (sample_crypto 5)) bytes ≡ (
        recover_public_keys
          (sample_crypto 5)
          ((sample_crypto 5).keccak256 ((sample_crypto 5).keccak256 body))
          signatures
          []
        >>= λ keys. ok (record {
          vaa =
              vaa_of header signatures
                (body_of (assemble_vaa_body 4294967295 0 1 (zeros 32) 6 255 (8 ∷ 9 ∷ [])));
          recovered_public_keys = keys;
        })))
unfolding vaa_body vaa_header
parse_vaa-generated_example =
    parse_vaa-generated samples samples_laws flat flat_laws (sample_crypto 5) body_options
      header_options 4294967295 0 1 6 255 1 255 (zeros 32) (8 ∷ 9 ∷ []) (raw ∷ []) [] fitting
      (inr (inl refl)) (inl refl) (inl refl) (inl refl) (inl refl) (inr (inl refl)) (inl refl)
      (inl refl) (inr (inl refl)) (inl refl) (inl refl)

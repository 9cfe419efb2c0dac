-- ===== src/Harness/Generators.antt =====
-- unit-tests/wormhole/helpers.ts and unit-tests/pyth/helpers.ts, the generators of random tests
-- (fc_ext): what the headers, bodies and price updates are drawn from.
pub mod Prices
use stacks_pyth_bridge.Prelude.{
  ℕ, zero, suc, ◌+◌, ◌*◌, ◌-◌, ◌≤◌, ◌<◌, ◌^◌, ◌≡◌, Option, none, some, List, length, All,
}
use stacks_pyth_bridge.Prelude.Bytes.{Bytes, IsByte}
use stacks_pyth_bridge.Prelude.Int.{ℤ, pos, negsuc}
use stacks_pyth_bridge.Harness.Wormhole.{VaaBody, VaaHeader}

-- fast-check: an arbitrary, and what it can give.
pub record FastCheck : Type 1 where
  pub Arbitrary : Type 0 → Type 0
  pub Gives : {A : Type 0} → Arbitrary A → A → Type 0
  pub nat : ℕ → Arbitrary ℕ
  pub big_uint_n : ℕ → Arbitrary ℕ
  pub big_int_n : ℕ → Arbitrary ℤ
  pub uint8_array : ℕ → ℕ → Arbitrary Bytes
  pub array : {A : Type 0} → Arbitrary A → ℕ → ℕ → Arbitrary (List A)
  pub constant : {A : Type 0} → A → Arbitrary A
  pub chain : {A B : Type 0} → Arbitrary A → (A → Arbitrary B) → Arbitrary B

-- Two's complement of so many bits.
abbrev pub FitsBits : ℕ → ℤ → Type 0
FitsBits bits (pos v) = 2 * v < 2 ^ bits
FitsBits bits (negsuc m) = 2 * (m + 1) ≤ 2 ^ bits

-- Its documented ranges.
pub record FastCheckLaws (fc : FastCheck) : Type 1 where
  pub nat_range : (max n : ℕ) → fc.Gives (fc.nat max) n → n ≤ max
  pub big_uint_n_range : (bits n : ℕ) → fc.Gives (fc.big_uint_n bits) n → n < 2 ^ bits
  pub big_int_n_range : (bits : ℕ) (z : ℤ) → fc.Gives (fc.big_int_n bits) z → FitsBits bits z
  pub uint8_array_range :
      (min_length max_length : ℕ) (b : Bytes)
      → fc.Gives (fc.uint8_array min_length max_length) b
      → (min_length ≤ length b) × (length b ≤ max_length) × All IsByte b
  pub array_range :
      {A : Type 0} (a : fc.Arbitrary A) (min_length max_length : ℕ) (xs : List A)
      → fc.Gives (fc.array a min_length max_length) xs
      → (min_length ≤ length xs) × (length xs ≤ max_length) × All (fc.Gives a) xs
  pub constant_value : {A : Type 0} (a x : A) → fc.Gives (fc.constant a) x → a ≡ x
  pub chain_value :
      {A B : Type 0} (a : fc.Arbitrary A) (f : A → fc.Arbitrary B) (y : B)
      → fc.Gives (fc.chain a f) y
      → (x : A) × fc.Gives a x × fc.Gives (f x) y

pub record VaaBodyBuildOptions : Type 0 where
  pub timestamp : Option ℕ
  pub emitter_chain : Option ℕ
  pub nonce : Option ℕ
  pub emitter_address : Option Bytes
  pub sequence : Option ℕ
  pub consistency_level : Option ℕ
  pub payload : Option Bytes

pub record VaaHeaderBuildOptions : Type 0 where
  pub version : Option ℕ
  pub guardian_set_id : Option ℕ
  pub signatures : Option (List Bytes)

unfoldable pub assemble_vaa_body : ℕ → ℕ → ℕ → Bytes → ℕ → ℕ → Bytes → VaaBody
assemble_vaa_body timestamp nonce emitter_chain emitter_address sequence consistency_level payload =
    record {
      timestamp = timestamp;
      nonce = nonce;
      emitter_chain = emitter_chain;
      emitter_address = emitter_address;
      sequence = sequence;
      consistency_level = consistency_level;
      payload = payload;
    }

unfoldable pub assemble_vaa_header : ℕ → ℕ → List Bytes → VaaHeader
assemble_vaa_header version guardian_set_id signatures = record {
  version = version;
  guardian_set_id = guardian_set_id;
  signatures = signatures;
}

abbrev pub length_or_zero : Option (List Bytes) → ℕ
length_or_zero none = 0
length_or_zero (some xs) = length xs

module _ (fc : FastCheck) where
  -- The parts of the tuples.
  pub record VaaBodyArbitraries : Type 0 where
    pub timestamp : fc.Arbitrary ℕ
    pub nonce : fc.Arbitrary ℕ
    pub emitter_chain : fc.Arbitrary ℕ
    pub emitter_address : fc.Arbitrary Bytes
    pub sequence : fc.Arbitrary ℕ
    pub consistency_level : fc.Arbitrary ℕ
    pub payload : fc.Arbitrary Bytes

  pub record VaaHeaderArbitraries : Type 0 where
    pub version : fc.Arbitrary ℕ
    pub guardian_set_id : fc.Arbitrary ℕ
    pub specified_signatures : fc.Arbitrary (List Bytes)
    pub generated_signatures : fc.Arbitrary (List Bytes)

  -- `if (opts && opts.field)`: the number 0 counts as none.
  abbrev pub fixed_number : Option ℕ → fc.Arbitrary ℕ → fc.Arbitrary ℕ
  fixed_number none arbitrary = arbitrary
  fixed_number (some zero) arbitrary = arbitrary
  fixed_number (some (suc n)) arbitrary = fc.constant (suc n)

  abbrev pub fixed : {A : Type 0} → Option A → fc.Arbitrary A → fc.Arbitrary A
  fixed none arbitrary = arbitrary
  fixed (some a) arbitrary = fc.constant a

  unfoldable pub vaa_body : VaaBodyBuildOptions → VaaBodyArbitraries
  vaa_body opts = record {
    timestamp = fixed_number opts.timestamp (fc.nat 4294967295);
    nonce = fixed_number opts.nonce (fc.nat 4294967295);
    emitter_chain = fixed_number opts.emitter_chain (fc.nat 65535);
    emitter_address = fixed opts.emitter_address (fc.uint8_array 32 32);
    sequence = fixed_number opts.sequence (fc.big_uint_n 64);
    consistency_level = fixed_number opts.consistency_level (fc.nat 255);
    payload = fixed opts.payload (fc.uint8_array 20 2048);
  }

  unfoldable pub vaa_header : VaaHeaderBuildOptions → ℕ → VaaHeaderArbitraries
  vaa_header opts number_of_signatures = record {
    version = fixed_number opts.version (fc.nat 255);
    guardian_set_id = fixed_number opts.guardian_set_id (fc.nat 255);
    specified_signatures = fixed opts.signatures (fc.array (fc.uint8_array 66 66) 0 0);
    generated_signatures =
        fc.array (fc.uint8_array 66 66) 0 (number_of_signatures - length_or_zero opts.signatures);
  }

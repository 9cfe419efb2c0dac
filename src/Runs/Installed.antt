-- ===== src/Runs/Installed.antt =====
-- Runs of guardian set updates: the first set of two guardians, whose keys have both forms.
use stacks_pyth_bridge.Prelude.{
  ℕ, ◌≡◌, refl, ap, subst, some, none, false, inl, List, [], ◌∷◌, ◌++◌, arith, length, take,
  take-append, append_assoc, length-append, ◌∙◌,
}
use stacks_pyth_bridge.Prelude.Bytes.{Bytes, be_bytes, be_value, length-be_bytes}
use stacks_pyth_bridge.Clarity.Outcome.{ok}
use stacks_pyth_bridge.Clarity.Cursor.{flat, flat_laws}
use stacks_pyth_bridge.Clarity.Types.{Vaa}
use stacks_pyth_bridge.Harness.Wormhole.{Noble, VaaBody, VaaHeader, generate_guardian_set_keychain}
use stacks_pyth_bridge.Harness.Apply.{apply_guardian_set_update}
use stacks_pyth_bridge.Bridge.Guardians.{NobleLaws}
use stacks_pyth_bridge.Bridge.Rotated.{KeyLaws}
use stacks_pyth_bridge.Bridge.Installed.{installed, apply_guardian_set_update-sent}
use stacks_pyth_bridge.Wormhole.{Crypto, Wormhole}

abbrev x_of : Bytes → Bytes
x_of secret_key = be_bytes 32 (be_value secret_key)

abbrev paired_noble : Noble
paired_noble = record {
  keccak_256 = λ b. be_bytes 32 (length b);
  uncompressed_key = λ s. 4 ∷ (x_of s ++ (be_bytes 31 0 ++ 0 ∷ []));
  compressed_key = λ s. 2 ∷ x_of s;
  sign = λ h s. x_of s ++ be_bytes 32 0;
  recovery = λ h s. 0;
}

abbrev paired_crypto : Crypto
paired_crypto = record {
  keccak256 = λ b. be_bytes 32 (length b);
  secp256k1_recover = λ h s. some (2 ∷ take 32 s);
}

take_x : (s rest : Bytes) → take 32 (x_of s ++ rest) ≡ x_of s
take_x s rest =
    subst (λ (n : ℕ). take n (x_of s ++ rest) ≡ x_of s) (length-be_bytes 32 (be_value s))
      (take-append (x_of s) rest)

paired_laws : NobleLaws paired_noble paired_crypto
paired_laws = record {
  keccak256_lem = λ b. refl;
  length-sign = λ h s. omega (
    arith,
    length-append (x_of s) (be_bytes 32 0),
    length-be_bytes 32 (be_value s),
    length-be_bytes 32 0,
  );
  recovery_small = λ h s. omega arith;
  recovered = λ h s.
      ap (λ (t : Bytes). some (2 ∷ t))
        (ap (λ (t : Bytes). take 32 t) (append_assoc (x_of s) (be_bytes 32 0) (be_bytes 1 0))
          ∙ take_x s (be_bytes 32 0 ++ be_bytes 1 0));
}

paired_keys : KeyLaws paired_noble
paired_keys = record {
  length-keccak_256 = λ b. length-be_bytes 32 (length b);
  key_forms = λ s.
      (x_of s, be_bytes 31 0, 0, length-be_bytes 32 (be_value s), length-be_bytes 31 0, refl, refl);
}

abbrev secrets : List Bytes
secrets = (1 ∷ 2 ∷ []) ∷ (3 ∷ []) ∷ []

abbrev before : Wormhole
before = record {
  guardian_set_initialized = false;
  active_guardian_set_id = 0;
  guardian_sets = λ _. none;
}

apply_guardian_set_update-sent_example :
    (vaa : Vaa) × (header : VaaHeader) × (body : VaaBody) × (apply_guardian_set_update flat
        paired_crypto paired_noble 100 before
        (generate_guardian_set_keychain paired_noble 0 secrets)
        1
      ≡ some (
        ok (vaa, installed before 1 (generate_guardian_set_keychain paired_noble 0 secrets)),
        (header, body),
      ))
apply_guardian_set_update-sent_example =
    apply_guardian_set_update-sent flat flat_laws paired_noble paired_crypto paired_laws paired_keys
      100 secrets before 1 (omega arith) (omega arith) (omega arith) (omega arith) (inl refl)

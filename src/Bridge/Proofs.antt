-- ===== src/Bridge/Proofs.antt =====
-- The proof of a price update from unit-tests/pyth/helpers.ts, as
-- contracts/pyth-pnau-decoder-v1.clar reads it.
use stacks_pyth_bridge.Prelude.{
  ℕ, suc, ◌+◌, ◌*◌, ◌≤◌, ◌≡◌, refl, sym, ap, ◌∙◌, List, [], ◌∷◌, ◌++◌, length, length-append, arith,
  append-nil, All, drop,
}
use stacks_pyth_bridge.Prelude.Bytes.{Bytes}
use stacks_pyth_bridge.Clarity.Outcome.{ok}
use stacks_pyth_bridge.Clarity.Cursor.{Cursor, HkCursor, HkCursorLaws, remaining-advanced}
use stacks_pyth_bridge.Clarity.Walk.{Walk, walk, walk-entries, Reads, chunks, entries}
use stacks_pyth_bridge.Harness.Buffers.{concat}
use stacks_pyth_bridge.Pnau.Updates.{read_hash, parse_proof}

-- A hash takes 20 bytes.
abbrev pub IsHash20 : Bytes → Type 0
IsHash20 h = length h ≡ 20

module _ (k : HkCursor) (laws : HkCursorLaws k) where
  hashes : List Bytes → List (Bytes × Bytes)
  hashes [] = []
  hashes (h ∷ hs) = (h, h) ∷ hashes hs

  chunks-hashes : (hs : List Bytes) → chunks (hashes hs) ≡ concat hs
  unfolding hashes concat
  chunks-hashes [] = refl
  chunks-hashes (h ∷ hs) = ap (λ (t : Bytes). h ++ t) (chunks-hashes hs)

  entries-hashes : (hs : List Bytes) → entries (hashes hs) ≡ hs
  unfolding hashes
  entries-hashes [] = refl
  entries-hashes (h ∷ hs) = ap (λ (t : List Bytes). h ∷ t) (entries-hashes hs)

  length-hashes : (hs : List Bytes) → length (hashes hs) ≡ length hs
  unfolding hashes
  length-hashes [] = refl
  length-hashes (h ∷ hs) = ap suc (length-hashes hs)

  hashes-Reads :
      (bytes : Bytes) (off : ℕ) (hs : List Bytes)
      → All IsHash20 hs
      → drop off bytes ≡ chunks (hashes hs)
      → Reads (read_hash k bytes) off (hashes hs)
  unfolding hashes read_hash
  hashes-Reads bytes off [] a h = tt
  hashes-Reads bytes off (x ∷ xs) (l, a) h =
      let c : Cursor = record { bytes = bytes; pos = off } in
      (
        rw (laws.new_some bytes off, laws.read_buff_ok 20 c x _ h l, l),
        omega (arith, l),
        hashes-Reads bytes (off + length x) xs a (remaining-advanced c x (chunks (hashes xs)) h),
      )

  pub length-concat : (hs : List Bytes) → All IsHash20 hs → length (concat hs) ≡ 20 * length hs
  unfolding concat
  length-concat [] a = omega arith
  length-concat (h ∷ hs) (l, a) = omega (arith, l, length-append h (concat hs), length-concat hs a)

  -- A proof of at most 128 hashes is read back.
  pub parse_proof-concat :
      (hs : List Bytes)
      → All IsHash20 hs
      → length hs ≤ 128
      → parse_proof k (concat hs) (length hs) ≡ ok hs
  unfolding parse_proof
  parse_proof-concat hs a fits =
      let bytes = concat hs in
      let w : Walk Bytes = record {
        index = 0;
        next_update_index = 0;
        result = [];
        limit = length hs;
      } in
      let (w', e, f) =
        walk-entries (read_hash k bytes) 128 (hashes hs) [] 0 w
          (hashes-Reads bytes 0 hs a (sym (chunks-hashes hs))) refl refl
          (omega (arith, length-hashes hs)) fits in
      let e' : walk (read_hash k bytes) 128 bytes w ≡ ok w' =
        ap (λ (t : Bytes). walk (read_hash k bytes) 128 t w)
          (sym (chunks-hashes hs) ∙ sym (append-nil (chunks (hashes hs))))
        ∙ e in
      rw e' (ap (λ (t : List Bytes). ok t) (f ∙ entries-hashes hs))

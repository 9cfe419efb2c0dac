-- ===== src/Bridge/Fields.antt =====
-- One field of a message: what a cursor reads at bytes that a helper has written.
use stacks_pyth_bridge.Prelude.{ℕ, ◌^◌, ◌<◌, ◌≡◌, ap, ◌∙◌, ◌++◌, length, Option, some}
use stacks_pyth_bridge.Prelude.{lt→ltb, subst}
use stacks_pyth_bridge.Prelude.Bytes.{Bytes, be_bytes, length-be_bytes, be_value-be_bytes}
use stacks_pyth_bridge.Clarity.Outcome.{ok}
use stacks_pyth_bridge.Clarity.Cursor.{
  Cursor, HkCursor, HkCursorLaws, remaining, advanced, remaining-advanced,
}
use stacks_pyth_bridge.Harness.Buffers.{◌>>=◌, write_uint_be}

module _ (k : HkCursor) (laws : HkCursorLaws k) where
  -- A number that fits n bytes.
  pub read_uint-be_bytes :
      (n v : ℕ) (c : Cursor) (rest : Bytes)
      → v < 256 ^ n
      → remaining c ≡ be_bytes n v ++ rest
      → k.read_uint n c ≡ ok (record { value = v; next = advanced c n })
  read_uint-be_bytes n v c rest fits h = rw (
    laws.read_uint_lem n c,
    laws.read_buff_ok n c (be_bytes n v) rest h (length-be_bytes n v),
    be_value-be_bytes n v fits,
  )

-- What remains after n bytes.
pub remaining_next :
    (n : ℕ) (c : Cursor) (v rest : Bytes)
    → remaining c ≡ v ++ rest
    → length v ≡ n
    → remaining (advanced c n) ≡ rest
remaining_next n c v rest h e =
    subst (λ (t : ℕ). remaining (advanced c t) ≡ rest) e (remaining-advanced c v rest h)

-- A value that fits is written.
pub write_uint_be_fits : (n v : ℕ) → v < 256 ^ n → write_uint_be n v ≡ some (be_bytes n v)
unfolding write_uint_be
write_uint_be_fits n v h = rw (lt→ltb _ _ h)

-- A value there is.
abbrev pub IsMade : {A : Type 0} → Option A → Type 0
IsMade {A} o = (a : A) × (o ≡ some a)

-- A chain whose first step gives a value.
pub then-IsMade :
    {A B : Type 0} (first : Option A) (next : A → Option B) (a : A)
    → first ≡ some a
    → IsMade (next a)
    → IsMade (first >>= next)
then-IsMade first next a e (b, f) = (b, ap (λ t. t >>= next) e ∙ f)

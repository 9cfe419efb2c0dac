-- ===== src/Clarity/Cursor.antt =====
-- hk-cursor-v2, the contract by which every decoder reads its buffer. It is not part of the
-- repository: its functions are the fields of `HkCursor`, and `HkCursorLaws` is its documented
-- behaviour (a field of n bytes, read big-endian at the position, or an error at the buffer's end).
-- A buffer may have any length here; `with_buff` of Outcome has the bound of an argument.
use stacks_pyth_bridge.Prelude.{ℕ, ◌+◌, ◌<◌, ◌≡◌, refl, ap, ◌∙◌, Option, none, some}
use stacks_pyth_bridge.Prelude.{[], ◌++◌, arith, length, take, drop, length-append}
use stacks_pyth_bridge.Prelude.{take-append, drop-append, drop-add, leb, if◌then◌else◌}
use stacks_pyth_bridge.Prelude.Bytes.{Bytes, be_value, be_signed}
use stacks_pyth_bridge.Prelude.Int.{ℤ}
use stacks_pyth_bridge.Clarity.Outcome.{Outcome, ok, err, panic}

-- { bytes: (buff 8192), pos: uint }
pub record Cursor : Type 0 where
  pub bytes : Bytes
  pub pos : ℕ

-- { value: A, next: cursor }
pub record Reading (A : Type 0) : Type 0 where
  pub value : A
  pub next : Cursor

abbrev pub advanced : Cursor → ℕ → Cursor
advanced c n = record { bytes = c.bytes; pos = c.pos + n }

-- What stands from the position on.
abbrev pub remaining : Cursor → Bytes
remaining c = drop c.pos c.bytes

-- `read_buff n` is read-buff-n; `read_uint n` and `read_int n` are read-uint-8n and read-int-8n;
-- `new` gives the cursor under `next`.
pub record HkCursor : Type 0 where
  pub read_buff : ℕ → Cursor → Outcome (Reading Bytes)
  pub read_uint : ℕ → Cursor → Outcome (Reading ℕ)
  pub read_int : ℕ → Cursor → Outcome (Reading ℤ)
  pub read_buff_8192_max : Cursor → Option ℕ → Outcome (Reading Bytes)
  pub slice : Cursor → Option ℕ → Bytes
  pub new : Bytes → Option ℕ → Cursor
  pub advance : Cursor → ℕ → Cursor

abbrev pub map_value : {A B : Type 0} → (A → B) → Outcome (Reading A) → Outcome (Reading B)
map_value f (ok r) = ok (record { value = f r.value; next = r.next })
map_value f (err e) = err e
map_value f panic = panic

pub record HkCursorLaws (k : HkCursor) : Type 0 where
  pub read_buff_ok :
      (n : ℕ) (c : Cursor) (v rest : Bytes)
      → remaining c ≡ v ++ rest
      → length v ≡ n
      → k.read_buff n c ≡ ok (record { value = v; next = advanced c n })
  pub read_buff_short :
      (n : ℕ) (c : Cursor) → length (remaining c) < n → (code : ℕ) × (k.read_buff n c ≡ err code)
  pub read_uint_lem : (n : ℕ) (c : Cursor) → k.read_uint n c ≡ map_value be_value (k.read_buff n c)
  pub read_int_lem :
      (n : ℕ) (c : Cursor) → k.read_int n c ≡ map_value (be_signed n) (k.read_buff n c)
  pub read_all :
      (c : Cursor)
      → k.read_buff_8192_max c none
        ≡ ok (record { value = remaining c; next = advanced c (length (remaining c)) })
  pub read_some : (n : ℕ) (c : Cursor) → k.read_buff_8192_max c (some n) ≡ k.read_buff n c
  pub slice_all : (c : Cursor) → k.slice c none ≡ remaining c
  pub slice_some :
      (n : ℕ) (c : Cursor) (v rest : Bytes)
      → remaining c ≡ v ++ rest
      → length v ≡ n
      → k.slice c (some n) ≡ v
  pub new_none : (b : Bytes) → k.new b none ≡ record { bytes = b; pos = 0 }
  pub new_some : (b : Bytes) (n : ℕ) → k.new b (some n) ≡ record { bytes = b; pos = n }
  pub advance_lem : (c : Cursor) (n : ℕ) → k.advance c n ≡ advanced c n

-- After a field the rest remains.
pub remaining-advanced :
    (c : Cursor) (v rest : Bytes)
    → remaining c ≡ v ++ rest
    → remaining (advanced c (length v)) ≡ rest
remaining-advanced c v rest h =
    drop-add c.pos (length v) c.bytes ∙ ap (λ (t : Bytes). drop (length v) t) h ∙ drop-append v rest

-- A cursor that meets the laws, on which the decoders run.
flat_read : ℕ → Cursor → Outcome (Reading Bytes)
flat_read n c =
    if leb n (length (remaining c))
    then ok (record { value = take n (remaining c); next = advanced c n })
    else err 1

flat_max : Cursor → Option ℕ → Outcome (Reading Bytes)
unfolding flat_read
flat_max c none = ok (record { value = remaining c; next = advanced c (length (remaining c)) })
flat_max c (some n) = flat_read n c

flat_slice : Cursor → Option ℕ → Bytes
flat_slice c none = remaining c
flat_slice c (some n) = if leb n (length (remaining c)) then take n (remaining c) else []

flat_new : Bytes → Option ℕ → Cursor
flat_new b none = record { bytes = b; pos = 0 }
flat_new b (some n) = record { bytes = b; pos = n }

unfoldable pub flat : HkCursor
unfolding flat_read flat_max flat_slice flat_new
flat = record {
  read_buff = flat_read;
  read_uint = λ n c. map_value be_value (flat_read n c);
  read_int = λ n c. map_value (be_signed n) (flat_read n c);
  read_buff_8192_max = flat_max;
  slice = flat_slice;
  new = flat_new;
  advance = advanced;
}

flat_read_ok :
    (n : ℕ) (c : Cursor) (v rest : Bytes)
    → remaining c ≡ v ++ rest
    → length v ≡ n
    → flat_read n c ≡ ok (record { value = v; next = advanced c n })
unfolding flat_read
flat_read_ok n c v rest h e = rw (h, ← e, take-append v rest) (ground (arith, length-append v rest))

flat_slice-some :
    (n : ℕ) (c : Cursor) (v rest : Bytes)
    → remaining c ≡ v ++ rest
    → length v ≡ n
    → flat_slice c (some n) ≡ v
unfolding flat_slice
flat_slice-some n c v rest h e =
    rw (h, ← e, take-append v rest) (ground (arith, length-append v rest))

pub flat_laws : HkCursorLaws flat
unfolding flat
flat_laws = record {
  read_buff_ok = flat_read_ok;
  read_buff_short = λ n c h. (1, ground arith);
  read_uint_lem = λ n c. refl;
  read_int_lem = λ n c. refl;
  read_all = λ c. refl;
  read_some = λ n c. refl;
  slice_all = λ c. refl;
  slice_some = λ n c v rest h e. flat_slice-some n c v rest h e;
  new_none = λ b. refl;
  new_some = λ b n. refl;
  advance_lem = λ c n. refl;
}

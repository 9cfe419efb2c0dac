-- ===== src/Bridge/Sources.antt =====
-- The list of price data sources of a governance message, which the contract reads by a fold over
-- the bytes.
use stacks_pyth_bridge.Prelude.{
  ℕ, suc, ◌+◌, ◌*◌, ◌<◌, ◌≡◌, refl, sym, ap, ◌∙◌, List, [], ◌∷◌, ◌++◌, length, length-append, map,
  some, arith, append-nil, append_assoc, All, drop,
}
use stacks_pyth_bridge.Prelude.Bytes.{Bytes, be_bytes, length-be_bytes}
use stacks_pyth_bridge.Clarity.Outcome.{ok}
use stacks_pyth_bridge.Clarity.Cursor.{
  Cursor, HkCursor, HkCursorLaws, remaining, advanced, remaining-advanced,
}
use stacks_pyth_bridge.Clarity.Types.{DataSource}
use stacks_pyth_bridge.Clarity.Walk.{Walk, walk, walk-entries, Reads, chunks, entries}
use stacks_pyth_bridge.Governance.Ptgm.{parse_and_verify_prices_data_sources, read_data_source}
use stacks_pyth_bridge.Harness.Ptgm.{
  StacksTransactions, serialize_data_source, serialize_data_sources, serialize_prices_data_sources,
}
use stacks_pyth_bridge.Harness.Wormhole.{Emitter}
use stacks_pyth_bridge.Bridge.Fields.{read_uint-be_bytes, remaining_next, write_uint_be_fits}
use stacks_pyth_bridge.Bridge.Ptgm.{IsEmitter, source_of, bind-some}

module _ (k : HkCursor) (laws : HkCursorLaws k) where
  pairs : List Emitter → List (DataSource × Bytes)
  pairs [] = []
  pairs (s ∷ ss) = (source_of s, be_bytes 2 s.chain ++ s.address) ∷ pairs ss

  serialized_pairs :
      (sources : List Emitter) (body : Bytes)
      → All IsEmitter sources
      → serialize_data_sources sources ≡ some body
      → body ≡ chunks (pairs sources)
  unfolding serialize_data_sources serialize_data_source pairs
  serialized_pairs [] body a h = cc h
  serialized_pairs (s ∷ ss) body ((m, e), a) h =
      let (rest, x, y) =
        bind-some (serialize_data_sources ss)
          (λ (r : Bytes). some ((be_bytes 2 s.chain ++ s.address) ++ r))
          (rw (write_uint_be_fits 2 s.chain m) at h) in
      sym (cc y)
      ∙ ap (λ (t : Bytes). (be_bytes 2 s.chain ++ s.address) ++ t) (serialized_pairs ss rest a x)

  length-pair : (s : Emitter) → IsEmitter s → length (be_bytes 2 s.chain ++ s.address) ≡ 34
  length-pair s (m, e) =
      length-append (be_bytes 2 s.chain) s.address ∙ omega (arith, length-be_bytes 2 s.chain)

  pairs-Reads :
      (bytes : Bytes) (off : ℕ) (sources : List Emitter)
      → All IsEmitter sources
      → drop off bytes ≡ chunks (pairs sources)
      → Reads (read_data_source k bytes) off (pairs sources)
  unfolding pairs read_data_source
  pairs-Reads bytes off [] a h = tt
  pairs-Reads bytes off (s ∷ ss) ((m, e), a) h =
      let first = be_bytes 2 s.chain in
      let c : Cursor = record { bytes = bytes; pos = off } in
      let len : length (first ++ s.address) ≡ 34 = length-pair s (m, e) in
      let whole : remaining c ≡ first ++ (s.address ++ chunks (pairs ss)) =
        h ∙ append_assoc first s.address (chunks (pairs ss)) in
      let later : remaining (advanced c 2) ≡ s.address ++ chunks (pairs ss) =
        remaining_next 2 c first _ whole (length-be_bytes 2 s.chain) in
      (
        rw (
          laws.new_some bytes off,
          read_uint-be_bytes k laws 2 s.chain c _ m whole,
          laws.read_buff_ok 32 (advanced c 2) s.address _ later e,
          len,
        ),
        omega (arith, len),
        pairs-Reads bytes (off + length (first ++ s.address)) ss a
            (remaining-advanced c (first ++ s.address) (chunks (pairs ss)) h),
      )

  length-pairs : (sources : List Emitter) → length (pairs sources) ≡ length sources
  unfolding pairs
  length-pairs [] = refl
  length-pairs (s ∷ ss) = ap suc (length-pairs ss)

  entries-pairs : (sources : List Emitter) → entries (pairs sources) ≡ map source_of sources
  unfolding pairs
  entries-pairs [] = refl
  entries-pairs (s ∷ ss) = ap (λ (t : List DataSource). source_of s ∷ t) (entries-pairs ss)

  length-chunks :
      (sources : List Emitter)
      → All IsEmitter sources
      → length (chunks (pairs sources)) ≡ 34 * length sources
  unfolding pairs
  length-chunks [] a = omega arith
  length-chunks (s ∷ ss) (m, a) =
      length-append (be_bytes 2 s.chain ++ s.address) (chunks (pairs ss))
      ∙ omega (arith, length-pair s m, length-chunks ss a)

  pub length-serialize_prices_data_sources :
      (stacks : StacksTransactions) (sources : List Emitter) (body : Bytes)
      → All IsEmitter sources
      → length sources < 256
      → serialize_prices_data_sources stacks sources ≡ some body
      → length body ≡ 1 + 34 * length sources
  unfolding serialize_prices_data_sources
  length-serialize_prices_data_sources stacks sources body a fits h =
      let n = length sources in
      let (rest, x, y) =
        bind-some (serialize_data_sources sources) (λ (r : Bytes). some (be_bytes 1 n ++ r))
          (rw (write_uint_be_fits 1 n fits) at h) in
      ap length (sym (cc y))
      ∙ length-append (be_bytes 1 n) rest
      ∙ omega (
        arith,
        length-be_bytes 1 n,
        ap length (serialized_pairs sources rest a x),
        length-chunks sources a,
      )

  -- A list of data sources is read back, whatever its length up to 255.
  pub parse_prices_sources :
      (stacks : StacksTransactions) (sources : List Emitter) (body : Bytes)
      → All IsEmitter sources
      → length sources < 256
      → serialize_prices_data_sources stacks sources ≡ some body
      → parse_and_verify_prices_data_sources k body ≡ ok (map source_of sources)
  unfolding parse_and_verify_prices_data_sources serialize_prices_data_sources
  parse_prices_sources stacks sources body a fits h =
      let n = length sources in
      let (rest, x, y) =
        bind-some (serialize_data_sources sources) (λ (r : Bytes). some (be_bytes 1 n ++ r))
          (rw (write_uint_be_fits 1 n fits) at h) in
      let c : Cursor = record { bytes = body; pos = 0 } in
      let whole : body ≡ be_bytes 1 n ++ rest = sym (cc y) in
      let w : Walk DataSource = record {
        index = 0;
        next_update_index = 0;
        result = [];
        limit = n;
      } in
      let same : rest ≡ chunks (pairs sources) = serialized_pairs sources rest a x in
      let later : remaining (advanced c 1) ≡ rest =
        remaining_next 1 c (be_bytes 1 n) rest whole (length-be_bytes 1 n) in
      let (w', e, f) =
        walk-entries (read_data_source k rest) 255 (pairs sources) [] 0 w
          (pairs-Reads rest 0 sources a same) refl refl (omega (arith, length-pairs sources))
          (omega arith) in
      let read = read_data_source k rest in
      let e' : walk read 255 rest w ≡ ok w' =
        ap (λ (t : Bytes). walk read 255 t w) (same ∙ sym (append-nil (chunks (pairs sources))))
        ∙ e in
      rw
        (
          laws.new_none body,
          read_uint-be_bytes k laws 1 n c rest fits whole,
          laws.slice_all (advanced c 1),
          later,
          e',
        )
        (ap (λ (t : List DataSource). ok t) (f ∙ entries-pairs sources))

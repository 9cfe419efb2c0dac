-- ===== src/Bridge/Canonical/Heads.antt =====
-- contracts/wormhole/wormhole-core-v2.clar, parse-vaa: what a header that is read says of its bytes.
use stacks_pyth_bridge.Prelude.{ℕ, ◌^◌, ◌<◌, ◌≡◌, subst, ◌++◌, All}
use stacks_pyth_bridge.Prelude.Bytes.{Bytes, IsByte, be_bytes}
use stacks_pyth_bridge.Clarity.Outcome.{ok, >>=-eq-ok, unwrap, unwrap-eq-ok}
use stacks_pyth_bridge.Clarity.Cursor.{Cursor, Reading, HkCursor, HkCursorLaws, remaining}
use stacks_pyth_bridge.Clarity.Reading.{read_uint-inv}
use stacks_pyth_bridge.Wormhole.{Crypto, Header, parse_header}

module _ (k : HkCursor) (laws : HkCursorLaws k) (crypto : Crypto) where
  -- A number that is read, with what remains.
  abbrev pub Number : ℕ → Cursor → ℕ → Cursor → Type 0
  Number n c v next =
      (v < 256 ^ n) × (remaining c ≡ be_bytes n v ++ remaining next) × All IsByte (remaining next)

  pub number :
      (n : ℕ) (c : Cursor) (r : Reading ℕ) (code : ℕ)
      → unwrap (k.read_uint n c) code ≡ ok r
      → All IsByte (remaining c)
      → Number n c r.value r.next
  number n c r code h a = read_uint-inv k laws n c r (unwrap-eq-ok (k.read_uint n c) code h) a

  -- The layout of the header.
  abbrev pub HeaderAt : Bytes → Header → Type 0
  HeaderAt bytes h =
      (h.version < 256 ^ 1)
      × (h.guardian_set_id < 256 ^ 4)
      × (h.signatures_len < 256 ^ 1)
      × (bytes
          ≡ be_bytes 1 h.version
            ++ (be_bytes 4 h.guardian_set_id ++ (be_bytes 1 h.signatures_len ++ remaining h.next)))
      × All IsByte (remaining h.next)

  pub header-inv :
      (bytes : Bytes) (h : Header)
      → parse_header k crypto bytes ≡ ok h
      → All IsByte bytes
      → HeaderAt bytes h
  unfolding parse_header
  header-inv bytes h e a =
      let c : Cursor = record { bytes = bytes; pos = 0 } in
      let (r1, e1, h1) = >>=-eq-ok (unwrap (k.read_uint 1 c) 1001) _ e in
      let (r2, e2, h2) = >>=-eq-ok (unwrap (k.read_uint 4 r1.next) 1002) _ h1 in
      let (r3, e3, h3) = >>=-eq-ok (unwrap (k.read_uint 1 r2.next) 1003) _ h2 in
      let (f1, x1, a1) = number 1 c r1 1001 e1 a in
      let (f2, x2, a2) = number 4 r1.next r2 1002 e2 a1 in
      let (f3, x3, a3) = number 1 r2.next r3 1003 e3 a2 in
      let whole : record {
        version = r1.value;
        guardian_set_id = r2.value;
        signatures_len = r3.value;
        next = r3.next;
      }
          ≡ h =
        cc h3 in
      subst (HeaderAt bytes) whole (f1, f2, f3, rw (← x3, ← x2) x1, a3)

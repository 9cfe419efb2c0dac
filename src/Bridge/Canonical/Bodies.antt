-- ===== src/Bridge/Canonical/Bodies.antt =====
-- contracts/wormhole/wormhole-core-v2.clar, parse-vaa: what a body that is read says of its bytes.
use stacks_pyth_bridge.Prelude.{ℕ, ◌^◌, ◌<◌, ◌≡◌, subst, ◌++◌, length, none, arith, All}
use stacks_pyth_bridge.Prelude.Bytes.{Bytes, IsByte, be_bytes}
use stacks_pyth_bridge.Clarity.Outcome.{Outcome, ok, ◌>>=◌, >>=-eq-ok, unwrap, unwrap-eq-ok}
use stacks_pyth_bridge.Clarity.Cursor.{Cursor, HkCursor, HkCursorLaws, remaining}
use stacks_pyth_bridge.Clarity.Reading.{read_buff-inv, All-split}
use stacks_pyth_bridge.Wormhole.{Crypto, Body, parse_body}
use stacks_pyth_bridge.Bridge.Canonical.Heads.{number}

-- The bytes of a body.
abbrev pub body_layout : Body → Bytes
body_layout b =
    be_bytes 4 b.timestamp
    ++ (be_bytes 4 b.nonce
        ++ (be_bytes 2 b.emitter_chain
            ++ (b.emitter_address
                ++ (be_bytes 8 b.sequence ++ (be_bytes 1 b.consistency_level ++ b.payload)))))

module _ (k : HkCursor) (laws : HkCursorLaws k) (crypto : Crypto) where
  -- parse_body from the emitter address on.
  abbrev body_rest : ℕ → ℕ → ℕ → Cursor → Outcome Body
  body_rest timestamp nonce chain next = do
    address ← unwrap (k.read_buff 32 next) 1008
    sequence ← unwrap (k.read_uint 8 address.next) 1009
    level ← unwrap (k.read_uint 1 sequence.next) 1010
    payload ← unwrap (k.read_buff_8192_max level.next none) 1011
    ok (record {
      timestamp = timestamp;
      nonce = nonce;
      emitter_chain = chain;
      emitter_address = address.value;
      sequence = sequence.value;
      consistency_level = level.value;
      payload = payload.value;
    })

  abbrev pub RestAt : Cursor → Body → Type 0
  RestAt c b =
      (length b.emitter_address ≡ 32)
      × (b.sequence < 256 ^ 8)
      × (b.consistency_level < 256 ^ 1)
      × (remaining c
          ≡ b.emitter_address
            ++ (be_bytes 8 b.sequence ++ (be_bytes 1 b.consistency_level ++ b.payload)))

  body_rest-inv :
      (timestamp nonce chain : ℕ) (c : Cursor) (b : Body)
      → body_rest timestamp nonce chain c ≡ ok b
      → All IsByte (remaining c)
      → (b.timestamp ≡ timestamp) × (b.nonce ≡ nonce) × (b.emitter_chain ≡ chain) × RestAt c b
  body_rest-inv timestamp nonce chain c b h a =
      let (r4, e4, h4) = >>=-eq-ok (unwrap (k.read_buff 32 c) 1008) _ h in
      let (r5, e5, h5) = >>=-eq-ok (unwrap (k.read_uint 8 r4.next) 1009) _ h4 in
      let (r6, e6, h6) = >>=-eq-ok (unwrap (k.read_uint 1 r5.next) 1010) _ h5 in
      let (r7, e7, h7) = >>=-eq-ok (unwrap (k.read_buff_8192_max r6.next none) 1011) _ h6 in
      let (l, x4) = read_buff-inv k laws 32 c r4 (unwrap-eq-ok _ 1008 e4) in
      let (_, a4) = All-split r4.value (remaining r4.next) (subst (All IsByte) x4 a) in
      let (f5, x5, a5) = number k laws crypto 8 r4.next r5 1009 e5 a4 in
      let (f6, x6, a6) = number k laws crypto 1 r5.next r6 1010 e6 a5 in
      let x7 : remaining r6.next ≡ r7.value = cc (laws.read_all r6.next, unwrap-eq-ok _ 1011 e7) in
      let same : record {
        timestamp = timestamp;
        nonce = nonce;
        emitter_chain = chain;
        emitter_address = r4.value;
        sequence = r5.value;
        consistency_level = r6.value;
        payload = r7.value;
      }
          ≡ b =
        cc h7 in
      (cc same, cc same, cc same, subst (RestAt c) same (l, f5, f6, rw (← x7, ← x6, ← x5) x4))

  abbrev pub BodyAt : Cursor → Body → Type 0
  BodyAt c b =
      (b.timestamp < 256 ^ 4)
      × (b.nonce < 256 ^ 4)
      × (b.emitter_chain < 256 ^ 2)
      × (length b.emitter_address ≡ 32)
      × (b.sequence < 256 ^ 8)
      × (b.consistency_level < 256 ^ 1)
      × (remaining c ≡ body_layout b)

  pub body-inv :
      (c : Cursor) (b : Body) → parse_body k crypto c ≡ ok b → All IsByte (remaining c) → BodyAt c b
  unfolding parse_body
  body-inv c b h a =
      let (r1, e1, h1) = >>=-eq-ok (unwrap (k.read_uint 4 c) 1005) _ h in
      let (r2, e2, h2) = >>=-eq-ok (unwrap (k.read_uint 4 r1.next) 1006) _ h1 in
      let (r3, e3, h3) = >>=-eq-ok (unwrap (k.read_uint 2 r2.next) 1007) _ h2 in
      let (f1, x1, a1) = number k laws crypto 4 c r1 1005 e1 a in
      let (f2, x2, a2) = number k laws crypto 4 r1.next r2 1006 e2 a1 in
      let (f3, x3, a3) = number k laws crypto 2 r2.next r3 1007 e3 a2 in
      let (t, n, m, (l, f5, f6, x)) = body_rest-inv r1.value r2.value r3.value r3.next b h3 a3 in
      (
        omega (arith, f1, t),
        omega (arith, f2, n),
        omega (arith, f3, m),
        l,
        f5,
        f6,
        cc (t, n, m, x, x3, x2, x1),
      )

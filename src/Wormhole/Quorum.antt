-- ===== src/Wormhole/Quorum.antt =====
-- What contracts/wormhole/wormhole-core-v2.clar has checked of a VAA that it accepts.
use stacks_pyth_bridge.Prelude.{
  ◌*◌, ◌<◌, ◌≡◌, sym, ap, ◌∙◌, true, none, some, List, [], arith, length, All, leb→le, leb, ◌==◌,
  ==_iff,
}
use stacks_pyth_bridge.Prelude.Bytes.{Bytes}
use stacks_pyth_bridge.Clarity.Outcome.{
  ok, asserts, asserts-true, unwrap, unwrap_some, >>=-eq-ok, unwrap-eq-ok,
}
use stacks_pyth_bridge.Clarity.Cursor.{Cursor, Reading, HkCursor}
use stacks_pyth_bridge.Clarity.Types.{Signature, Vaa}
use stacks_pyth_bridge.Wormhole.{
  Crypto, PublicKey, Wormhole, Recovered, Message, get_quorum, recover_public_keys, read_signatures,
  check_active_public_keys, parse_vaa, parse_and_verify_vaa, Header, Body, SignatureCursor, vaa_of,
  parse_header, parse_body, err_vaa_checks_guardian_set_consistency,
  err_vaa_checks_version_unsupported, err_vaa_checks_threshold_signature,
}
use stacks_pyth_bridge.Wormhole.Keys.{IsDistinct, IsActive, collect_all}
use stacks_pyth_bridge.Wormhole.Signed.{
  ok_injective, unwrap_known, IsSigned, recover_public_keys-IsSigned,
}

module _ (k : HkCursor) (crypto : Crypto) where
  -- The signatures of a message are over the bytes behind them, which its body is parsed from.
  abbrev pub IsSignedBody : Message → Type 0
  IsSignedBody message =
      (header : Header) × (c : Cursor) × (hashed : Reading Bytes) × (body : Body)
      × (k.read_buff_8192_max c none ≡ ok hashed)
      × (parse_body k crypto c ≡ ok body)
      × (message.vaa ≡ vaa_of header message.vaa.signatures body)
      × All
          (IsSigned crypto (crypto.keccak256 (crypto.keccak256 hashed.value))
            message.vaa.signatures)
          message.recovered_public_keys

  signed_body :
      (header : Header) (signatures : SignatureCursor) (hashed : Reading Bytes) (body : Body)
      (rs : List Recovered) (message : Message)
      → unwrap (k.read_buff_8192_max signatures.next none) 1012 ≡ ok hashed
      → parse_body k crypto signatures.next ≡ ok body
      → recover_public_keys crypto
          (crypto.keccak256 (crypto.keccak256 hashed.value))
          signatures.value
          []
        ≡ ok rs
      → ok (record { vaa = vaa_of header signatures.value body; recovered_public_keys = rs })
        ≡ ok message
      → IsSignedBody message
  signed_body header signatures hashed body rs message e f r h =
      let whole = ok_injective _ message h in
      let same : signatures.value ≡ message.vaa.signatures =
        ap (λ (m : Message). m.vaa.signatures) whole in
      (
        header,
        signatures.next,
        hashed,
        body,
        unwrap-eq-ok _ 1012 e,
        f,
        sym (ap (λ (m : Message). m.vaa) whole)
            ∙ ap (λ (t : List Signature). vaa_of header t body) same,
        recover_public_keys-IsSigned crypto _ signatures.value _ rs _ same
            (ap (λ (m : Message). m.recovered_public_keys) whole) r,
      )

  parse_vaa-IsSignedBody :
      (b : Bytes) (message : Message) → parse_vaa k crypto b ≡ ok message → IsSignedBody message
  unfolding parse_vaa
  parse_vaa-IsSignedBody b message h =
      let (header, e1, h1) = >>=-eq-ok (parse_header k crypto b) _ h in
      let start : SignatureCursor = record {
        next = header.next;
        iter = header.signatures_len;
        value = [];
      } in
      let (signatures, e2, h2) = >>=-eq-ok (read_signatures k 19 start) _ h1 in
      let (hashed, e3, h3) =
        >>=-eq-ok (unwrap (k.read_buff_8192_max signatures.next none) 1012) _ h2 in
      let (body, e4, h4) = >>=-eq-ok (parse_body k crypto signatures.next) _ h3 in
      let (rs, e5, h5) =
        >>=-eq-ok
          (recover_public_keys crypto (crypto.keccak256 (crypto.keccak256 hashed.value))
            signatures.value [])
          _ h4 in
      signed_body header signatures hashed body rs message e3 e4 e5 h5

  -- Version, set, and a quorum of distinct keys of its guardians.
  pub record IsQuorum (w : Wormhole) (message : Message) : Type 0 where
    pub version : message.vaa.version ≡ 1
    pub current : message.vaa.guardian_set_id ≡ w.active_guardian_set_id
    pub guardians : List PublicKey
    pub active : w.guardian_sets w.active_guardian_set_id ≡ some guardians
    pub keys : List Bytes
    pub distinct : IsDistinct keys
    pub signed : All (IsActive guardians message.recovered_public_keys) keys
    pub enough : 2 * length guardians < 3 * length keys

  check_active_public_keys-IsQuorum :
      (w : Wormhole) (m : Message) (gs : List PublicKey) (keys : List Bytes)
      → (m.vaa.guardian_set_id == w.active_guardian_set_id) ≡ true
      → unwrap_some (w.guardian_sets m.vaa.guardian_set_id) err_vaa_checks_guardian_set_consistency
        ≡ ok gs
      → check_active_public_keys gs m.recovered_public_keys [] ≡ ok keys
      → (m.vaa.version == 1) ≡ true
      → leb (get_quorum (length gs)) (length keys) ≡ true
      → IsQuorum w m
  unfolding get_quorum
  check_active_public_keys-IsQuorum w m gs keys a b c d e =
      let id = (==_iff m.vaa.guardian_set_id w.active_guardian_set_id).0 a in
      let (x, y) =
        collect_all gs m.recovered_public_keys m.recovered_public_keys [] keys (λ r x. x) (tt, tt)
          c in
      record {
        version = (==_iff m.vaa.version 1).0 d;
        current = id;
        guardians = gs;
        active = ap w.guardian_sets (sym id) ∙ unwrap_known _ gs _ b;
        keys = keys;
        distinct = x;
        signed = y;
        enough = omega (arith, leb→le _ _ e);
      }

  verified :
      (w : Wormhole) (m : Message) (b : Bytes) (vaa : Vaa)
      → parse_vaa k crypto b ≡ ok m
      → parse_and_verify_vaa k crypto w b ≡ ok vaa
      → IsQuorum w m × (m.vaa ≡ vaa)
  unfolding parse_and_verify_vaa
  verified w m b vaa e h =
      let h1 = rw e at h in
      let (u2, e2, h2) =
        >>=-eq-ok
          (asserts (m.vaa.guardian_set_id == w.active_guardian_set_id)
            err_vaa_checks_guardian_set_consistency)
          _ h1 in
      let (gs, e3, h3) =
        >>=-eq-ok
          (unwrap_some (w.guardian_sets m.vaa.guardian_set_id)
            err_vaa_checks_guardian_set_consistency)
          _ h2 in
      let (keys, e4, h4) =
        >>=-eq-ok (check_active_public_keys gs m.recovered_public_keys []) _ h3 in
      let (u5, e5, h5) =
        >>=-eq-ok (asserts (m.vaa.version == 1) err_vaa_checks_version_unsupported) _ h4 in
      let (u6, e6, h6) =
        >>=-eq-ok
          (asserts (leb (get_quorum (length gs)) (length keys)) err_vaa_checks_threshold_signature)
          _ h5 in
      (
        check_active_public_keys-IsQuorum w m gs keys (asserts-true _ _ e2) e3 e4
            (asserts-true _ _ e5) (asserts-true _ _ e6),
        ok_injective m.vaa vaa h6,
      )

  -- A VAA that is verified is the one that parses from the bytes; it has version 1 and names the
  -- active set; a list of distinct keys, each recovered under the index of a guardian of that set
  -- whose stored key it is, has more than two thirds of the set's length; and each recovered key
  -- comes from one of the VAA's signatures over the double hash of the bytes behind the signatures,
  -- from which the VAA's body is parsed.
  pub parse_and_verify_vaa-IsQuorum :
      (w : Wormhole) (b : Bytes) (vaa : Vaa)
      → parse_and_verify_vaa k crypto w b ≡ ok vaa
      → (message : Message) × (parse_vaa k crypto b ≡ ok message)
        × (message.vaa ≡ vaa)
        × IsSignedBody message
        × IsQuorum w message
  unfolding parse_and_verify_vaa
  parse_and_verify_vaa-IsQuorum w b vaa h =
      let (m, e, h1) = >>=-eq-ok (parse_vaa k crypto b) _ h in
      let (q, same) = verified w m b vaa e h in (m, e, same, parse_vaa-IsSignedBody b m e, q)

-- ===== src/System.antt =====
-- The contracts of contracts/ as they are deployed together: the oracle
-- (contracts/pyth-oracle-v2.clar) calls the decoder (contracts/pyth-pnau-decoder-v1.clar), which calls
-- the core (contracts/wormhole/wormhole-core-v2.clar), and then the store (contracts/pyth-store-v1.clar).
use stacks_pyth_bridge.Prelude.{ℕ, ◌≡◌, List, All, none}
use stacks_pyth_bridge.Prelude.Bytes.{Bytes}
use stacks_pyth_bridge.Clarity.Outcome.{ok, >>=-eq-ok}
use stacks_pyth_bridge.Clarity.Cursor.{HkCursor, HkCursorLaws}
use stacks_pyth_bridge.Clarity.Types.{Principal, WormholeCore, Vaa}
use stacks_pyth_bridge.Governance.{Governance, check_execution_flow}
use stacks_pyth_bridge.Governance.Flow.{IsDistinct}
use stacks_pyth_bridge.Store.{Chain, PriceEntry}
use stacks_pyth_bridge.Store.Batch.{IsLive}
use stacks_pyth_bridge.Store.Newest.{NewestWins}
use stacks_pyth_bridge.Store.Safety.{IsNews, write_sound, write-NewestWins}
use stacks_pyth_bridge.Oracle.{Contracts, Ledger, pyth_store, verify_and_update_price_feeds}
use stacks_pyth_bridge.Oracle.Fees.{verify_and_update_price_feeds-Paid}
use stacks_pyth_bridge.Pnau.{decode_and_verify_price_feeds, pnau_decoder}
use stacks_pyth_bridge.Pnau.Updates.{HkMerkle}
use stacks_pyth_bridge.Pnau.Sound.{IsSound, decode_pnau_price_update-IsSound}
use stacks_pyth_bridge.Wormhole.{Wormhole, Crypto, Message, parse_vaa, parse_and_verify_vaa}
use stacks_pyth_bridge.Wormhole.Quorum.{IsQuorum, parse_and_verify_vaa-IsQuorum}

-- The addresses of the contracts.
pub record Addresses : Type 0 where
  pub oracle : Principal
  pub store : Principal
  pub decoder : Principal
  pub core : Principal

module _ (k : HkCursor) (crypto : Crypto) where
  -- wormhole-core-v2 as a reference.
  abbrev pub wormhole_core : Principal → Wormhole → WormholeCore
  wormhole_core self w = record {
    address = self;
    parse_and_verify_vaa = λ b. parse_and_verify_vaa k crypto w b;
  }

  -- A decoded VAA and its signatures.
  abbrev pub IsSigned : Wormhole → Bytes → Vaa → Type 0
  IsSigned w b vaa =
      (message : Message) × (parse_vaa k crypto b ≡ ok message)
      × (message.vaa ≡ vaa)
      × IsQuorum k crypto w message

module _ (k : HkCursor) (crypto : Crypto) (merkle : HkMerkle) where
  abbrev pub deployed : Addresses → Governance → Chain → Wormhole → Contracts
  deployed a g chain w = record {
    pyth_storage_contract = pyth_store a.store g chain;
    pyth_decoder_contract = pnau_decoder k merkle a.decoder g;
    wormhole_core_contract = wormhole_core k crypto a.core w;
  }

  decoded_IsSound :
      (laws : HkCursorLaws k) (self caller : Principal) (g : Governance) (core : WormholeCore)
      (bytes : Bytes) (out : List PriceEntry)
      → decode_and_verify_price_feeds k merkle self g caller bytes core ≡ ok out
      → IsSound k merkle g core bytes out
  unfolding decode_and_verify_price_feeds
  decoded_IsSound laws self caller g core bytes out h =
      let (b, e, h1) = >>=-eq-ok (check_execution_flow g self caller none) _ h in
      decode_pnau_price_update-IsSound k merkle laws g core bytes out h1

  -- An update of prices that succeeds on the deployed contracts returns entries of a list of
  -- decoded prices that are not stale and newer than the store was; for every key the store then
  -- holds the newest such entry, or what it held. Each decoded price is the message of an update in
  -- the submitted bytes, at the cursor where its leaf begins and, if the leaf has 85 bytes or more,
  -- of the leaf alone; the leaf's proof is checked against the root in the VAA in the submitted
  -- bytes, which is from an authorized source and which a quorum of the active guardians has
  -- signed. Given: a live chain (`IsLive`), three different contracts in the plan, the oracle of
  -- the plan, and a cursor contract that meets `HkCursorLaws`.
  pub verify_and_update_price_feeds-Signed :
      (laws : HkCursorLaws k) (a : Addresses) (g : Governance) (chain : Chain) (w : Wormhole)
      (oldest : ℕ) (tx_sender caller : Principal) (l l' : Ledger) (bytes : Bytes)
      (out : List PriceEntry)
      → IsLive g chain oldest
      → IsDistinct g.current_execution_plan
      → a.oracle ≡ g.current_execution_plan.pyth_oracle_contract
      → verify_and_update_price_feeds a.oracle g tx_sender caller l bytes (deployed a g chain w)
        ≡ ok (out, l')
      → (decoded : List PriceEntry) × (sound : IsSound k merkle g
          (wormhole_core k crypto a.core w)
          bytes
          decoded)
        × IsSigned k crypto w sound.body.value sound.vaa
        × All (IsNews oldest l.store decoded) out
        × ((key : Bytes) → NewestWins oldest key l.store decoded l'.store)
  verify_and_update_price_feeds-Signed laws a g chain w oldest tx_sender caller l l' bytes out live
        d me h =
      let (plan, decoded, e, f, paid) =
        verify_and_update_price_feeds-Paid a.oracle g tx_sender caller l l' bytes
          (deployed a g chain w) out d me h in
      let sound =
        decoded_IsSound laws a.decoder a.oracle g (wormhole_core k crypto a.core w) bytes decoded
          e in
      let (message, parsed, same, signed, quorum) =
        parse_and_verify_vaa-IsQuorum k crypto w sound.body.value sound.vaa sound.verified in
      let (c, n, news) =
        write_sound g chain oldest live a.store a.oracle l.store l'.store decoded out d f in
      (
        decoded,
        sound,
        (message, parsed, same, quorum),
        news,
        λ key.
            write-NewestWins g chain oldest live a.store a.oracle l.store l'.store decoded out key
              f,
      )

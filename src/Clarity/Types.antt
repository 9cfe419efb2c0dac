-- ===== src/Clarity/Types.antt =====
-- Types that the contracts exchange: principals, data sources, execution plans, the VAA of
-- contracts/wormhole/wormhole-traits-v1.clar and the trait references.
use stacks_pyth_bridge.Prelude.{ℕ, Bool, ◌==◌, ◌&&◌, List}
use stacks_pyth_bridge.Prelude.Bytes.{Bytes, bytes_eq}
use stacks_pyth_bridge.Clarity.Outcome.{Outcome}

-- An opaque name of an account or a contract.
abbrev pub Principal : Type 0
Principal = ℕ

pub record DataSource : Type 0 where
  pub emitter_chain : ℕ
  pub emitter_address : Bytes

unfoldable pub data_source_eq : DataSource → DataSource → Bool
data_source_eq a b =
    a.emitter_chain == b.emitter_chain && bytes_eq a.emitter_address b.emitter_address

pub record Signature : Type 0 where
  pub guardian_id : ℕ
  pub signature : Bytes

pub record Vaa : Type 0 where
  pub version : ℕ
  pub guardian_set_id : ℕ
  pub signatures_len : ℕ
  pub signatures : List Signature
  pub timestamp : ℕ
  pub nonce : ℕ
  pub emitter_chain : ℕ
  pub emitter_address : Bytes
  pub sequence : ℕ
  pub consistency_level : ℕ
  pub payload : Bytes

-- A reference `<wormhole-core-trait>`: `(contract-of r)` and the function of the trait.
pub record WormholeCore : Type 0 where
  pub address : Principal
  pub parse_and_verify_vaa : Bytes → Outcome Vaa

-- ===== src/Lib.antt =====
-- The Stacks Pyth bridge: the contracts that bring Pyth prices to the Stacks chain, the TypeScript
-- helpers that encode messages for them, and the contracts and serverless functions of the cBTC
-- example.
--
-- contracts/pyth-oracle-v2.clar takes a buffer of price updates, has the decoder check it (which
-- has the Wormhole contract verify the VAA), has the storage write the prices and charges a fee.
-- contracts/pyth-governance-v1.clar holds the plan of active contracts, which each of them consults
-- on who calls it, and the other settings; a governance message (PTGM) in a VAA changes them.
-- unit-tests/*/helpers.ts encode such messages and VAAs.
--
-- Which module models what:
--   * Prelude: numbers, tests, lists, and buffers as lists of bytes (Prelude.Bytes).
--   * Clarity: the language. Outcome is a response or a runtime error, which aborts; arithmetic on
--     uint stops with one outside 128 bits. Cursor is the contract hk-cursor-v2, which is not in
--     this repository, as a parameter with its documented laws. Types has what contracts exchange.
--     Walk is the fold over the bytes of a buffer by which the contracts read lists; Reading is
--     about the fields that a cursor has read.
--   * Governance: contracts/pyth-governance-v1.clar. Its data vars are the record Governance; Ptgm
--     has the parsers, Update the nine public updates (their common beginning is begin_update), as
--     functions from the state to the answer and the new state. An error changes nothing.
--   * Wormhole: contracts/wormhole/wormhole-core-v2.clar. Guardians has the update of the guardian
--     set; the theorems stand in Keys, Signed, Quorum, Rotation and Mismatch. keccak256 and
--     secp256k1-recover? are parameters (Crypto).
--   * Store: contracts/pyth-store-v1.clar. Its maps are functions of the key; write goes through
--     the batch entry by entry.
--   * Oracle: contracts/pyth-oracle-v2.clar over contracts/pyth-traits-v1.clar. A trait reference
--     is a record with the contract's address, so a caller may pass any contract.
--   * Pnau: contracts/pyth-pnau-decoder-v1.clar. Updates has the fold that reads the updates and
--     the one that checks their proofs; hk-merkle-tree-keccak160-v1, which is not in this
--     repository, is a parameter. Cut and Leaf tie the message of an update to its leaf, Sound has
--     what a decoded price has passed.
--   * System: the contracts as they are deployed together.
--   * Cbtc: the contracts under example/cbtc/contracts. Token has cbtc-token.clar over the balances
--     that the chain keeps, Pool has cbtc-pool.clar over the oracle, Transactions the calls of both
--     and of the oracle by any senders. Refused, Changes and Locked are about what such calls can
--     do.
--   * Harness: unit-tests/utils/helpers.ts (Buffers), unit-tests/wormhole/helpers.ts (Wormhole) and
--     unit-tests/pyth/helpers.ts (Ptgm for governance messages, Pnau for price updates, Merkle for
--     their tree, Apply for the updates of the simulated network, Values for the answers that the
--     tests expect, Identifiers, Generators for what random VAAs and price updates are drawn from).
--     A thrown exception is none.
--   * Bridge: what the helpers encode, the contracts decode. Messages, Proofs, Prices, Batch, Auwv,
--     Pnau, Decoded and Feeds lead from one price message to a whole batch; Guardians, Recovered
--     and Accepted from a keychain to a verified VAA, Sizes and Within to one that fits the
--     contract's buffer; Applied, Encoded and Sent to a governance update. Generated and Drawn are
--     about random VAAs and price updates, Expected about the answers that the tests expect;
--     Canonical and Reprinted lead from a VAA that parses back to its bytes; Rotation, Rotated,
--     Taken and Installed are about guardian set updates.
--   * Serverless: example/cbtc/serverless/handler.ts, on events after JSON.parse and on amounts in
--     whole satoshis, where the code multiplies a floating-point amount by 100000000. bitcore-lib,
--     the signing and the nodes are parameters.
--   * Runs: the model on concrete inputs.
--
-- Bounds: numbers are natural numbers, with the check for 128 bits where the contracts compute with
-- values that can leave it. The contracts take messages as (buff 8192) and refuse longer ones; the
-- functions, and the laws of the cursor, take bytes of any length, and with_buff adds the refusal.
-- Where something is said to be parsed or accepted, it stands for the call with with_buff, or the
-- message is short: a VAA takes 57 bytes, 66 for each signature and its payload, which is at most
-- 2048 bytes from the generators, and 9 + 34 * n for an update of n price data sources, so one of
-- 202 with 19 signatures takes 8188. The loop of bigintToBuffer for a negative value and the digits
-- of toString(16) take fuel; the value itself is enough, since each round lowers it. The loops over
-- a Merkle tree take the number of leaves, which every level lowers.
--
-- Not modelled: contracts/pyth-p2wh-decoder-v1.clar, the decoder of an older format over a preview
-- of the Wormhole contract that is not in this repository; the relayer, which is input and output;
-- print events; the addresses and keys that update-guardians-set answers beside the VAA; a
-- fractional amount or change in handler.ts; the exception of bufferToBigint for an empty buffer,
-- which no caller passes; in the helpers, the replay of recorded guardian set updates
-- (applyMainnetGuardianSetUpdates).
pub mod Prelude
pub mod Clarity
pub mod Governance
pub mod Store
pub mod Oracle
pub mod Harness
pub mod Bridge
pub mod Serverless
pub mod Wormhole
pub mod Pnau
pub mod System
pub mod Cbtc
pub mod Runs

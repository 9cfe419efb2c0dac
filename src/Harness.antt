-- ===== src/Harness.antt =====
-- The TypeScript helpers under unit-tests/ that build the messages which the contracts decode.
pub mod Buffers
pub mod Wormhole
pub mod Ptgm
pub mod Merkle
pub mod Pnau
pub mod Apply
pub mod Identifiers
pub mod Values
pub mod Generators

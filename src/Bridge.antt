-- ===== src/Bridge.antt =====
-- The contracts and the helpers of their unit tests together: what unit-tests/ encodes, contracts/
-- decode.
pub mod Fields
pub mod Ptgm
pub mod Sources
pub mod Updates
pub mod Contracts
pub mod Vaa
pub mod Signatures
pub mod SignedVaa
pub mod Guardians
pub mod Recovered
pub mod Accepted
pub mod Expected
pub mod Messages
pub mod Proofs
pub mod Prices
pub mod Batch
pub mod Auwv
pub mod Pnau
pub mod Decoded
pub mod Feeds
pub mod Applied
pub mod Encoded
pub mod Sent
pub mod Canonical
pub mod Reprinted
pub mod Sizes
pub mod Within
pub mod Generated
pub mod Drawn
pub mod Rotation
pub mod Rotated
pub mod Taken
pub mod Installed

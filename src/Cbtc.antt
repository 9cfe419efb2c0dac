-- ===== src/Cbtc.antt =====
-- example/cbtc/contracts: the token cBTC and the pool that should swap it for STX.
pub mod Token
pub mod Pool
pub mod Transactions
pub mod Refused
pub mod Changes
pub mod Locked

-- ===== src/Runs.antt =====
-- Runs of the model on concrete inputs.
mod Governance
mod Store
mod Bridge
mod Serverless
mod Wormhole
mod Feeds
mod System
mod Cbtc
mod Drawn
mod Canonical
mod Guardians
mod Sent
mod Generated
mod Installed

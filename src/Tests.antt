-- ===== src/Tests.antt =====
-- Runs of the modelled code on small inputs, and the theorems at inputs that meet their hypotheses.
mod Fixtures
mod Primitives
mod Collector
mod Lru
mod Blocks
mod Crate
mod Server
mod Requests
mod CodeStorage
mod TxStorage
mod StateIndexer
mod FinalityCache
mod Database
mod Queries
mod Meta
mod Receipts
mod Network
mod Message

-- ===== src/Tests.antt =====
-- Concrete runs of the definitions, and the theorems at concrete inputs.
mod Envelope
mod Collateral
mod Coins
mod Browser
mod Vault
mod TxBuild
mod BroadcastLog
mod Address
mod Indexer
mod TxCache
mod Scan
mod Positions
mod Signed
mod Redemption

-- ===== src/Indexer.antt =====
-- apps/indexer/server.js, the façade between the wallet and an ElectrumX server: the assembler of
-- frames and the sockets of ElectrumClient, the cache of transactions, and the scans of outputs.
pub mod Frames
pub mod Client
pub mod TxCache
pub mod Scan
pub mod Positions

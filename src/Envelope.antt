-- ===== src/Envelope.antt =====
-- packages/digidollar-js/src/envelope.js: the DigiDollar transaction envelope.
pub mod Version
pub mod ScriptNum
pub mod Pushes
pub mod Metadata

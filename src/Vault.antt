-- ===== src/Vault.antt =====
-- apps/wallet/public/vault.js and keystore.js: the vault of the wallets' mnemonics.
pub mod State
pub mod Names
pub mod Keystore
pub mod Manager
pub mod Wallets

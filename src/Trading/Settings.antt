-- ===== src/Trading/Settings.antt =====
-- src/repository/repository/config.repository.ts and src/plugins/EncryptionService: the settings of
-- a bot, the table that keeps them, and the encryption of its credentials.
pub mod Encryption
pub mod Config
pub mod Repository
pub mod Flags
pub mod Tests

-- ===== src/Vault.antt =====
-- crates/custodly-vault: the vault and its password, the Notes text, and what they keep.
pub mod Host
pub mod Password
pub mod Keystore
pub mod Race
pub mod Store
pub mod Fetch
pub mod Notes
pub mod Fields
pub mod Forms
pub mod Reads
pub mod Miss
pub mod Overwrite
pub mod Database
pub mod Session
pub mod Child
pub mod Commands
pub mod Abstract
pub mod Refine
pub mod Processes
pub mod Kept
pub mod Outcome
pub mod Once
pub mod RoundTrip

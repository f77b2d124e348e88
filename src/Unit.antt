-- ===== src/Unit.antt =====
-- The unit tests of the crates as statements: an `assert_eq!` is an equation, and `unwrap` takes the
-- value that the equation names. Tests of a random source or of a parameter's own security are left
-- out.
pub mod Tier
pub mod Contract
pub mod Entry
pub mod Policy
pub mod Seal
pub mod Server
pub mod Github
pub mod Vault
pub mod Password
pub mod Jwt

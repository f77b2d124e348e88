-- ===== src/Tests.antt =====
-- Runs of the modelled code at concrete inputs, and the theorems applied at concrete inputs.
mod Tier
mod Machine
mod Flow
mod Live
mod Store
mod Json
mod Wire
mod Race
mod Database
mod Processes
mod Reuse
mod Origin
mod Remote
mod Policy
mod Github
mod Entry
mod Vault

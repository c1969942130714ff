-- ===== src/Tests.antt =====
-- Concrete runs of the theorems.
mod Registries
mod Requests
mod Ledger
mod Models
mod Bundles
mod Traffic
mod Tokens
mod Issuing
mod Starting
mod Wired
mod Services

-- ===== src/Gateway.antt =====
-- internal/gateway: the request handling of the tool gateway, a module for each of its files.
pub mod Usage
pub mod Provenance
pub mod Obligations
pub mod Calls
pub mod StaticTokens
pub mod CallTool
pub mod Ledger
pub mod Endpoint

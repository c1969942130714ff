-- ===== src/Command.antt =====
-- cmd/helmdeep-gateway: the configuration of the gateway, and what `serve` makes of it.
pub mod Config
pub mod Serve

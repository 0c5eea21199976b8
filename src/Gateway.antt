-- ===== src/Gateway.antt =====
-- The gateway's worker, and the implementations of its interfaces, of
-- src/powerfactory_agent/gateway.
pub mod Harness
pub mod Worker

-- ===== src/Operations.antt =====
-- The application services of src/powerfactory_agent/operations.
pub mod Run
pub mod Inventory

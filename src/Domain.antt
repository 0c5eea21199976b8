-- ===== src/Domain.antt =====
-- The immutable contracts of src/powerfactory_agent/domain: one module per file, with the data in
-- the module itself and the `__post_init__` validation in its child `Checks`.
pub mod Values
pub mod Workflow
pub mod Lease
pub mod Operation
pub mod Assets
pub mod Inventory

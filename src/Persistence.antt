-- ===== src/Persistence.antt =====
-- The SQLite stores of src/powerfactory_agent/persistence.
pub mod Timestamps
pub mod Database
pub mod Writers
pub mod WorkflowStore
pub mod LeaseStore
pub mod OperationStore
pub mod History

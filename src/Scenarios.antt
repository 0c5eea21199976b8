-- ===== src/Scenarios.antt =====
-- Concrete runs of the theorems, on the calls of one workflow, of its leases, of one operation, on an
-- inventory and on the worker.
mod Data
mod Workflows
mod Leases
mod Operations
mod Inventory
mod Worker

-- ===== src/Persistence/LeaseStore.antt =====
-- persistence/lease_store.py: exclusive context leases with fencing tokens, one module for each
-- group of methods and for what they prove.
pub mod Holder
pub mod Events
pub mod Arguments
pub mod Acquire
pub mod Fenced
pub mod Expiry
pub mod Moves
pub mod Effects
pub mod Invariant
pub mod Preservation
pub mod Calls
pub mod Refinement
pub mod Turnover
pub mod Holding
pub mod Admission
pub mod HolderCalls
pub mod Rejection
pub mod Outcomes
pub mod Grant

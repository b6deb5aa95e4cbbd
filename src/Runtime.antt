-- ===== src/Runtime.antt =====
-- runtime/service.py and runtime/memory.py: the functions that every runtime shares, and
-- `InMemoryCardRuntime`.
pub mod Service
pub mod State
pub mod Cards
pub mod Claim
pub mod Leases
pub mod Calls
pub mod Keyed
pub mod Replay
pub mod Remembered
pub mod Outcomes
pub mod Validation
pub mod Consistency
mod Claimable
pub mod Submission
pub mod Effects
pub mod Expiry
pub mod Versions
pub mod Shadow
pub mod Operations
pub mod History
pub mod Exclusion

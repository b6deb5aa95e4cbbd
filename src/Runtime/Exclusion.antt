-- ===== src/Runtime/Exclusion.antt =====
-- Mutual exclusion of leases in runtime/memory.py: at no instant do two leases that are neither
-- released nor expired name one card.
mod Leases
mod Calls
mod Runs
pub use Leases.{IsExclusive}
pub use Runs.{Run-IsExclusive}

-- ===== src/Store.antt =====
-- src/api/store.ts: the control plane's state, kept in one JSON file that several processes share.
-- A call re-reads the file; a write holds the lock file, changes the state in memory and renames a
-- new file into place. The clock, the fresh ids and the outcome of the lock loop are arguments.
pub mod File
pub mod Lock
pub mod Monad
pub mod Effective
pub mod Reads
pub mod Writes
pub mod Commit
pub mod Operation
pub mod Closed
pub mod Charges
pub mod Counting
pub mod Identity
pub mod Reserve
pub mod Capacity
pub mod Durability
pub mod Sharing
pub mod Runs
pub mod Events
pub mod Retention
pub mod Oldest
pub mod Committed
pub mod Stored
pub mod Persist
pub mod Settled
mod Tests

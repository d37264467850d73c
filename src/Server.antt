-- ===== src/Server.antt =====
-- src/api/server.ts: the handlers of sessions and hosts, and the hook before them.
pub mod Handler
pub mod Idempotency
pub mod Admission
pub mod Draft
pub mod Create
pub mod Delete
pub mod Teardown
pub mod Report
pub mod Hosts
pub mod Replay
pub mod Once
pub mod Access
pub mod Listing
pub mod Activity
mod Tests

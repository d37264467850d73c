-- ===== src/Firecracker.antt =====
-- src/node-agent/firecracker.ts: the orchestrator's pool of network slots and the addresses of their
-- links.
pub mod Slots
pub mod Links
pub mod Machines
pub mod Scheduling

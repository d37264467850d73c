-- ===== src/Agent.antt =====
-- src/node-agent/agent.ts: the warm pool's arithmetic, the gate on concurrent launches, admission and
-- launch reservations.
pub mod WarmPool
pub mod Crashes
pub mod Footprint
pub mod Admission
pub mod Launch
pub mod Gate
pub mod Progress
pub mod Overrun
mod Tests

-- ===== src/Lib.antt =====
-- BaseLayer's control plane and the parts of its node agent that decide: which host takes a
-- session, what the shared state file holds, who may see what, how many runtimes are kept warm,
-- which machine, network slot and CPU policy a session has.
--
-- The control plane (src/api) is a server that keeps sessions, hosts, events, idempotency records
-- and reservations in one JSON file. A creation is scoped to the partner's key, replayed if its
-- idempotency key is known, given a host by the scheduler under a reservation, launched by the
-- node agent, and committed in one write that drops the reservation. A deletion commits the
-- terminated session and asks the node agent. Hosts count with the reservations that have not
-- expired. A node agent (src/node-agent) keeps warm runtimes, limits concurrent launches by gates
-- and reservations, and reports on its host and its sessions. Its Firecracker orchestrator has the
-- machines, a pool of network slots that are claimed, validated, rebuilt and released, and the CPU
-- policies.
--
-- Files and sources:
--   Types/*        src/shared/types.ts: one record or data type for each schema; Types/Schema has the
--                  checks that `parse` makes beyond the shape.
--   Query          the session query of src/api/store-contract.ts and `querySessions` of src/api/store.ts.
--   Scheduler/*    src/api/scheduler.ts: `chooseHost`, `scoreHost`, `matchingWarmReadyCount`.
--   Allowlist/*    src/api/provider-hosts.ts: `ProviderHostAllowlist`.
--   Partner/*      src/api/provider-auth.ts: headers, keys, scopes, what a partner sees.
--   Store/*        src/api/store.ts. File: `#load`, `#refreshFromDisk`, `#persist`. Lock: the loop of
--                  `#withWriteLock`; Monad: what runs under it. Effective: `#effectiveHosts`. Reads and
--                  Writes: the calls. Commit: `commitSessionMutation` and `#pruneTerminatedSessions`.
--                  Persist: `#persist` and `#withWriteLock` where the file system throws. Operation: the
--                  writing calls of src/api/store-contract.ts as one type, and histories of them.
--   Server/*       src/api/server.ts: `createSessionFromRequest`, `deleteSessionFromRequest`,
--                  `reserveHostForCreateWithBackpressure`, idempotency keys. Report: the PATCH of an
--                  internal session. Hosts: registration and heartbeats. Access: `onRequest` and the
--                  routes that show a session. Listing: `/v1/sessions` and `buildProviderStats`. Activity:
--                  `updateSessionActivityFromRequest`.
--   Client/*       src/api/client.ts: `createRemoteSession`, its retries and its timeout.
--   Agent/*        src/node-agent/agent.ts: the functions of the warm pool and `AsyncGate`. Admission:
--                  `#assertAdmission`, `#deriveStatus`; Crashes and Footprint: what they count.
--                  Launch: `#reserveLaunchSlot` and the table of sessions, in both modes.
--   Firecracker/*  src/node-agent/firecracker.ts. Slots: `#claimNetworkSlot`, `#releaseNetworkSlot`,
--                  `#markSlotUnhealthy`, `#ensureSlotRebuild`, `#rebuildNetworkSlot`. Links: the addresses of
--                  a slot. Machines: the tables of sessions and warm sessions. Scheduling:
--                  `#setSchedulerState` and the policies.
--   Base/*         lists, texts, dictionaries, sorting, integers and errors that the others share.
--   Samples        concrete data for the tests.
--
-- State and time. A `ControlPlaneStore` is the file with the process's copy of it; a call returns
-- its result or the error that it throws, and the store after it. A change that throws half-way
-- has changed the copy and not the file. Everywhere but in Store/Persist the calls of the file
-- system return, and what `JSON.stringify` writes is read back, as it is for finite numbers.
-- Instants are numbers of milliseconds, and a call or a request reads the clock once. Fresh ids,
-- the clock, the node agent's answers, the outcome of the wait for the lock, and what others do to
-- the store while a handler awaits are arguments. In the node agent's modules a method that awaits
-- is several moves, one up to each await, and a schedule is any sequence of moves. Numbers that
-- the schemas keep non-negative are natural numbers, fractions left out; differences of them in a
-- score are integers.
--
-- Outside the sources, as parameters: `localeCompare`, the rounding of a percentage in double
-- arithmetic, zod's tests of URLs and UUIDs (Types/Platform), and SHA-256 (Server/Idempotency). A
-- text in a dictionary is no array index, so keys keep the order of insertion.
--
-- Loops. The loops over lists are structural. The loop for the lock takes the rounds that it
-- meets, and ends within 201 of them. The admission loop takes the rounds whose failure would come
-- before its deadline and the one whose failure would not. A retried fetch recurs on the retries
-- that are left. A claim of a network slot that finds none and awaits all rebuilds is a new claim
-- after them.
--
-- Not modelled: HTTP and the dashboard, Firecracker and Docker processes with their snapshots,
-- cgroups and devices, the egress proxy, the node agent's monitoring loop, configuration from the
-- environment, the benchmarks. They are input and output, or planned for later; the answers that
-- the modelled parts take from them are arguments.
pub mod Base
pub mod Types
pub mod Query
pub mod Scheduler
pub mod Allowlist
pub mod Partner
pub mod Store
pub mod Samples
pub mod Server
pub mod Client
pub mod Agent
pub mod Firecracker

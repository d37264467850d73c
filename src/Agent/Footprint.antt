-- ===== src/Agent/Footprint.antt =====
-- `#sessionFootprintSummary` of src/node-agent/agent.ts.
use base_layer.Base.{ℕ, ◌+◌, max, Option, none, some, List, [], ◌∷◌}
use base_layer.Types.{RuntimeKind, microvm, container, SessionMetrics}

pub record TrackedSession : Type 0 where
  pub runtime_kind : RuntimeKind
  pub last_known_metrics : Option SessionMetrics

pub record Footprint : Type 0 where
  pub active_renderer_count : ℕ
  pub tracked_memory_mb : ℕ
  pub tracked_shm_used_mb : ℕ

abbrev memory_of : Option SessionMetrics → ℕ
memory_of none = 0
memory_of (some metrics) = metrics.memory_mb

abbrev shm_of : Option SessionMetrics → ℕ
shm_of none = 0
shm_of (some metrics) = metrics.shm_used_mb

abbrev renderers_in : Option SessionMetrics → ℕ
renderers_in none = 0
renderers_in (some metrics) = metrics.renderer_count

abbrev renderers_held : RuntimeKind → Option SessionMetrics → ℕ
renderers_held microvm metrics = 1
renderers_held container metrics = max (renderers_in metrics) 1

unfoldable pub add_footprints : List TrackedSession → Footprint → Footprint
add_footprints [] total = total
add_footprints (session ∷ rest) total = add_footprints rest (record {
  active_renderer_count =
      total.active_renderer_count + renderers_held session.runtime_kind session.last_known_metrics;
  tracked_memory_mb = total.tracked_memory_mb + memory_of session.last_known_metrics;
  tracked_shm_used_mb = total.tracked_shm_used_mb + shm_of session.last_known_metrics;
})

unfoldable pub session_footprint_summary : List TrackedSession → Footprint
unfolding add_footprints
session_footprint_summary sessions =
    add_footprints sessions
      (record { active_renderer_count = 0; tracked_memory_mb = 0; tracked_shm_used_mb = 0 })

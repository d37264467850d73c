-- ===== src/Types/Schema.antt =====
-- The checks that zod's `parse` makes of a record that has the right shape already: lengths, ranges,
-- entry counts, URLs and UUIDs. A failed check throws, and `parse` returns its argument otherwise.
use base_layer.Base.{
  ◌≡◌, arith, false, Bool, true, ◌&&◌, not, ◌==◌, Option, none, some, String, ltb, leb, sized, all,
  length, Result, ok, err, zod_error, if◌then◌else◌,
}
use base_layer.Base.Int.{ℤ, pos, negsuc}
use base_layer.Types.Provider.{
  ProviderSessionMetadata, ProviderSessionTags, EventScalar, ProviderEventData, HostLabels,
}
use base_layer.Types.Host.{HostCapacity, WarmPool, HostMetrics, HostRecord}
use base_layer.Types.Session.{SessionLogSnapshot, SessionMetrics, SessionRecord, SessionEventRecord}
use base_layer.Types.State.{IdempotencyRecord, HostCreateReservation, HostDeleteReservation}

-- zod's own tests of a text, which the schemas use: `.url()` and `.uuid()`.
pub record Formats : Type 0 where
  pub is_url : String → Bool
  pub is_uuid : String → Bool

-- `schema.optional()`
abbrev pub optional {ℓ} : {A : Type ℓ} → (A → Bool) → Option A → Bool
optional test none = true
optional test (some a) = test a

abbrev pub checked {ℓ} : {A : Type ℓ} → Bool → A → Result A
checked valid a = if valid then ok a else err zod_error

pub checked-eq-ok {ℓ} :
    {A : Type ℓ} (valid : Bool) (a : A) {b : A} → checked valid a ≡ ok b → (valid ≡ true) × (b ≡ a)
checked-eq-ok true a h = ground arith
checked-eq-ok false a h = absurd (ground arith)

unfoldable pub valid_metadata : ProviderSessionMetadata → Bool
valid_metadata p =
    optional (sized 1 128) p.upstream_provider
    && optional (sized 1 256) p.provider_session_id
    && optional (sized 1 128) p.tenant_id
    && optional (sized 1 128) p.project_id
    && optional (sized 1 128) p.workflow_id
    && optional (sized 1 128) p.workload_class

unfoldable pub valid_tags : ProviderSessionTags → Bool
valid_tags tags = all (λ e. sized 1 128 e.0 && sized 1 256 e.1) tags && leb (length tags) 16

unfoldable pub valid_labels : HostLabels → Bool
valid_labels labels = all (λ e. sized 1 128 e.0 && sized 1 256 e.1) labels && leb (length labels) 24

unfoldable pub valid_scalar : EventScalar → Bool
valid_scalar (EventScalar.text s) = sized 0 512 s
valid_scalar (EventScalar.number n) = true
valid_scalar (EventScalar.flag b) = true
valid_scalar EventScalar.null = true

unfoldable pub valid_event_data : ProviderEventData → Bool
unfolding valid_scalar
valid_event_data entries =
    all (λ e. sized 1 128 e.0 && valid_scalar e.1) entries && leb (length entries) 24

unfoldable pub valid_capacity : HostCapacity → Bool
valid_capacity c =
    ltb 0 c.max_sessions
    && ltb 0 c.max_renderer_count
    && ltb 0 c.session_memory_limit_mb
    && ltb 0 c.session_shm_limit_mb
    && ltb 0 c.session_renderer_limit
    && leb 1 c.max_shm_utilization_pct
    && leb c.max_shm_utilization_pct 100

unfoldable pub valid_metrics : HostMetrics → Bool
valid_metrics m =
    leb m.memory_pressure_pct 100
    && leb m.cpu_utilization_pct 100
    && all (λ p. sized 1 128 (WarmPool.runtime_profile p)) m.warm_pools
    && leb (length m.warm_pools) 64

unfoldable pub valid_logs : SessionLogSnapshot → Bool
valid_logs l = all (sized 0 2048) l.lines && leb (length l.lines) 200

unfoldable pub valid_weight : ℤ → Bool
valid_weight (pos n) = leb n 19
valid_weight (negsuc n) = ltb n 20

unfoldable pub valid_session_metrics : SessionMetrics → Bool
unfolding valid_weight
valid_session_metrics m =
    ltb 0 m.memory_limit_mb && ltb 0 m.shm_limit_mb && valid_weight m.scheduler_weight

unfoldable pub valid_event : SessionEventRecord → Bool
unfolding valid_event_data
valid_event e = optional valid_event_data e.details

-- `sessionEventRecordSchema.parse`
unfoldable pub parse_event : SessionEventRecord → Result SessionEventRecord
parse_event e = checked (valid_event e) e

unfoldable pub valid_idempotency : IdempotencyRecord → Bool
valid_idempotency r =
    sized 1 256 r.scope_key
    && sized 1 256 r.idempotency_key
    && sized 1 256 r.route
    && sized 1 128 r.request_hash
    && leb 100 r.response_status
    && leb r.response_status 599

-- `idempotencyRecordSchema.parse`
unfoldable pub parse_idempotency : IdempotencyRecord → Result IdempotencyRecord
parse_idempotency r = checked (valid_idempotency r) r

module _ (formats : Formats) where
  open formats use {is_url, is_uuid}

  unfoldable pub valid_host : HostRecord → Bool
  valid_host h =
      is_url h.api_url
      && optional (sized 1 64) h.region
      && optional (sized 1 128) h.instance_type
      && optional valid_labels h.labels
      && optional (λ ps. all (sized 1 128) ps && leb (length ps) 64) h.supported_runtime_profiles
      && valid_capacity h.capacity
      && valid_metrics h.metrics

  -- `hostRecordSchema.parse`
  unfoldable pub parse_host : HostRecord → Result HostRecord
  parse_host h = checked (valid_host h) h

  unfoldable pub valid_session : SessionRecord → Bool
  valid_session s =
      is_url s.connect_url
      && is_url s.cdp_url
      && is_url s.playwright_url
      && is_url s.puppeteer_url
      && is_url s.debug_http_url
      && ltb 0 s.timeout_sec
      && ltb 0 s.idle_timeout_sec
      && optional valid_metadata s.provider
      && optional valid_tags s.session_tags
      && optional valid_logs s.recent_logs
      && optional valid_session_metrics s.last_known_metrics

  -- `sessionRecordSchema.parse`
  unfoldable pub parse_session : SessionRecord → Result SessionRecord
  parse_session s = checked (valid_session s) s

  unfoldable pub valid_create_reservation : HostCreateReservation → Bool
  valid_create_reservation r =
      is_uuid r.session_id
      && not (r.host_id == "")
      && optional (sized 1 128) r.runtime_profile
      && optional (sized 1 64) r.preferred_region

  -- `hostCreateReservationSchema.parse`
  unfoldable pub parse_create_reservation : HostCreateReservation → Result HostCreateReservation
  parse_create_reservation r = checked (valid_create_reservation r) r

  unfoldable pub valid_delete_reservation : HostDeleteReservation → Bool
  valid_delete_reservation r = is_uuid r.session_id && not (r.host_id == "")

  -- `hostDeleteReservationSchema.parse`
  unfoldable pub parse_delete_reservation : HostDeleteReservation → Result HostDeleteReservation
  parse_delete_reservation r = checked (valid_delete_reservation r) r

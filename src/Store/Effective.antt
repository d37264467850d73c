-- ===== src/Store/Effective.antt =====
-- Reservations and the hosts as they count: `#cleanupExpiredReservations` and `#effectiveHosts`.
use base_layer.Base.{
  ℕ, ◌+◌, ◌-◌, Bool, ◌&&◌, not, Option, none, some, List, [], ◌∷◌, String, leb, ltb, ◌==◌,
  if◌then◌else◌, filter, same_text,
}
use base_layer.Base.Int.{ℤ, sub_ℕ}
use base_layer.Base.Dict.{values, remove_if}
use base_layer.Base.Sort.{sort}
use base_layer.Types.{
  StateFile, HostRecord, WarmPool, HostCreateReservation, HostDeleteReservation, firecracker,
  same_mode,
}

unfoldable pub cleanup_expired_reservations : ℕ → StateFile → StateFile
cleanup_expired_reservations now s = record s {
  host_create_reservations =
      remove_if (λ r. leb (HostCreateReservation.expires_at r) now) s.host_create_reservations;
  host_delete_reservations =
      remove_if (λ r. leb (HostDeleteReservation.expires_at r) now) s.host_delete_reservations;
}

abbrev behind_pool : WarmPool → Option (List WarmPool) → Option (List WarmPool)
behind_pool pool none = none
behind_pool pool (some pools) = some (pool ∷ pools)

-- The first pool of the profile with a ready runtime gives one up; `none` where there is none.
unfoldable pub take_warm : Option String → List WarmPool → Option (List WarmPool)
take_warm profile [] = none
take_warm profile (pool ∷ rest) =
    let later = take_warm profile rest in
    if same_text (some pool.runtime_profile) profile && ltb 0 pool.ready_count
    then some (record pool { ready_count = pool.ready_count - 1 } ∷ rest)
    else behind_pool pool later

-- Every reservation counts one session and one renderer, and one cold admission less.
unfoldable pub charge_session : HostRecord → HostRecord
charge_session host = record host {
  metrics = record (host.metrics) {
    active_sessions = host.metrics.active_sessions + 1;
    active_renderer_count = host.metrics.active_renderer_count + 1;
    cold_admit_remaining = host.metrics.cold_admit_remaining - 1;
  };
}

unfoldable pub charge_cold : HostRecord → HostRecord
charge_cold host = record host {
  metrics = record (host.metrics) {
    active_microvm_count = host.metrics.active_microvm_count + 1;
    reserved_microvm_memory_mb =
        host.metrics.reserved_microvm_memory_mb + host.capacity.microvm_memory_mb;
  };
}

unfoldable pub charge_pools : Option (List WarmPool) → HostRecord → HostRecord
unfolding charge_cold
charge_pools none host = charge_cold host
charge_pools (some pools) host = record host {
  metrics = record (host.metrics) { warm_pools = pools };
}

-- The body of the loop over the reservations, for the host that the reservation names.
unfoldable pub charge_host : HostCreateReservation → HostRecord → HostRecord
unfolding charge_session charge_pools take_warm
charge_host reservation host =
    let counted = charge_session host in
    if not (same_mode host.mode firecracker)
    then counted
    else charge_pools
        (if reservation.warm_expected
          then take_warm reservation.runtime_profile host.metrics.warm_pools
          else none)
        counted

-- `hosts.find(…)` and the update in place.
unfoldable pub charge : HostCreateReservation → List HostRecord → List HostRecord
unfolding charge_host
charge reservation [] = []
charge reservation (host ∷ hosts) =
    let later = charge reservation hosts in
    if host.host_id == reservation.host_id
    then charge_host reservation host ∷ hosts
    else host ∷ later

unfoldable pub charge_all : List HostCreateReservation → List HostRecord → List HostRecord
unfolding charge
charge_all [] hosts = hosts
charge_all (reservation ∷ rest) hosts = charge_all rest (charge reservation hosts)

abbrev pub by_created : HostCreateReservation → HostCreateReservation → ℤ
by_created left right = sub_ℕ left.created_at right.created_at

abbrev pub is_live : ℕ → HostCreateReservation → Bool
is_live now reservation = ltb now reservation.expires_at

-- The reservations that have not expired, oldest first.
unfoldable pub live_reservations : ℕ → StateFile → List HostCreateReservation
live_reservations now s = sort by_created (filter (is_live now) (values s.host_create_reservations))

-- The delete reservations are read by the source and then left out on purpose.
module _ (locale_compare : String → String → ℤ) where
  unfoldable pub effective_hosts : ℕ → StateFile → List HostRecord
  unfolding charge_all live_reservations
  effective_hosts now s =
      charge_all (live_reservations now s)
        (sort (λ left right. locale_compare left.host_id right.host_id) (values s.hosts))

-- ===== src/Server/Listing/Tests.antt =====
-- Lists and figures of the sample state.
use base_layer.Base.{
  ℕ, true, false, Option, none, some, List, [], ◌∷◌, String, ◌≡◌, ◌⊎◌, Memᴰ, refl, ok, length,
}
use base_layer.Base.Int.{pos, negsuc}
use base_layer.Base.Dict.{values}
use base_layer.Samples.{platform, store, live}
use base_layer.Allowlist.{ProviderHostAllowlist, new}
use base_layer.Query.{ControlPlaneSessionQuery, matches_query}
use base_layer.Partner.{PartnerAuthContext, can_partner_access_session}
use base_layer.Server.Listing.{
  ProviderStats, parse_int, query_limit, average, no_query, list_v1_sessions, build_provider_stats,
}
use base_layer.Server.Listing.Laws.{IsWithin, list_v1_sessions-IsWithin}

reads_the_front : parse_int " 12abc" ≡ some (pos 12)
unfolding parse_int
reads_the_front = refl

reads_a_sign : parse_int "-3.5" ≡ some (negsuc 2)
unfolding parse_int
reads_a_sign = refl

reads_none : parse_int "+" ≡ none
unfolding parse_int
reads_none = refl

refuses_an_empty_limit : query_limit (some "") ≡ none
unfolding query_limit
refuses_an_empty_limit = refl

rounds_up : average (10 ∷ 11 ∷ []) ≡ some 11
unfolding average
rounds_up = refl

abbrev acme : PartnerAuthContext
acme = record {
  key_id = "k1";
  name = none;
  tenant_id = some "acme";
  project_id = none;
  upstream_provider = none;
  allowed_regions = none;
  allowed_runtime_profiles = none;
}

abbrev running_only : ControlPlaneSessionQuery
running_only = record no_query { status = some "running" }

lists :
    list_v1_sessions platform (some acme) running_only (some "5") store
    ≡ (ok (record { status = 200; sessions = live ∷ [] }), store)
unfolding list_v1_sessions base_layer.Store.Reads.query_sessions base_layer.Store.Monad.reading
    base_layer.Store.File.refresh_from_disk base_layer.Partner.Filter.filter_sessions_for_partner
    base_layer.Types.Schema.valid_session base_layer.Store.Reads.sessions_of
    base_layer.Types.Schema.valid_metadata base_layer.Base.Sort.sort base_layer.Base.sized
    base_layer.Types.Schema.valid_host base_layer.Types.Schema.valid_capacity
    base_layer.Types.Schema.valid_metrics matches_query
    base_layer.Partner.session_matches_partner_scope
lists = refl

list_v1_sessions-IsWithin_example :
    Memᴰ live (values store.state.sessions)
    × (can_partner_access_session live (some acme) ≡ true)
    × (matches_query running_only live ≡ true)
    × IsWithin (query_limit (some "5")) 1
list_v1_sessions-IsWithin_example =
    list_v1_sessions-IsWithin platform (some acme) running_only (some "5") store live lists
      (Memᴰ.head refl)

abbrev stats : ProviderStats
stats = record {
  host_count = 3;
  allowlisted_host_count = 0;
  active_sessions = 1;
  failed_sessions = 0;
  avg_launch_ms = none;
  healthy_hosts = 3;
  degraded_hosts = 0;
  draining_hosts = 0;
  no_admit_hosts = 0;
}

counts : build_provider_stats platform 40 (new [] false) (some acme) store ≡ (ok stats, store)
unfolding build_provider_stats base_layer.Store.Reads.list_hosts base_layer.Store.Monad.reading
    base_layer.Store.File.refresh_from_disk base_layer.Store.Reads.list_sessions
    base_layer.Partner.Filter.filter_hosts_for_partner base_layer.Allowlist.list
    base_layer.Partner.Filter.filter_sessions_for_partner base_layer.Types.Schema.valid_session
    base_layer.Store.Effective.effective_hosts base_layer.Base.Sort.sort
    base_layer.Store.Reads.sessions_of base_layer.Types.Schema.valid_metadata base_layer.Base.sized
    new base_layer.Types.Schema.valid_host base_layer.Types.Schema.valid_capacity
    base_layer.Types.Schema.valid_metrics base_layer.Partner.session_matches_partner_scope
    matches_query
counts = refl

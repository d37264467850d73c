-- ===== src/Server/Listing.antt =====
-- What a partner is shown of all sessions and hosts: `GET /v1/sessions` with its limit, the hosts of
-- `GET /v1/hosts`, and `buildProviderStats`.
pub mod Laws
mod Tests
use Prim.Native.Char.{code}
use base_layer.Base.{
  ℕ, ◌+◌, ◌-◌, ◌*◌, ◌/◌, Bool, true, false, ◌&&◌, Option, none, some, List, [], ◌∷◌, String, length,
  leb, nat_eq, filter, if◌then◌else◌, codes, ◌==◌,
}
use base_layer.Base.Int.{ℤ, pos, negsuc}
use base_layer.Types.{
  SessionRecord, HostRecord, HostStatus, LaunchTiming, same_status, same_host_status, running,
  failed, healthy, degraded, draining, no_admit,
}
use base_layer.Types.Platform.{Platform}
use base_layer.Query.{ControlPlaneSessionQuery}
use base_layer.Allowlist.{ProviderHostAllowlist, list}
use base_layer.Partner.{PartnerAuthContext}
use base_layer.Partner.Headers.{trim_start}
use base_layer.Partner.Filter.{filter_sessions_for_partner, filter_hosts_for_partner}
use base_layer.Store.Reads.{list_sessions, list_hosts, query_sessions}
use base_layer.Server.Handler.{Handler, ◌>>=◌, pure}

abbrev is_digit : ℕ → Bool
is_digit c = leb b'0' c && leb c b'9'

-- The digits at the front, read after those that are already read.
unfoldable pub digits_from : ℕ → List ℕ → ℕ
digits_from n [] = n
digits_from n (c ∷ cs) =
    let more = digits_from (n * 10 + (c - b'0')) cs in if is_digit c then more else n

-- Without a digit at the front there is no number.
unfoldable pub digits : List ℕ → Option ℕ
unfolding digits_from
digits [] = none
digits (c ∷ cs) = if is_digit c then some (digits_from 0 (c ∷ cs)) else none

abbrev negated : Option ℕ → Option ℤ
negated none = none
negated (some ℕ.zero) = some (pos 0)
negated (some (ℕ.suc n)) = some (negsuc n)

abbrev plain : Option ℕ → Option ℤ
plain none = none
plain (some n) = some (pos n)

unfoldable pub signed : List ℕ → Option ℤ
unfolding digits
signed [] = none
signed (c ∷ cs) =
    if nat_eq c b'-'
    then negated (digits cs)
    else if nat_eq c b'+'
    then plain (digits cs)
    else plain (digits (c ∷ cs))

-- `Number.parseInt(text, 10)`, with none for NaN; numbers that double arithmetic rounds are not.
unfoldable pub parse_int : String → Option ℤ
unfolding signed trim_start
parse_int text = signed (codes (trim_start text))

abbrev pub Limit : Type 0
Limit = Option (Option ℤ)

abbrev finite_limit : Option ℤ → Limit
finite_limit none = none
finite_limit (some n) = some (some n)

-- The limit that the query asks for: none of it where the query is refused. An empty text is falsy, and
-- no number then.
unfoldable pub query_limit : Option String → Limit
unfolding parse_int
query_limit none = some none
query_limit (some text) = if text == "" then none else finite_limit (parse_int text)

abbrev pub no_query : ControlPlaneSessionQuery
no_query = record {
  status = none;
  provider_session_id = none;
  workflow_id = none;
  tenant_id = none;
  project_id = none;
  upstream_provider = none;
  runtime_profile = none;
  region = none;
}

-- What is sent: the status, and the sessions where it is 200.
pub record Listed : Type 0 where
  pub status : ℕ
  pub sessions : List SessionRecord

-- The figures of `buildProviderStats`, without the time at which they are made.
pub record ProviderStats : Type 0 where
  pub host_count : ℕ
  pub allowlisted_host_count : ℕ
  pub active_sessions : ℕ
  pub failed_sessions : ℕ
  pub avg_launch_ms : Option ℕ
  pub healthy_hosts : ℕ
  pub degraded_hosts : ℕ
  pub draining_hosts : ℕ
  pub no_admit_hosts : ℕ

abbrev pub with_time : Option LaunchTiming → List ℕ → List ℕ
with_time none rest = rest
with_time (some timing) rest = timing.total_ms ∷ rest

unfoldable pub launch_values : List SessionRecord → List ℕ
launch_values [] = []
launch_values (session ∷ rest) = with_time session.launch_timings (launch_values rest)

unfoldable pub sum : List ℕ → ℕ
sum [] = 0
sum (n ∷ rest) = n + sum rest

-- `Math.round(sum / length)`: a half is rounded up.
unfoldable pub average : List ℕ → Option ℕ
unfolding sum
average [] = none
average (n ∷ rest) = let many = length (n ∷ rest) in some ((2 * sum (n ∷ rest) + many) / (2 * many))

unfoldable pub hosts_with : HostStatus → List HostRecord → ℕ
hosts_with status hosts = length (filter (λ host. same_host_status host.status status) hosts)

unfoldable pub stats_of : List HostRecord → ℕ → List SessionRecord → ProviderStats
unfolding hosts_with launch_values average
stats_of hosts allowlisted sessions =
    let active = filter (λ session. same_status session.status running) sessions in
    record {
      host_count = length hosts;
      allowlisted_host_count = allowlisted;
      active_sessions = length active;
      failed_sessions = length (filter (λ session. same_status session.status failed) sessions);
      avg_launch_ms = average (launch_values active);
      healthy_hosts = hosts_with healthy hosts;
      degraded_hosts = hosts_with degraded hosts;
      draining_hosts = hosts_with draining hosts;
      no_admit_hosts = hosts_with no_admit hosts;
    }

module _ (platform : Platform) where
  abbrev pub list_limited :
      Option PartnerAuthContext → ControlPlaneSessionQuery → Limit → Handler Listed
  list_limited auth query none = pure (record { status = 400; sessions = [] })
  list_limited auth query (some limit) = do
    found ← query_sessions platform query
    pure (record {
      status = 200;
      sessions =
          filter_sessions_for_partner found (record { query = no_query; limit = limit }) auth;
    })

  -- `GET /v1/sessions`
  unfoldable pub list_v1_sessions :
      Option PartnerAuthContext → ControlPlaneSessionQuery → Option String → Handler Listed
  unfolding query_limit
  list_v1_sessions auth query limit = list_limited auth query (query_limit limit)

  -- `GET /v1/hosts`: a stored host has both fields that the route would fill in.
  unfoldable pub list_v1_hosts : ℕ → Option PartnerAuthContext → Handler (List HostRecord)
  list_v1_hosts now auth = do
    hosts ← list_hosts platform now
    pure (filter_hosts_for_partner hosts auth)

  unfoldable pub build_provider_stats :
      ℕ → ProviderHostAllowlist → Option PartnerAuthContext → Handler ProviderStats
  unfolding stats_of
  build_provider_stats now allowlist auth = do
    hosts ← list_hosts platform now
    sessions ← list_sessions platform
    pure (
        stats_of (filter_hosts_for_partner hosts auth)
          (length (list platform.locale_compare allowlist))
          (filter_sessions_for_partner sessions (record { query = no_query; limit = none }) auth))

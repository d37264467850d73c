-- ===== src/Partner/Filter.antt =====
-- What a partner sees of the sessions and of the hosts.
use base_layer.Base.{
  suc, ◌-◌, Bool, true, false, ◌||◌, not, Option, none, some, List, [], ◌∷◌, String, if◌then◌else◌,
  filter, take, length, any, includes, ◌==◌,
}
use base_layer.Base.Int.{ℤ, pos, negsuc}
use base_layer.Types.{SessionRecord, HostRecord}
use base_layer.Query.{ControlPlaneSessionQuery, matches_query}
use base_layer.Partner.{PartnerAuthContext, session_matches_partner_scope}

pub record PartnerSessionQuery : Type 0 where
  pub query : ControlPlaneSessionQuery
  pub limit : Option ℤ

-- `list.slice(0, limit)`: a negative limit counts from the end.
unfoldable pub slice {ℓ} : {A : Type ℓ} → Option ℤ → List A → List A
slice none xs = xs
slice (some (pos n)) xs = take n xs
slice (some (negsuc n)) xs = take (length xs - suc n) xs

unfoldable pub filter_sessions_for_partner :
    List SessionRecord → PartnerSessionQuery → Option PartnerAuthContext → List SessionRecord
unfolding slice
filter_sessions_for_partner sessions q auth = slice q.limit (
    filter (matches_query q.query)
      (filter (λ session. session_matches_partner_scope session auth) sessions))

-- `allowed && allowed.length > 0` with a region that is missing, empty or not allowed
unfoldable pub region_refused : Option (List String) → Option String → Bool
region_refused none region = false
region_refused (some []) region = false
region_refused (some (a ∷ allowed)) none = true
region_refused (some (a ∷ allowed)) (some region) =
    region == "" || not (includes (a ∷ allowed) region)

-- The same for the profiles: one that the host supports must be allowed.
unfoldable pub profiles_refused : Option (List String) → Option (List String) → Bool
profiles_refused none supported = false
profiles_refused (some []) supported = false
profiles_refused (some (a ∷ allowed)) none = true
profiles_refused (some (a ∷ allowed)) (some []) = true
profiles_refused (some (a ∷ allowed)) (some (p ∷ ps)) = not (any (includes (a ∷ allowed)) (p ∷ ps))

unfoldable pub host_visible : PartnerAuthContext → HostRecord → Bool
unfolding region_refused profiles_refused
host_visible auth host =
    if region_refused auth.allowed_regions host.region
    then false
    else if profiles_refused auth.allowed_runtime_profiles host.supported_runtime_profiles
    then false
    else true

unfoldable pub filter_hosts_for_partner :
    List HostRecord → Option PartnerAuthContext → List HostRecord
unfolding host_visible
filter_hosts_for_partner hosts none = hosts
filter_hosts_for_partner hosts (some auth) = filter (host_visible auth) hosts

-- ===== src/Partner/Scope.antt =====
-- The scope that a partner's key puts on a request to create a session.
use base_layer.Base.{
  Bool, true, false, ◌&&◌, ◌||◌, not, Option, none, some, String, if◌then◌else◌, truthy, same_text,
  Result, ok, err, message, ◌>>=◌,
}
use base_layer.Types.{ProviderSessionMetadata, CreateSessionRequest}
use base_layer.Partner.{PartnerAuthContext, forbidden}

abbrev pub no_metadata : ProviderSessionMetadata
no_metadata = record {
  upstream_provider = none;
  provider_session_id = none;
  tenant_id = none;
  project_id = none;
  workflow_id = none;
  workload_class = none;
}

-- `{ ...(provider ?? {}) }`
abbrev pub spread : Option ProviderSessionMetadata → ProviderSessionMetadata
spread none = no_metadata
spread (some provider) = provider

abbrev is_some {ℓ} : {A : Type ℓ} → Option A → Bool
is_some none = false
is_some (some a) = true

-- `Object.keys(merged).length > 0`
unfoldable pub has_keys : ProviderSessionMetadata → Bool
has_keys p =
    is_some p.upstream_provider
    || is_some p.provider_session_id
    || is_some p.tenant_id
    || is_some p.project_id
    || is_some p.workflow_id
    || is_some p.workload_class

-- `merged.field && merged.field !== wanted`
abbrev clashes : Option String → Option String → Bool
clashes value wanted = truthy value && not (same_text value wanted)

-- One block of `mergeProviderScope`: the value that the field gets, if the key's scope names one.
abbrev pub merge_field : Option String → Option String → String → Result (Option String)
merge_field wanted value mismatch =
    if truthy wanted
    then (if clashes value wanted then err (message mismatch) else ok wanted)
    else ok value

unfoldable pub merge_metadata :
    ProviderSessionMetadata → PartnerAuthContext → Result ProviderSessionMetadata
merge_metadata merged auth = do
  tenant_id ← merge_field auth.tenant_id merged.tenant_id "Tenant scope mismatch."
  project_id ← merge_field auth.project_id merged.project_id "Project scope mismatch."
  upstream_provider ←
      merge_field auth.upstream_provider merged.upstream_provider
        "Upstream provider scope mismatch."
  ok (record merged {
    tenant_id = tenant_id;
    project_id = project_id;
    upstream_provider = upstream_provider;
  })

unfoldable pub merge_provider_scope :
    Option ProviderSessionMetadata
    → Option PartnerAuthContext
    → Result (Option ProviderSessionMetadata)
unfolding merge_metadata has_keys
merge_provider_scope provider none = ok provider
merge_provider_scope provider (some auth) = do
  merged ← merge_metadata (spread provider) auth
  ok (if has_keys merged then some merged else none)

unfoldable pub apply_partner_scope_to_create_request :
    CreateSessionRequest → Option PartnerAuthContext → Result CreateSessionRequest
unfolding merge_provider_scope
apply_partner_scope_to_create_request request none = ok request
apply_partner_scope_to_create_request request (some auth) =
    if forbidden auth.allowed_regions request.region
    then err (message "Region is not allowed for this partner key.")
    else if forbidden auth.allowed_runtime_profiles request.runtime_profile
    then err (message "Runtime profile is not allowed for this partner key.")
    else do
      provider ← merge_provider_scope request.provider (some auth)
      ok (record request { provider = provider })

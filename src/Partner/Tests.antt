-- ===== src/Partner/Tests.antt =====
-- Two partners' keys and a session of one of them.
use base_layer.Base.{
  Bool, true, false, Option, none, some, List, [], ◌∷◌, String, ◌≡◌, ◌≢◌, refl, arith, Memᴰ, Result,
  ok, err, message, truthy, eq_iff,
}
use base_layer.Types.{SessionRecord, CreateSessionRequest}
use base_layer.Query.{matches_query}
use base_layer.Allowlist.{ConfigFile}
use base_layer.Samples.{live, create_request}
use base_layer.Partner.{ProviderApiKeyConfigEntry, PartnerAuthContext, can_partner_access_session}
use base_layer.Partner.Headers.{Headers, extract_api_key, single}
use base_layer.Partner.Keys.{
  load, required, new, authenticate, context_of, authenticate_sound, authenticate_complete,
}
use base_layer.Partner.Scope.{apply_partner_scope_to_create_request}
use base_layer.Partner.Filter.{PartnerSessionQuery, filter_sessions_for_partner}
use base_layer.Partner.Isolation.{
  filter_sessions_for_partner_sound, filter_sessions_for_partner_complete, tenants_apart,
}
use base_layer.Partner.Closure.{apply_partner_scope-closed}

abbrev key_of : String → String → String → ProviderApiKeyConfigEntry
key_of id api_key tenant = record {
  key_id = id;
  api_key = api_key;
  enabled = true;
  name = none;
  tenant_id = some tenant;
  project_id = none;
  upstream_provider = none;
  allowed_regions = some ("eu" ∷ []);
  allowed_runtime_profiles = none;
}

abbrev acme_entry : ProviderApiKeyConfigEntry
acme_entry = key_of "k1" "secret-1" "acme"

abbrev acme : PartnerAuthContext
acme = record {
  key_id = "k1";
  name = none;
  tenant_id = some "acme";
  project_id = none;
  upstream_provider = none;
  allowed_regions = some ("eu" ∷ []);
  allowed_runtime_profiles = none;
}

abbrev other : PartnerAuthContext
other = record {
  key_id = "k2";
  name = none;
  tenant_id = some "other";
  project_id = none;
  upstream_provider = none;
  allowed_regions = none;
  allowed_runtime_profiles = none;
}

abbrev keys : List ProviderApiKeyConfigEntry
keys = acme_entry ∷ key_of "k2" "secret-2" "other" ∷ []

abbrev bearer : Headers
bearer = ("authorization", single "Bearer  secret-1 ") ∷ []

abbrev stranger : Headers
stranger = ("x-baselayer-api-key", single "secret-9") ∷ []

reads_bearer : extract_api_key bearer ≡ some "secret-1"
unfolding extract_api_key base_layer.Base.Dict.lookup
reads_bearer = refl

authenticates : authenticate (new keys false) bearer ≡ some acme
unfolding authenticate new extract_api_key base_layer.Base.Dict.lookup
authenticates = refl

refuses : authenticate (new keys false) stranger ≡ none
unfolding authenticate new extract_api_key base_layer.Base.Dict.lookup
refuses = refl

reads_stranger : extract_api_key stranger ≡ some "secret-9"
unfolding extract_api_key base_layer.Base.Dict.lookup
reads_stranger = refl

authenticate_sound_example :
    (entry : ProviderApiKeyConfigEntry) × Memᴰ entry keys
    × (entry.enabled ≡ true)
    × (extract_api_key bearer ≡ some entry.api_key)
    × (entry.api_key ≢ "")
    × (acme ≡ context_of entry)
authenticate_sound_example = authenticate_sound keys false bearer acme authenticates

differ_9 : ◌≢◌ {A = String} "secret-9" ""
differ_9 h = ground (arith, eq_iff "secret-9" "")

authenticate_complete_case : acme_entry.api_key ≢ "secret-9"
authenticate_complete_case =
    authenticate_complete keys false stranger "secret-9" acme_entry reads_stranger differ_9 refuses
      (Memᴰ.head refl) refl

abbrev all_of_tenant : PartnerSessionQuery
all_of_tenant = record {
  query = record {
    status = some "running";
    provider_session_id = none;
    workflow_id = none;
    tenant_id = some "acme";
    project_id = none;
    upstream_provider = none;
    runtime_profile = none;
    region = none;
  };
  limit = none;
}

abbrev sessions : List SessionRecord
sessions = live ∷ []

in_scope : can_partner_access_session live (some acme) ≡ true
unfolding can_partner_access_session base_layer.Base.includes
in_scope = refl

matching : matches_query all_of_tenant.query live ≡ true
unfolding matches_query
matching = refl

filter_sessions_for_partner_complete_case :
    Memᴰ live (filter_sessions_for_partner sessions all_of_tenant (some acme))
filter_sessions_for_partner_complete_case =
    filter_sessions_for_partner_complete sessions all_of_tenant (some acme) live refl
      (Memᴰ.head refl) in_scope matching

filter_sessions_for_partner_sound_case :
    Memᴰ live sessions
    × (can_partner_access_session live (some acme) ≡ true)
    × (matches_query all_of_tenant.query live ≡ true)
filter_sessions_for_partner_sound_case =
    filter_sessions_for_partner_sound sessions all_of_tenant (some acme) live (
      filter_sessions_for_partner_complete sessions all_of_tenant (some acme) live refl
        (Memᴰ.head refl) in_scope matching)

tenants_differ : acme.tenant_id ≢ other.tenant_id
tenants_differ h = ground (arith, eq_iff "acme" "other")

tenants_apart_example : can_partner_access_session live (some other) ≡ false
tenants_apart_example = tenants_apart live acme other refl refl tenants_differ in_scope

abbrev scoped_request : CreateSessionRequest
scoped_request = record create_request {
  provider = some (record {
    upstream_provider = none;
    provider_session_id = none;
    tenant_id = some "acme";
    project_id = none;
    workflow_id = none;
    workload_class = none;
  });
}

scopes : apply_partner_scope_to_create_request create_request (some acme) ≡ ok scoped_request
unfolding apply_partner_scope_to_create_request base_layer.Base.includes
scopes = refl

refuses_region :
    apply_partner_scope_to_create_request (record create_request { region = some "us" }) (some acme)
    ≡ err (message "Region is not allowed for this partner key.")
unfolding apply_partner_scope_to_create_request base_layer.Base.includes
refuses_region = refl

apply_partner_scope-closed_example : can_partner_access_session live (some acme) ≡ true
apply_partner_scope-closed_example =
    apply_partner_scope-closed create_request acme scoped_request live scopes refl refl refl

-- A file of keys that cannot be read leaves none, and asks for one only where that is enforced.
loads_none : required (load ConfigFile.malformed false) ≡ false
unfolding load required new
loads_none = refl

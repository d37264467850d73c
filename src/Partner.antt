-- ===== src/Partner.antt =====
-- src/api/provider-auth.ts: partner keys, what a key may see and ask for.
pub mod Headers
pub mod Keys
pub mod Scope
pub mod Filter
pub mod Isolation
pub mod Closure
mod Tests
use base_layer.Base.{
  Bool, true, false, Option, none, some, List, String, if◌then◌else◌, truthy, same_text, includes,
  not, ◌==◌, ◌&&◌, ◌||◌, [], ◌∷◌,
}
use base_layer.Types.{SessionRecord}
use base_layer.Query.{provider_field}

pub record ProviderApiKeyConfigEntry : Type 0 where
  pub key_id : String
  pub api_key : String
  pub enabled : Bool
  pub name : Option String
  pub tenant_id : Option String
  pub project_id : Option String
  pub upstream_provider : Option String
  pub allowed_regions : Option (List String)
  pub allowed_runtime_profiles : Option (List String)

pub record PartnerAuthContext : Type 0 where
  pub key_id : String
  pub name : Option String
  pub tenant_id : Option String
  pub project_id : Option String
  pub upstream_provider : Option String
  pub allowed_regions : Option (List String)
  pub allowed_runtime_profiles : Option (List String)

-- `wanted && value !== wanted`
abbrev pub differs : Option String → Option String → Bool
differs wanted value = truthy wanted && not (same_text value wanted)

-- `allowed && allowed.length > 0 && value && !allowed.includes(value)`
abbrev pub forbidden : Option (List String) → Option String → Bool
forbidden none value = false
forbidden (some []) value = false
forbidden (some (a ∷ allowed)) none = false
forbidden (some (a ∷ allowed)) (some value) =
    not (value == "") && not (includes (a ∷ allowed) value)

-- The checks of `sessionMatchesPartnerScope` behind the test for a missing key.
unfoldable pub matches_scope : SessionRecord → PartnerAuthContext → Bool
matches_scope session auth =
    if differs auth.tenant_id (provider_field (λ p. p.tenant_id) session.provider)
    then false
    else if differs auth.project_id (provider_field (λ p. p.project_id) session.provider)
    then false
    else if differs auth.upstream_provider
        (provider_field (λ p. p.upstream_provider) session.provider)
    then false
    else if forbidden auth.allowed_regions session.region
    then false
    else if forbidden auth.allowed_runtime_profiles session.runtime_profile
    then false
    else true

-- `sessionMatchesPartnerScope`, which `canPartnerAccessSession` calls
unfoldable pub session_matches_partner_scope : SessionRecord → Option PartnerAuthContext → Bool
unfolding matches_scope
session_matches_partner_scope session none = true
session_matches_partner_scope session (some auth) = matches_scope session auth

unfoldable pub can_partner_access_session : SessionRecord → Option PartnerAuthContext → Bool
unfolding session_matches_partner_scope
can_partner_access_session session auth = session_matches_partner_scope session auth

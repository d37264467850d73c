-- ===== src/Query.antt =====
-- The session query of src/api/store-contract.ts, and the chain of filters that it stands for in
-- `querySessions` and in `filterSessionsForPartner`, taken together in one test.
use base_layer.Base.{Bool, true, ◌&&◌, Option, none, some, String, if◌then◌else◌, truthy, same_text}
use base_layer.Types.{
  SessionStatus, pending, running, terminating, terminated, failed, SessionRecord,
  ProviderSessionMetadata,
}

-- `status` may be any text of a request, so it is compared as a text.
pub record ControlPlaneSessionQuery : Type 0 where
  pub status : Option String
  pub provider_session_id : Option String
  pub workflow_id : Option String
  pub tenant_id : Option String
  pub project_id : Option String
  pub upstream_provider : Option String
  pub runtime_profile : Option String
  pub region : Option String

abbrev pub status_text : SessionStatus → String
status_text pending = "pending"
status_text running = "running"
status_text terminating = "terminating"
status_text terminated = "terminated"
status_text failed = "failed"

-- `query.field ? value === query.field : true`
abbrev pub wants : Option String → Option String → Bool
wants wanted value = if truthy wanted then same_text value wanted else true

abbrev pub provider_field :
    (ProviderSessionMetadata → Option String) → Option ProviderSessionMetadata → Option String
provider_field get none = none
provider_field get (some provider) = get provider

unfoldable pub matches_query : ControlPlaneSessionQuery → SessionRecord → Bool
matches_query query session =
    wants query.status (some (status_text session.status))
    && wants query.provider_session_id
        (provider_field (λ p. p.provider_session_id) session.provider)
    && wants query.workflow_id (provider_field (λ p. p.workflow_id) session.provider)
    && wants query.tenant_id (provider_field (λ p. p.tenant_id) session.provider)
    && wants query.project_id (provider_field (λ p. p.project_id) session.provider)
    && wants query.upstream_provider (provider_field (λ p. p.upstream_provider) session.provider)
    && wants query.runtime_profile session.runtime_profile
    && wants query.region session.region

-- ===== src/Types/Provider.antt =====
-- The provider's metadata of src/shared/types.ts.
use base_layer.Base.{ℕ, Bool, Option, String}
use base_layer.Base.Dict.{Dict}

pub record ProviderSessionMetadata : Type 0 where
  pub upstream_provider : Option String
  pub provider_session_id : Option String
  pub tenant_id : Option String
  pub project_id : Option String
  pub workflow_id : Option String
  pub workload_class : Option String

abbrev pub ProviderSessionTags : Type 0
ProviderSessionTags = Dict String

abbrev pub HostLabels : Type 0
HostLabels = Dict String

pub data EventScalar : Type 0 where
  text : String → EventScalar
  number : ℕ → EventScalar
  flag : Bool → EventScalar
  null : EventScalar

abbrev pub ProviderEventData : Type 0
ProviderEventData = Dict EventScalar

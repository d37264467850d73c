-- ===== src/Allowlist.antt =====
-- src/api/provider-hosts.ts: the hosts that the provider has configured.
pub mod Laws
mod Tests
use base_layer.Base.{
  ℕ, Bool, true, false, ◌||◌, not, Option, none, some, List, [], ◌∷◌, String, Result, ok, err,
  message, if◌then◌else◌,
}
use base_layer.Base.Int.{ℤ}
use base_layer.Base.Dict.{Dict, lookup, insert, values}
use base_layer.Base.Sort.{sort}
use base_layer.Types.{HostRecord, ProviderHostConfigEntry}

pub record ProviderHostAllowlist : Type 0 where
  pub entries : Dict ProviderHostConfigEntry
  pub enforced : Bool

-- The loop of the constructor, which fills the map.
set_entries :
    List ProviderHostConfigEntry → Dict ProviderHostConfigEntry → Dict ProviderHostConfigEntry
set_entries [] map = map
set_entries (entry ∷ rest) map = set_entries rest (insert entry.host_id entry map)

abbrev non_empty {ℓ} : {A : Type ℓ} → List A → Bool
non_empty [] = false
non_empty (a ∷ rest) = true

unfoldable pub new : List ProviderHostConfigEntry → Bool → ProviderHostAllowlist
unfolding set_entries
new configured enforced =
    let map = set_entries configured [] in
    record { entries = map; enforced = enforced || non_empty map }

-- What `load` finds at the path: no file, a blank one, one that is not JSON (`JSON.parse` throws),
-- and a document, with the entries where the schema accepts it.
pub data ConfigFile (A : Type 0) : Type 0 where
  missing blank malformed : ConfigFile A
  document : Option (List A) → ConfigFile A

pub load : ConfigFile ProviderHostConfigEntry → Bool → Result ProviderHostAllowlist
load ConfigFile.missing enforced = ok (new [] enforced)
load ConfigFile.blank enforced = ok (new [] enforced)
load ConfigFile.malformed enforced = err (message "SyntaxError")
load (ConfigFile.document none) enforced = err (message "Invalid provider host config")
load (ConfigFile.document (some parsed)) enforced = ok (new parsed enforced)

unfoldable pub list : (String → String → ℤ) → ProviderHostAllowlist → List ProviderHostConfigEntry
list locale_compare allowlist =
    sort (λ left right. locale_compare left.host_id right.host_id) (values allowlist.entries)

unfoldable pub get : ProviderHostAllowlist → String → Option ProviderHostConfigEntry
get allowlist host_id = lookup host_id allowlist.entries

-- `Boolean(entry?.enabled)`
abbrev entry_enabled : Option ProviderHostConfigEntry → Bool
entry_enabled none = false
entry_enabled (some entry) = entry.enabled

unfoldable pub is_allowed : ProviderHostAllowlist → String → Bool
unfolding get
is_allowed allowlist host_id =
    if not allowlist.enforced then true else entry_enabled (get allowlist host_id)

-- `first ?? second`, for a value that is there
abbrev or_else {ℓ} : {A : Type ℓ} → Option A → A → A
or_else none b = b
or_else (some a) b = a

abbrev or_optional {ℓ} : {A : Type ℓ} → Option A → Option A → Option A
or_optional none b = b
or_optional (some a) b = some a

unfoldable pub enrich : Option ProviderHostConfigEntry → HostRecord → HostRecord
enrich none input = record input { allowlisted = false; enabled = true }
enrich (some entry) input = record input {
  api_url = or_else entry.api_url input.api_url;
  mode = or_else entry.mode input.mode;
  region = or_optional entry.region input.region;
  instance_type = or_optional entry.instance_type input.instance_type;
  labels = or_optional entry.labels input.labels;
  supported_runtime_profiles =
      or_optional entry.supported_runtime_profiles input.supported_runtime_profiles;
  allowlisted = true;
  enabled = entry.enabled;
}

unfoldable pub enrich_registered_host : ProviderHostAllowlist → HostRecord → HostRecord
unfolding enrich get
enrich_registered_host allowlist input = enrich (get allowlist input.host_id) input

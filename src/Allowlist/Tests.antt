-- ===== src/Allowlist/Tests.antt =====
-- The allowlist with one host on and one off.
use base_layer.Base.{
  ℕ, Bool, true, false, Option, none, some, List, [], ◌∷◌, String, ◌≡◌, ◌≢◌, ◌⊎◌, inl, inr, refl,
  Memᴰ, err, message,
}
use base_layer.Types.{ProviderHostConfigEntry}
use base_layer.Samples.{platform, eu}
use base_layer.Scheduler.{HostSelectionOptions}
use base_layer.Scheduler.Admission.{Admits}
use base_layer.Allowlist.{ConfigFile, new, load, list, get, is_allowed, enrich_registered_host}
use base_layer.Allowlist.Laws.{is_allowed-configured, enrich_registered_host-disabled}

abbrev entry_of : String → Bool → ProviderHostConfigEntry
entry_of id enabled = record {
  host_id = id;
  api_url = none;
  mode = none;
  region = none;
  instance_type = none;
  enabled = enabled;
  labels = none;
  supported_runtime_profiles = none;
}

abbrev configured : List ProviderHostConfigEntry
configured = entry_of "h1" false ∷ entry_of "h2" true ∷ []

allows : is_allowed (new configured false) "h2" ≡ true
unfolding is_allowed new base_layer.Base.Dict.insert base_layer.Base.Dict.lookup
allows = refl

refuses : is_allowed (new configured false) "h3" ≡ false
unfolding is_allowed new base_layer.Base.Dict.insert base_layer.Base.Dict.lookup
refuses = refl

allows_all : is_allowed (new [] false) "h3" ≡ true
unfolding is_allowed new
allows_all = refl

allows_enforced : is_allowed (new configured true) "h2" ≡ true
unfolding is_allowed new base_layer.Base.Dict.lookup base_layer.Base.Dict.insert
allows_enforced = refl

is_allowed-configured_case :
    (entry : ProviderHostConfigEntry) × Memᴰ entry configured
    × (entry.host_id ≡ "h2")
    × (entry.enabled ≡ true)
is_allowed-configured_case = is_allowed-configured configured true "h2" (inl refl) allows_enforced

abbrev anywhere : HostSelectionOptions
anywhere = record { preferred_region = none; runtime_profile = none }

entry_off : get (new configured false) "h1" ≡ some (entry_of "h1" false)
unfolding get new base_layer.Base.Dict.lookup base_layer.Base.Dict.insert
entry_off = refl

enrich_registered_host-disabled_case :
    ¬ Admits platform.percent anywhere (enrich_registered_host (new configured false) eu) 1
enrich_registered_host-disabled_case =
    enrich_registered_host-disabled (new configured false) eu (entry_of "h1" false) platform.percent
      anywhere 1 entry_off refl

lists : list platform.locale_compare (new configured false) ≡ configured
unfolding list new base_layer.Base.Sort.sort base_layer.Base.Dict.insert
lists = refl

rejects_shape : load (ConfigFile.document none) false ≡ err (message "Invalid provider host config")
unfolding load
rejects_shape = refl

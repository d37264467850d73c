-- ===== src/Server/Access/Tests.antt =====
-- Two keys and a session: one may see it, the other not.
use base_layer.Base.{ℕ, Bool, true, false, Option, none, some, List, [], ◌∷◌, String, ◌≡◌, refl, ok}
use base_layer.Samples.{platform, store, state, state-Valid, live}
use base_layer.Partner.{ProviderApiKeyConfigEntry, PartnerAuthContext}
use base_layer.Partner.Headers.{Headers, single}
use base_layer.Partner.Keys.{ProviderApiKeyStore, new, context_of}
use base_layer.Store.Settled.{stored-Settled}
use base_layer.Server.Handler.{send}
use base_layer.Server.Idempotency.{Hashes}
use base_layer.Server.Delete.{DeleteRun, delete_session_from_request}
use base_layer.Server.Access.{
  Answer, refused, logs, ReadRun, View, session_view, metrics_view, logs_view, serve_v1_session,
  read_v1_session, on_request, Hook, answers, proceeds,
}
use base_layer.Server.Access.Laws.{read_v1_session-hides, delete_session_from_request-discloses}

abbrev key_of : String → Option String → ProviderApiKeyConfigEntry
key_of api_key tenant = record {
  key_id = "k1";
  api_key = api_key;
  enabled = true;
  name = none;
  tenant_id = tenant;
  project_id = none;
  upstream_provider = none;
  allowed_regions = none;
  allowed_runtime_profiles = none;
}

abbrev configured : List ProviderApiKeyConfigEntry
configured = key_of "any" none ∷ key_of "globex" (some "globex") ∷ []

abbrev keys : ProviderApiKeyStore
keys = new configured false

abbrev with_key : String → Headers
with_key key = ("x-baselayer-api-key", single key) ∷ []

abbrev run : ReadRun
run = record { now = 50; remote_logs = λ host. none; others = λ s. s }

sees_no_more :
    serve_v1_session platform run false keys "/v1/sessions/s1"
      (with_key "globex")
      metrics_view
      "s1"
      store
    ≡ (ok (refused 404), store)
unfolding serve_v1_session base_layer.Server.Access.is_v1 base_layer.Partner.Keys.required new
    base_layer.Partner.Keys.authenticate base_layer.Partner.Headers.extract_api_key
    base_layer.Base.Dict.lookup base_layer.Store.Reads.get_session base_layer.Store.Monad.reading
    base_layer.Store.File.refresh_from_disk base_layer.Types.Schema.valid_session
    base_layer.Types.Schema.valid_metadata base_layer.Base.sized base_layer.Types.Schema.valid_host
    base_layer.Types.Schema.valid_capacity base_layer.Types.Schema.valid_metrics
    base_layer.Partner.can_partner_access_session
sees_no_more = refl

is_unknown :
    serve_v1_session platform run false keys "/v1/sessions/s1"
      (with_key "guess")
      logs_view
      "s1"
      store
    ≡ (ok (refused 401), store)
unfolding serve_v1_session base_layer.Server.Access.is_v1 base_layer.Partner.Keys.required new
    base_layer.Partner.Keys.authenticate base_layer.Partner.Headers.extract_api_key
    base_layer.Base.Dict.lookup
is_unknown = refl

not_v1 : on_request true keys "/sessions/s1" (with_key "any") ≡ answers 404
unfolding on_request base_layer.Server.Access.is_v1
not_v1 = refl

internal : on_request false keys "/sessions/s1" [] ≡ proceeds none
unfolding on_request base_layer.Server.Access.is_v1 base_layer.Partner.Keys.required new
internal = refl

read_v1_session-hides_example :
    (read_v1_session platform run
        (some (context_of (key_of "globex" (some "globex"))))
        session_view
        "s1"
        store
      ≡ (ok (refused 404), store))
    × (read_v1_session platform run
          (some (context_of (key_of "globex" (some "globex"))))
          logs_view
          "s9"
          store
        ≡ (ok (refused 404), store))
unfolding base_layer.Base.Dict.lookup base_layer.Partner.can_partner_access_session context_of
read_v1_session-hides_example =
    read_v1_session-hides platform run (some (context_of (key_of "globex" (some "globex"))))
      session_view logs_view "s1" "s9" live store
      (stored-Settled platform.formats state state-Valid) refl refl refl

abbrev delete_run : DeleteRun
delete_run = record {
  async_delete = false;
  now = 200;
  event_id = "e1";
  reservation_id = "d1";
  total_ms = 3;
  remote_delete_ms = 1;
  remote = ok tt;
  others = λ s. s;
  lock = ok tt;
  retention = 0;
}

abbrev hashes : Hashes
hashes = record { of_request = λ r. "hash-of-a-request"; of_target = λ id. id }

delete_session_from_request-discloses_example :
    (delete_session_from_request delete_run hashes platform "s1"
        (some (context_of (key_of "globex" (some "globex"))))
        []
        store
      ≡ (ok (send 404), store))
    × (delete_session_from_request delete_run hashes platform "s9"
          (some (context_of (key_of "globex" (some "globex"))))
          []
          store
        ≡ (ok (send 204), store))
unfolding base_layer.Base.Dict.lookup base_layer.Partner.can_partner_access_session context_of
delete_session_from_request-discloses_example =
    delete_session_from_request-discloses platform delete_run hashes
      (some (context_of (key_of "globex" (some "globex")))) [] "s1" "s9" live store
      (stored-Settled platform.formats state state-Valid) refl refl refl

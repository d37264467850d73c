-- ===== src/Server/Access/Laws.antt =====
-- Whose session a route under `/v1` shows, and what it does not tell.
use base_layer.Base.{true, false, Option, none, some, List, String, ◌≡◌, ◌≢◌, Memᴰ, ap, ◌∙◌, ok}
use base_layer.Base.Dict.{lookup}
use base_layer.Types.{SessionRecord}
use base_layer.Types.Platform.{Platform}
use base_layer.Partner.{PartnerAuthContext, ProviderApiKeyConfigEntry, can_partner_access_session}
use base_layer.Partner.Headers.{Headers, extract_api_key}
use base_layer.Partner.Keys.{context_of}
use base_layer.Store.File.{ControlPlaneStore}
use base_layer.Store.Reads.{get_session}
use base_layer.Store.Settled.{Settled, reading-Settled}
use base_layer.Server.Handler.{go_on, send}
use base_layer.Server.Idempotency.{Hashes}
use base_layer.Server.Delete.{DeleteRun, delete_session_from_request, delete_found}
use base_layer.Server.Access.{Answer, refused, View, ReadRun, view_of, shown_to, read_v1_session}

module _ (platform : Platform) (run : ReadRun) where
  open platform use {formats}

  -- The answer is what the route makes of a stored session within reach of the key's entry.
  pub record Granted (configured : List ProviderApiKeyConfigEntry) (headers : Headers) (view : View)
      (id : String) (store : ControlPlaneStore) (answer : Answer) (after : ControlPlaneStore)
      : Type 0 where
    pub entry : ProviderApiKeyConfigEntry
    pub is_configured : Memᴰ entry configured
    pub is_enabled : entry.enabled ≡ true
    pub carries_key : extract_api_key headers ≡ some entry.api_key
    pub has_key : entry.api_key ≢ ""
    pub session : SessionRecord
    pub fresh : ControlPlaneStore
    pub is_stored : get_session platform id store ≡ (ok (some session), fresh)
    pub in_scope : can_partner_access_session session (some (context_of entry)) ≡ true
    pub is_shown : view_of platform run view id session fresh ≡ (ok answer, after)

  -- A partner who asks for a session out of reach, by whatever route, gets the answer that it gets for
  -- one that does not exist.
  pub read_v1_session-hides :
      (auth : Option PartnerAuthContext) (view view' : View) (id missing : String)
      (session : SessionRecord) (store : ControlPlaneStore)
      → Settled formats store
      → lookup id store.state.sessions ≡ some session
      → can_partner_access_session session auth ≡ false
      → lookup missing store.state.sessions ≡ none
      → (read_v1_session platform run auth view id store ≡ (ok (refused 404), store))
        × (read_v1_session platform run auth view' missing store ≡ (ok (refused 404), store))
  unfolding read_v1_session get_session
  read_v1_session-hides auth view view' id missing session store settled there other none_there = (
    ap (λ z. go_on z (shown_to platform run auth view id))
          (reading-Settled formats (λ s. lookup id s.sessions) store settled)
        ∙ rw (there, other),
    ap (λ z. go_on z (shown_to platform run auth view' missing))
          (reading-Settled formats (λ s. lookup missing s.sessions) store settled)
        ∙ rw none_there,
  )

-- A deletion tells them apart: it answers 404 for a session out of reach and 204 for one that does
-- not exist, and changes nothing.
pub delete_session_from_request-discloses :
    (platform : Platform) (run : DeleteRun) (hashes : Hashes) (auth : Option PartnerAuthContext)
    (headers : Headers) (id missing : String) (session : SessionRecord) (store : ControlPlaneStore)
    → Settled platform.formats store
    → lookup id store.state.sessions ≡ some session
    → can_partner_access_session session auth ≡ false
    → lookup missing store.state.sessions ≡ none
    → (delete_session_from_request run hashes platform id auth headers store
        ≡ (ok (send 404), store))
      × (delete_session_from_request run hashes platform missing auth headers store
          ≡ (ok (send 204), store))
unfolding delete_session_from_request get_session
delete_session_from_request-discloses platform run hashes auth headers id missing session store
      settled there other none_there =
    (
      ap (λ z. go_on z (λ o. delete_found run hashes platform o id auth headers))
            (reading-Settled platform.formats (λ s. lookup id s.sessions) store settled)
          ∙ rw (there, other),
      ap (λ z. go_on z (λ o. delete_found run hashes platform o missing auth headers))
            (reading-Settled platform.formats (λ s. lookup missing s.sessions) store settled)
          ∙ rw none_there,
    )

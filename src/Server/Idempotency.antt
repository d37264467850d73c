-- ===== src/Server/Idempotency.antt =====
-- Idempotency keys: the key of a request, the key and the hash it is stored under, the replay.
use Prim.Native.String.{◌++◌ as ◌<>◌}
use base_layer.Base.{not, Option, none, some, String, ◌==◌, if◌then◌else◌, nat_eq}
use base_layer.Types.{SessionRecord, IdempotencyRecord, CreateSessionRequest, Method, post, delete}
use base_layer.Types.Platform.{Platform}
use base_layer.Partner.{PartnerAuthContext}
use base_layer.Partner.Headers.{Headers, read_header_value, trim}
use base_layer.Store.Reads.{get_session, get_idempotency_record}
use base_layer.Server.Handler.{Handler, ◌>>=◌, pure, Reply, send, send_replayed}

-- `hashIdempotencyPayload`, SHA-256 of the payload's JSON, for the payloads that it is called with.
pub record Hashes : Type 0 where
  pub of_request : CreateSessionRequest → String
  pub of_target : String → String

abbrev non_empty : Option String → Option String
non_empty none = none
non_empty (some raw) = if trim raw == "" then none else some (trim raw)

unfoldable pub extract_idempotency_key : Headers → Option String
extract_idempotency_key headers = non_empty (read_header_value headers "idempotency-key")

abbrev key_id_of : Option PartnerAuthContext → String
key_id_of none = "anonymous"
key_id_of (some auth) = auth.key_id

abbrev method_text : Method → String
method_text post = "POST"
method_text delete = "DELETE"

unfoldable pub build_idempotency_storage_key :
    Option PartnerAuthContext → Method → String → String → String
build_idempotency_storage_key auth method route key =
    key_id_of auth <> ":" <> method_text method <> ":" <> route <> ":" <> key

-- `auth ? extractIdempotencyKey(request) : undefined`
abbrev pub partner_key : Option PartnerAuthContext → Headers → Option String
partner_key none headers = none
partner_key (some auth) headers = extract_idempotency_key headers

module _ (platform : Platform) (hashes : Hashes) where
  abbrev pub session_of : Option String → Handler (Option SessionRecord)
  session_of none = pure none
  session_of (some id) = if id == "" then pure none else get_session platform id

  abbrev pub replayed_session : IdempotencyRecord → Option SessionRecord → Reply
  replayed_session existing none = send 409
  replayed_session existing (some session) =
      send_replayed (if nat_eq existing.response_status 201 then 200 else existing.response_status)
        (some session)

  abbrev pub replay_of : Option IdempotencyRecord → String → Handler (Option Reply)
  replay_of none request_hash = pure none
  replay_of (some existing) request_hash =
      if not (existing.request_hash == request_hash) then pure (some (send 409)) else do
        session ← session_of existing.session_id
        pure (some (replayed_session existing session))

  -- `replayCreateIdempotency`: the reply that it sends, if it sends one
  unfoldable pub replay_create_idempotency :
      Option PartnerAuthContext → CreateSessionRequest → Option String → Handler (Option Reply)
  unfolding build_idempotency_storage_key
  replay_create_idempotency auth request none = pure none
  replay_create_idempotency auth request (some key) = do
    existing ←
        get_idempotency_record platform (build_idempotency_storage_key auth post "/v1/sessions" key)
    replay_of existing (hashes.of_request request)

  abbrev pub replay_delete_of : Option IdempotencyRecord → String → Option Reply
  replay_delete_of none request_hash = none
  replay_delete_of (some existing) request_hash =
      some
        (if not (existing.request_hash == request_hash) then send 409 else send_replayed 204 none)

  -- The same of `deleteSessionFromRequest`
  unfoldable pub replay_delete_idempotency :
      Option PartnerAuthContext → String → Option String → Handler (Option Reply)
  unfolding build_idempotency_storage_key
  replay_delete_idempotency auth id none = pure none
  replay_delete_idempotency auth id (some key) = do
    existing ←
        get_idempotency_record platform
          (build_idempotency_storage_key auth delete ("/v1/sessions/" <> id) key)
    pure (replay_delete_of existing (hashes.of_target id))

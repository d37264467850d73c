-- ===== src/Server/Tests.antt =====
-- A creation and a deletion, and their repetitions.
use base_layer.Base.{
  inl, eq_iff, ℕ, Bool, true, false, Option, none, some, List, [], ◌∷◌, String, ◌≡◌, ◌⊎◌, refl, sym,
  ap, ◌∙◌, arith, Result, ok,
}
use base_layer.Base.Dict.{lookup}
use base_layer.Types.{SessionRecord, CreateSessionRequest}
use base_layer.Samples.{platform, store, live, create_request, launch}
use base_layer.Partner.{PartnerAuthContext}
use base_layer.Partner.Headers.{Headers, HeaderValue, single}
use base_layer.Partner.Scope.{apply_partner_scope_to_create_request}
use base_layer.Store.File.{ControlPlaneStore, StoreFile}
use base_layer.Store.Reads.{get_session}
use base_layer.Server.Handler.{Reply}
use base_layer.Server.Idempotency.{Hashes, extract_idempotency_key}
use base_layer.Server.Draft.{CreateRun}
use base_layer.Server.Create.{create_session_from_request}
use base_layer.Server.Delete.{DeleteRun, delete_session_from_request}
use base_layer.Server.Replay.{Replayed}
use base_layer.Server.Once.{create-once}
use base_layer.Server.Teardown.{delete-once}

abbrev hashes : Hashes
hashes = record { of_request = λ r. "hash-of-a-request"; of_target = λ id. id }

abbrev auth : PartnerAuthContext
auth = record {
  key_id = "k1";
  name = none;
  tenant_id = none;
  project_id = none;
  upstream_provider = none;
  allowed_regions = none;
  allowed_runtime_profiles = none;
}

abbrev headers : Headers
headers = ("idempotency-key", single " once ") ∷ []

abbrev create_run : CreateRun
create_run = record {
  session_id = "s9";
  event_id = "e9";
  now = 100;
  ttl_ms = 1000;
  early = [];
  last = record { others = λ s. s; lock = ok tt; reservation_id = "r9"; now = 100 };
  remote = λ host request. ok launch;
  others = λ s. s;
  release_lock = ok tt;
  first_lock = ok tt;
  second_lock = ok tt;
  request_validation_ms = 1;
  scheduler_ms = 1;
  node_agent_create_ms = 1;
  persist_ms = 1;
  response_build_ms = 1;
  total_ms = 5;
  retention = 0;
}

abbrev created : Reply × ControlPlaneStore
created =
    create_session_from_request create_run hashes platform (some create_request) (some auth) headers
      store

keyed : extract_idempotency_key headers ≡ some "once"
unfolding extract_idempotency_key base_layer.Partner.Headers.read_header_value lookup
    base_layer.Partner.Headers.trim
keyed = refl

scopes : apply_partner_scope_to_create_request create_request (some auth) ≡ ok create_request
unfolding apply_partner_scope_to_create_request
scopes = refl

answers_201 : created.0.status ≡ 201
unfolding create_session_from_request apply_partner_scope_to_create_request
    base_layer.Server.Idempotency.replay_create_idempotency
    base_layer.Server.Admission.reserve_host_for_create_with_backpressure
    base_layer.Server.Admission.attempt_reservation base_layer.Store.Writes.reserve_host_for_create
    base_layer.Scheduler.choose_host base_layer.Scheduler.matching_warm_ready_count
    base_layer.Base.Int.◌-ℤ◌ base_layer.Scheduler.score_host base_layer.Base.Int.◌+ℤ◌
    base_layer.Base.Int.◌*ℤ◌ base_layer.Store.Writes.new_reservation
    base_layer.Store.Writes.put_reservation base_layer.Types.Schema.parse_create_reservation
    base_layer.Server.Draft.create_mutation base_layer.Server.Draft.record_draft
    base_layer.Server.Draft.created_event base_layer.Server.Draft.final_record
    base_layer.Server.Create.create_error_status get_session base_layer.Store.Monad.reading
    base_layer.Store.File.refresh_from_disk lookup base_layer.Types.Schema.valid_session
    base_layer.Types.Schema.valid_metadata base_layer.Base.sized base_layer.Types.Schema.valid_host
    base_layer.Types.Schema.valid_capacity base_layer.Types.Schema.valid_metrics
    base_layer.Partner.can_partner_access_session
    base_layer.Server.Idempotency.replay_delete_idempotency extract_idempotency_key
    base_layer.Partner.Headers.read_header_value base_layer.Partner.Headers.trim
    base_layer.Store.Reads.get_idempotency_record base_layer.Store.Reads.get_host
    base_layer.Base.Dict.erase base_layer.Base.Dict.insert base_layer.Base.Dict.remove_if
    base_layer.Base.Sort.insert_sorted base_layer.Base.Sort.sort base_layer.Base.includes
    base_layer.Base.utf16_length base_layer.Partner.matches_scope
    base_layer.Partner.session_matches_partner_scope base_layer.Server.Delete.delete_event
    base_layer.Server.Delete.delete_mutation base_layer.Server.Delete.terminated_record
    base_layer.Server.Idempotency.build_idempotency_storage_key base_layer.Store.Commit.add_delete
    base_layer.Store.Commit.commit_session_mutation base_layer.Store.Commit.drop_sessions
    base_layer.Store.Commit.prune_terminated_sessions base_layer.Store.Commit.put_delete_reservation
    base_layer.Store.Commit.set_idempotency base_layer.Store.Commit.set_session
    base_layer.Store.Commit.terminated_sessions base_layer.Store.Effective.charge
    base_layer.Store.Effective.charge_all base_layer.Store.Effective.charge_cold
    base_layer.Store.Effective.charge_host base_layer.Store.Effective.charge_pools
    base_layer.Store.Effective.charge_session
    base_layer.Store.Effective.cleanup_expired_reservations
    base_layer.Store.Effective.effective_hosts base_layer.Store.Effective.live_reservations
    base_layer.Store.Effective.take_warm base_layer.Store.File.empty_state
    base_layer.Store.File.load base_layer.Store.File.persist base_layer.Store.File.refresh_file
    base_layer.Store.File.valid_state base_layer.Store.Monad.finish
    base_layer.Store.Monad.with_write_lock base_layer.Store.Reads.events_of
    base_layer.Store.Writes.add_event base_layer.Store.Writes.append_event
    base_layer.Store.Writes.drop_reservation base_layer.Store.Writes.drop_session
    base_layer.Store.Writes.put_event base_layer.Store.Writes.put_idempotency
    base_layer.Store.Writes.put_session base_layer.Types.Schema.parse_delete_reservation
    base_layer.Types.Schema.parse_event base_layer.Types.Schema.parse_idempotency
    base_layer.Types.Schema.parse_session base_layer.Types.Schema.valid_create_reservation
    base_layer.Types.Schema.valid_delete_reservation base_layer.Types.Schema.valid_event
    base_layer.Types.Schema.valid_event_data base_layer.Types.Schema.valid_idempotency
    base_layer.Types.Schema.valid_labels base_layer.Types.Schema.valid_logs
    base_layer.Types.Schema.valid_scalar base_layer.Types.Schema.valid_session_metrics
    base_layer.Types.Schema.valid_tags base_layer.Types.Schema.valid_weight
answers_201 = refl

create-once_example :
    (q : Reply) × (create_session_from_request create_run hashes platform
        (some create_request)
        (some auth)
        headers
        created.1
      ≡ (q, created.1))
    × Replayed platform hashes auth "once" create_request "s9" created.1.state q
create-once_example =
    create-once platform hashes create_run create_run auth "once" create_request create_request
      headers store created.1 created.1 created.0 keyed scopes refl answers_201
      (λ e. ground (arith, (eq_iff "s9" "").1 e)) (inl refl)

abbrev delete_run : Bool → DeleteRun
delete_run async_delete = record {
  async_delete = async_delete;
  now = 200;
  event_id = "e1";
  reservation_id = "d1";
  total_ms = 3;
  remote_delete_ms = 1;
  remote = ok tt;
  others = λ s. s;
  lock = ok tt;
  retention = 0;
}

abbrev deleted : Result Reply × ControlPlaneStore
deleted =
    delete_session_from_request (delete_run true) hashes platform "s1" (some auth) headers store

abbrev deleted_reply : Reply
deleted_reply = record { status = 204; session = none; replayed = false; remote_delete = true }

deletes : deleted ≡ (ok deleted_reply, deleted.1)
unfolding delete_session_from_request get_session base_layer.Store.Monad.reading
    base_layer.Store.File.refresh_from_disk lookup base_layer.Types.Schema.valid_session
    base_layer.Types.Schema.valid_metadata base_layer.Base.sized base_layer.Types.Schema.valid_host
    base_layer.Types.Schema.valid_capacity base_layer.Types.Schema.valid_metrics
    base_layer.Partner.can_partner_access_session
    base_layer.Server.Idempotency.replay_delete_idempotency extract_idempotency_key
    base_layer.Partner.Headers.read_header_value base_layer.Partner.Headers.trim
    base_layer.Store.Reads.get_idempotency_record base_layer.Store.Reads.get_host
    base_layer.Base.Dict.erase base_layer.Base.Dict.insert base_layer.Base.Dict.remove_if
    base_layer.Base.Sort.insert_sorted base_layer.Base.Sort.sort base_layer.Base.includes
    base_layer.Base.utf16_length base_layer.Partner.matches_scope
    base_layer.Partner.session_matches_partner_scope base_layer.Server.Delete.delete_event
    base_layer.Server.Delete.delete_mutation base_layer.Server.Delete.terminated_record
    base_layer.Server.Idempotency.build_idempotency_storage_key base_layer.Store.Commit.add_delete
    base_layer.Store.Commit.commit_session_mutation base_layer.Store.Commit.drop_sessions
    base_layer.Store.Commit.prune_terminated_sessions base_layer.Store.Commit.put_delete_reservation
    base_layer.Store.Commit.set_idempotency base_layer.Store.Commit.set_session
    base_layer.Store.Commit.terminated_sessions base_layer.Store.Effective.charge
    base_layer.Store.Effective.charge_all base_layer.Store.Effective.charge_cold
    base_layer.Store.Effective.charge_host base_layer.Store.Effective.charge_pools
    base_layer.Store.Effective.charge_session
    base_layer.Store.Effective.cleanup_expired_reservations
    base_layer.Store.Effective.effective_hosts base_layer.Store.Effective.live_reservations
    base_layer.Store.Effective.take_warm base_layer.Store.File.empty_state
    base_layer.Store.File.load base_layer.Store.File.persist base_layer.Store.File.refresh_file
    base_layer.Store.File.valid_state base_layer.Store.Monad.finish
    base_layer.Store.Monad.with_write_lock base_layer.Store.Reads.events_of
    base_layer.Store.Writes.add_event base_layer.Store.Writes.append_event
    base_layer.Store.Writes.drop_reservation base_layer.Store.Writes.drop_session
    base_layer.Store.Writes.put_event base_layer.Store.Writes.put_idempotency
    base_layer.Store.Writes.put_session base_layer.Types.Schema.parse_delete_reservation
    base_layer.Types.Schema.parse_event base_layer.Types.Schema.parse_idempotency
    base_layer.Types.Schema.parse_session base_layer.Types.Schema.valid_create_reservation
    base_layer.Types.Schema.valid_delete_reservation base_layer.Types.Schema.valid_event
    base_layer.Types.Schema.valid_event_data base_layer.Types.Schema.valid_idempotency
    base_layer.Types.Schema.valid_labels base_layer.Types.Schema.valid_logs
    base_layer.Types.Schema.valid_scalar base_layer.Types.Schema.valid_session_metrics
    base_layer.Types.Schema.valid_tags base_layer.Types.Schema.valid_weight
deletes = refl

reads : get_session platform "s1" store ≡ (ok (some live), store)
unfolding get_session base_layer.Store.Monad.reading base_layer.Store.File.refresh_from_disk lookup
    base_layer.Types.Schema.valid_session base_layer.Types.Schema.valid_metadata
    base_layer.Base.sized base_layer.Types.Schema.valid_host base_layer.Types.Schema.valid_capacity
    base_layer.Types.Schema.valid_metrics base_layer.Partner.can_partner_access_session
    base_layer.Server.Idempotency.replay_delete_idempotency extract_idempotency_key
    base_layer.Partner.Headers.read_header_value base_layer.Partner.Headers.trim
    base_layer.Store.Reads.get_idempotency_record base_layer.Store.Reads.get_host
    base_layer.Base.Dict.erase base_layer.Base.Dict.insert base_layer.Base.Dict.remove_if
    base_layer.Base.Sort.insert_sorted base_layer.Base.Sort.sort base_layer.Base.includes
    base_layer.Base.utf16_length base_layer.Partner.matches_scope
    base_layer.Partner.session_matches_partner_scope base_layer.Server.Delete.delete_event
    base_layer.Server.Delete.delete_mutation base_layer.Server.Delete.terminated_record
    base_layer.Server.Idempotency.build_idempotency_storage_key base_layer.Store.Commit.add_delete
    base_layer.Store.Commit.commit_session_mutation base_layer.Store.Commit.drop_sessions
    base_layer.Store.Commit.prune_terminated_sessions base_layer.Store.Commit.put_delete_reservation
    base_layer.Store.Commit.set_idempotency base_layer.Store.Commit.set_session
    base_layer.Store.Commit.terminated_sessions base_layer.Store.Effective.charge
    base_layer.Store.Effective.charge_all base_layer.Store.Effective.charge_cold
    base_layer.Store.Effective.charge_host base_layer.Store.Effective.charge_pools
    base_layer.Store.Effective.charge_session
    base_layer.Store.Effective.cleanup_expired_reservations
    base_layer.Store.Effective.effective_hosts base_layer.Store.Effective.live_reservations
    base_layer.Store.Effective.take_warm base_layer.Store.File.empty_state
    base_layer.Store.File.load base_layer.Store.File.persist base_layer.Store.File.refresh_file
    base_layer.Store.File.valid_state base_layer.Store.Monad.finish
    base_layer.Store.Monad.with_write_lock base_layer.Store.Reads.events_of
    base_layer.Store.Writes.add_event base_layer.Store.Writes.append_event
    base_layer.Store.Writes.drop_reservation base_layer.Store.Writes.drop_session
    base_layer.Store.Writes.put_event base_layer.Store.Writes.put_idempotency
    base_layer.Store.Writes.put_session base_layer.Types.Schema.parse_delete_reservation
    base_layer.Types.Schema.parse_event base_layer.Types.Schema.parse_idempotency
    base_layer.Types.Schema.parse_session base_layer.Types.Schema.valid_create_reservation
    base_layer.Types.Schema.valid_delete_reservation base_layer.Types.Schema.valid_event
    base_layer.Types.Schema.valid_event_data base_layer.Types.Schema.valid_idempotency
    base_layer.Types.Schema.valid_labels base_layer.Types.Schema.valid_logs
    base_layer.Types.Schema.valid_scalar base_layer.Types.Schema.valid_session_metrics
    base_layer.Types.Schema.valid_tags base_layer.Types.Schema.valid_weight
reads = refl

named :
    (v : SessionRecord) (u : ControlPlaneStore)
    → get_session platform "s1" store ≡ (ok (some v), u)
    → v.session_id ≡ "s1"
named v u h = sym (ap (λ x. SessionRecord.session_id x) (one (sym reads ∙ h)))
  where
    one :
        {a b : SessionRecord} {s t : ControlPlaneStore}
        → ◌≡◌ {A = Result (Option SessionRecord) × ControlPlaneStore}
            (ok (some a), s)
            (ok (some b), t)
        → a ≡ b
    one q = ground arith

delete-once_example :
    (q : Reply) × (delete_session_from_request
        (delete_run false)
        hashes
        platform
        "s1"
        none
        []
        deleted.1
      ≡ (ok q, deleted.1))
    × (q.remote_delete ≡ false)
delete-once_example =
    delete-once platform hashes "s1" (delete_run true) (delete_run false) (some auth) none headers
      [] store deleted.1 deleted.1 deleted_reply named deletes refl refl (inl refl)

-- ===== src/Types/State.antt =====
-- What the control plane's state file holds.
use base_layer.Base.{ℕ, Bool, Option, String, List}
use base_layer.Base.Dict.{Dict}
use base_layer.Types.Enums.{RuntimeKind, Method}
use base_layer.Types.Host.{HostRecord}
use base_layer.Types.Session.{SessionRecord, SessionEventRecord}

pub record IdempotencyRecord : Type 0 where
  pub scope_key : String
  pub idempotency_key : String
  pub method : Method
  pub route : String
  pub request_hash : String
  pub session_id : Option String
  pub response_status : ℕ
  pub created_at : ℕ

pub record HostCreateReservation : Type 0 where
  pub reservation_id : String
  pub session_id : String
  pub host_id : String
  pub runtime_profile : Option String
  pub preferred_region : Option String
  pub warm_expected : Bool
  pub created_at : ℕ
  pub expires_at : ℕ

pub record HostDeleteReservation : Type 0 where
  pub reservation_id : String
  pub session_id : String
  pub host_id : String
  pub runtime_kind : RuntimeKind
  pub renderer_count : ℕ
  pub created_at : ℕ
  pub expires_at : ℕ

pub record StateFile : Type 0 where
  pub sessions : Dict SessionRecord
  pub hosts : Dict HostRecord
  pub session_events : Dict (List SessionEventRecord)
  pub idempotency_records : Dict IdempotencyRecord
  pub host_create_reservations : Dict HostCreateReservation
  pub host_delete_reservations : Dict HostDeleteReservation

-- ===== src/Store/File.antt =====
-- The file and the copy of it in memory: `#load`, `#refreshFromDisk` and `#persist`.
use base_layer.Base.{
  Bool, true, false, ◌&&◌, ◌||◌, [], all, Result, ok, err, syntax_error, if◌then◌else◌,
}
use base_layer.Base.Dict.{values}
use base_layer.Types.{StateFile}
use base_layer.Types.Schema.{
  Formats, valid_host, valid_session, valid_event, valid_idempotency, valid_create_reservation,
  valid_delete_reservation,
}

unfoldable pub empty_state : StateFile
empty_state = record {
  sessions = [];
  hosts = [];
  session_events = [];
  idempotency_records = [];
  host_create_reservations = [];
  host_delete_reservations = [];
}

-- The file: none, one that is no JSON, JSON of another shape, and a state. The numbers of a state are
-- finite, so `JSON.parse` reads what `JSON.stringify` writes; an infinite one, which the schema accepts,
-- would be written as null and the file refused by the next process that reads it.
pub data StoreFile : Type 0 where
  absent malformed misshapen : StoreFile
  content : StateFile → StoreFile

-- `loaded` is false where `#lastLoadedMtimeMs` is -1.
pub record ControlPlaneStore : Type 0 where
  pub file : StoreFile
  pub state : StateFile
  pub loaded : Bool

module _ (formats : Formats) where
  -- `stateFileSchema.safeParse(…).success`
  unfoldable pub valid_state : StateFile → Bool
  valid_state s =
      all (valid_session formats) (values s.sessions)
      && all (valid_host formats) (values s.hosts)
      && all (all valid_event) (values s.session_events)
      && all valid_idempotency (values s.idempotency_records)
      && all (valid_create_reservation formats) (values s.host_create_reservations)
      && all (valid_delete_reservation formats) (values s.host_delete_reservations)

  -- `#load`, with the file read: a state that the schema refuses counts as an empty one.
  unfoldable pub load : StoreFile → Result StateFile
  unfolding valid_state empty_state
  load StoreFile.absent = ok empty_state
  load StoreFile.malformed = err syntax_error
  load StoreFile.misshapen = ok empty_state
  load (StoreFile.content s) = ok (if valid_state s then s else empty_state)

  abbrev pub loaded_with : ControlPlaneStore → Result StateFile → Result ControlPlaneStore
  loaded_with store (ok s) = ok (record store { state = s; loaded = true })
  loaded_with store (err e) = err e

  unfoldable pub refresh_file : Bool → ControlPlaneStore → StoreFile → Result ControlPlaneStore
  unfolding load
  refresh_file force store StoreFile.absent =
      if force || store.loaded
      then ok (record store { state = empty_state; loaded = false })
      else ok store
  refresh_file force store file = loaded_with store (load file)

  unfoldable pub refresh_from_disk : Bool → ControlPlaneStore → Result ControlPlaneStore
  unfolding refresh_file
  refresh_from_disk force store = refresh_file force store store.file

  -- The constructor.
  unfoldable pub open_store : StoreFile → Result ControlPlaneStore
  unfolding refresh_from_disk
  open_store file =
      refresh_from_disk true (record { file = file; state = empty_state; loaded = false })

-- `#persist`, where the calls of the file system return.
unfoldable pub persist : ControlPlaneStore → ControlPlaneStore
persist store = record store { file = StoreFile.content store.state; loaded = true }

-- ===== src/DataTransfer/Storage.antt =====
-- The remote storage of the data transfer: `Sync` of internal/datatransfer/s3/sync.go, and how the
-- monitor (internal/datatransfer/monitor.go) makes one from a configuration. base64 and the client
-- of S3 are parameters; a port is given as text, as the address has it.
pub mod Kept
use k4e_device_worker.Prelude.{
  Bool, true, false, Option, none, some, List, [], ◌∷◌, String, Result, ok, err, Err, ◌⧺◌, error_of,
}

-- models.S3StorageConfiguration
pub record S3StorageConfiguration : Type 0 where
  pub aws_access_key_id : String
  pub aws_secret_access_key : String
  pub aws_ca_bundle : String
  pub bucket_host : String
  pub bucket_port : String
  pub bucket_name : String
  pub bucket_region : String

-- `Sync`, with whether it has an `s3SyncManager`
pub record Sync (B : Type 0) : Type 0 where
  pub is_connected : Bool
  pub bucket_name : String
  pub bucket_region : String
  pub endpoint : String
  pub access_key_bytes : B
  pub secret_key_bytes : B
  pub ca_bundle : B

-- The session of S3 and the copying of a path by its manager
pub record Env (W B : Type 0) : Type 0 where
  pub decode_base64 : String → Result B
  pub new_session : Sync B → W → Option Err × W
  pub sync : String → String → W → Option Err × W

module _ {W B : Type 0} (env : Env W B) where
  bundle_decoded : S3StorageConfiguration → B → B → Result B → Result (Sync B)
  bundle_decoded c access secret (err e) = err e
  bundle_decoded c access secret (ok bundle) = ok (record {
    is_connected = false;
    bucket_name = c.bucket_name;
    bucket_region = c.bucket_region;
    endpoint = "https://" ⧺ (c.bucket_host ⧺ (":" ⧺ c.bucket_port));
    access_key_bytes = access;
    secret_key_bytes = secret;
    ca_bundle = bundle;
  })

  secret_decoded : S3StorageConfiguration → B → Result B → Result (Sync B)
  unfolding bundle_decoded
  secret_decoded c access (err e) = err e
  secret_decoded c access (ok secret) =
      bundle_decoded c access secret (env.decode_base64 c.aws_ca_bundle)

  access_decoded : S3StorageConfiguration → Result B → Result (Sync B)
  unfolding secret_decoded
  access_decoded c (err e) = err e
  access_decoded c (ok access) = secret_decoded c access (env.decode_base64 c.aws_secret_access_key)

  unfoldable pub new_sync : S3StorageConfiguration → Result (Sync B)
  unfolding access_decoded
  new_sync c = access_decoded c (env.decode_base64 c.aws_access_key_id)

  session_made : Sync B → Option Err × W → Option Err × Sync B × W
  session_made s (some e, w) = (some e, s, w)
  session_made s (none, w) = (none, record s { is_connected = true }, w)

  connect_once : Sync B → W → Bool → Option Err × Sync B × W
  unfolding session_made
  connect_once s w true = (none, s, w)
  connect_once s w false = session_made s (env.new_session s w)

  -- `Connect`: a session is made once.
  unfoldable pub connect_sync : Sync B → W → Option Err × Sync B × W
  unfolding connect_once
  connect_sync s w = connect_once s w s.is_connected

  -- `SyncPath`; `none` is the call of a method of a nil manager.
  unfoldable pub sync_path : Sync B → String → String → W → Option (Option Err × W)
  sync_path s source target w = elim s.is_connected [
    | true ↦ some (env.sync source ("s3://" ⧺ (s.bucket_name ⧺ ("/" ⧺ target))) w)
    | false ↦ none
  ]

  -- `Update` and `Init` of the monitor: the storage that it has, if any, and the one of a message;
  -- `none` is a message without S3.
  storage_made : Option (Sync B) → Result (Sync B) → Option Err × Option (Sync B)
  storage_made now (err e) = (some ("observer update failed. err: " ⧺ e), now)
  storage_made now (ok s) = (none, some s)

  unfoldable pub update_storage :
      Option S3StorageConfiguration → Option (Sync B) → Option Err × Option (Sync B)
  unfolding storage_made
  update_storage none now = (none, now)
  update_storage (some c) now = storage_made now (new_sync c)

  -- `getFsSync`
  unfoldable pub get_fs_sync : Option (Sync B) → Result (Sync B)
  get_fs_sync none = err "cannot get filesync"
  get_fs_sync (some s) = ok s

  -- `HasStorageDefined`, by the configuration of the device
  unfoldable pub has_storage_defined : Option S3StorageConfiguration → Bool
  has_storage_defined none = false
  has_storage_defined (some c) = true

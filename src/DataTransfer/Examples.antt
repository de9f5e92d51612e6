-- ===== src/DataTransfer/Examples.antt =====
-- Tests of the data transfer (internal/datatransfer), and its theorems at inputs.
use k4e_device_worker.Prelude.{
  ◌≡◌, refl, true, false, none, some, List, [], ◌∷◌, String, put, remove, text_key, Result, ok, err,
  if◌then◌else◌, ◌==◌, ◌⧺◌,
}
use k4e_device_worker.DataTransfer.{
  Env, DataPath, Configured, sync_workloads, sync_workload, sync_data_paths, last_paths,
  store_last_update_time,
}
use k4e_device_worker.DataTransfer.Storage
use k4e_device_worker.DataTransfer.Storage.{
  S3StorageConfiguration, new_sync, connect_sync, sync_path, get_fs_sync,
}
use k4e_device_worker.DataTransfer.Storage.Kept.{update_all, update_all-sync_path}

abbrev logs_path : DataPath
logs_path = record { source = "logs"; target = "remote/logs" }

-- A storage that keeps what was copied to it.
abbrev storage : Env (List (String × String))
storage = record {
  list_workloads = λ w. (ok ("web" ∷ "db" ∷ []), w);
  has_storage = λ w. true;
  get_workloads = λ w. ("web", logs_path ∷ []) ∷ ("db", []) ∷ [];
  file_sync = λ w. true;
  connect = λ w. (none, w);
  sync_path = λ source target w. (none, (source, target) ∷ w);
  exported_host_path = λ name. name;
  now = λ w. 7;
}

abbrev configured : Configured
configured = ("web", logs_path ∷ []) ∷ ("db", []) ∷ []

sync_both :
    sync_workloads storage configured ("web" ∷ "db" ∷ []) [] []
    ≡ ([], ("web", 7) ∷ [], ("web/logs", "remote/logs") ∷ [])
unfolding sync_workloads sync_workload sync_data_paths store_last_update_time last_paths put remove
sync_both = refl

-- Keys that are encoded are put in place as they are, and "!" cannot be decoded.
abbrev decode_text : String → Result String
decode_text t = if t == "!" then err "illegal base64 data" else ok t

abbrev remote : Storage.Env (List String) String
remote = record {
  decode_base64 = decode_text;
  new_session = λ s w. (none, s.endpoint ∷ w);
  sync = λ source target w. (none, target ∷ w);
}

abbrev with_key : String → String → S3StorageConfiguration
with_key key name = record {
  aws_access_key_id = key;
  aws_secret_access_key = "s";
  aws_ca_bundle = "";
  bucket_host = "host";
  bucket_port = "443";
  bucket_name = name;
  bucket_region = "eu";
}

abbrev first_storage : Storage.Sync String
first_storage = record {
  is_connected = false;
  bucket_name = "b1";
  bucket_region = "eu";
  endpoint = "https://host:443";
  access_key_bytes = "k";
  secret_key_bytes = "s";
  ca_bundle = "";
}

update_all-sync_path_example :
    (get_fs_sync remote
        (update_all remote (some (with_key "k" "b1") ∷ some (with_key "!" "b2") ∷ []) none)
      ≡ ok first_storage)
    × (connect_sync remote first_storage []
        ≡ (none, record first_storage { is_connected = true }, "https://host:443" ∷ []))
    × ((v : List String)
        → connect_sync remote (record first_storage { is_connected = true }) v
          ≡ (none, record first_storage { is_connected = true }, v))
    × ((source target : String) (v : List String)
        → sync_path remote (record first_storage { is_connected = true }) source target v
          ≡ some (none, ("s3://" ⧺ ("b1" ⧺ ("/" ⧺ target))) ∷ v))
update_all-sync_path_example =
    update_all-sync_path remote (with_key "k" "b1") first_storage (some (with_key "!" "b2") ∷ [])
      none [] (unfold new_sync in refl) (("illegal base64 data", unfold new_sync in refl), tt) refl

-- ===== src/Metrics/RemoteWrite/Settings.antt =====
-- `Update`, `Init`, `applyConfig` and `getConfig` of internal/metrics/remote_write.go: which
-- client is in use, and the routine that writes with it. Both run under the lock, so each is one
-- step. Files, URLs and the client's constructor are parameters.
pub mod Made
pub mod Routine
use k4e_device_worker.Prelude.{
  ℕ, ◌+◌, ◌-◌, Bool, true, false, not, ◌&&◌, Option, none, some, List, [], ◌∷◌, String,
  if◌then◌else◌, ◌==◌, text_key, ℤ, pos, integer_key, Result, ok, err, Err, Exec, pure, raise, lift,
  guard, ignore, ◌>>=◌, ◌>>◌,
}

-- models.MetricsReceiverConfiguration
pub record Receiver : Type 0 where
  pub ca_cert : String
  pub request_num_samples : ℤ
  pub timeout_seconds : ℤ
  pub url : String

-- The fields that `Update` and the routine read and write. `routines` counts the goroutines that
-- run `writeRoutine`; the code has no such counter.
pub record RemoteWrite (C : Type 0) : Type 0 where
  pub config : Option Receiver
  pub client : Option C
  pub is_running : Bool
  pub current_server_ca_file : String
  pub routines : ℕ

pub record Env (W U C : Type 0) : Type 0 where
  pub parse_url : String → Result U
  pub temp_file : Exec W String
  pub write_ca : String → String → Exec W (Unit {0})
  pub new_write_client : U → ℤ → String → Exec W C
  pub remove_file : String → Exec W (Unit {0})
  pub read_dir : Exec W (List String)
  pub is_ca_file : String → Bool  -- path.Match with `remote-write-ca-*.pem`

unfoldable pub receiver_beq : Receiver → Receiver → Bool
receiver_beq a b =
    a.ca_cert == b.ca_cert
    && a.request_num_samples == b.request_num_samples
    && a.timeout_seconds == b.timeout_seconds
    && a.url == b.url

-- `r.Config == newConfig || (both are set && reflect.DeepEqual(...))`
unfoldable pub same_config : Option Receiver → Option Receiver → Bool
unfolding receiver_beq
same_config none none = true
same_config none (some b) = false
same_config (some a) none = false
same_config (some a) (some b) = receiver_beq a b

-- `newConfig == nil || newConfig.URL == ""`
unfoldable pub feature_disabled : Option Receiver → Bool
feature_disabled none = true
feature_disabled (some cfg) = cfg.url == ""

abbrev pub is_enabled {ℓ} : {C : Type ℓ} → Option C → Bool
is_enabled none = false
is_enabled (some c) = true

module _ {W U C : Type 0} (env : Env W U C) where
  remove_matching : List String → W → W
  remove_matching [] w = w
  remove_matching (name ∷ rest) w =
      remove_matching rest (if env.is_ca_file name then (env.remove_file name w).1 else w)

  unfoldable pub remove_server_ca_files : W → W
  unfolding remove_matching
  remove_server_ca_files w =
      let (listed, w') = env.read_dir w in
      elim listed [ ok names ↦ remove_matching names w' | err c ↦ w' ]

  make_ca_file : String → Exec W String
  make_ca_file cert =
      if cert == "" then pure "" else do path ← env.temp_file; env.write_ca path cert; pure path

  create_client : U → ℤ → String → Exec W C
  create_client url timeout ca w =
      let (made, w') = env.new_write_client url timeout ca w in
      elim made [ ok c ↦ (ok c, w') | err e ↦ (err e, (env.remove_file ca w').1) ]

  unfoldable pub apply_config : Receiver → RemoteWrite C → Exec W (RemoteWrite C)
  unfolding make_ca_file create_client
  apply_config cfg r = do
    url ← lift (env.parse_url cfg.url)
    guard (not (cfg.timeout_seconds == pos 0)) "TimeoutSeconds has to greater than 0"
    guard (not (cfg.request_num_samples == pos 0)) "RequestNumSamples has to greater than 0"
    ca ← make_ca_file cfg.ca_cert
    client ← create_client url cfg.timeout_seconds ca
    ignore (env.remove_file r.current_server_ca_file)
    pure (record r { client = some client; current_server_ca_file = ca })

  -- "start goroutine if needed"
  start_routine : RemoteWrite C → RemoteWrite C
  start_routine r =
      if r.is_running then r else record r { is_running = true; routines = r.routines + 1 }

  enable :
      Option Receiver → RemoteWrite C → Result (RemoteWrite C) × W → Option Err × RemoteWrite C × W
  unfolding start_routine
  enable config r (err e, w) = (some e, r, w)
  enable config r (ok r', w) = (none, record (start_routine r') { config = config }, w)

  disable : Option Receiver → RemoteWrite C → RemoteWrite C
  disable config r = record r { client = none; current_server_ca_file = ""; config = config }

  -- The part of `Update` after the comparison with the old configuration.
  use_config : Option Receiver → RemoteWrite C → W → Option Err × RemoteWrite C × W
  unfolding enable disable apply_config
  use_config none r w = (none, disable none r, remove_server_ca_files w)
  use_config (some cfg) r w =
      if cfg.url == ""
      then (none, disable (some cfg) r, remove_server_ca_files w)
      else enable (some cfg) r (apply_config cfg r w)

  -- `Update`, from the receiver configuration that the message holds, if it holds any
  unfoldable pub update : Option Receiver → RemoteWrite C → W → Option Err × RemoteWrite C × W
  unfolding use_config same_config
  update config r w = if same_config r.config config then (none, r, w) else use_config config r w

  unfoldable pub init : Option Receiver → RemoteWrite C → W → Option Err × RemoteWrite C × W
  unfolding update
  init config r w = update config r (remove_server_ca_files w)

-- One round of the routine: `getConfig` either goes on with the client in use or ends the routine.
unfoldable pub get_config : {C : Type 0} → RemoteWrite C → RemoteWrite C × Bool
get_config r =
    if is_enabled r.client
    then (r, true)
    else (record r { is_running = false; routines = r.routines - 1 }, false)

-- the part of `NewRemoteWrite` that concerns these fields
unfoldable pub new_remote_write : {C : Type 0} → RemoteWrite C
new_remote_write = record {
  config = none;
  client = none;
  is_running = false;
  current_server_ca_file = "";
  routines = 0;
}

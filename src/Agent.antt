-- ===== src/Agent.antt =====
-- The agent as cmd/device-worker/main.go puts it together: the parts that are told of a new
-- configuration, in the order in which they are registered. A part that dereferences a nil
-- configuration panics, which ends the process.
pub mod Told
pub mod Ended
pub mod Clean
pub mod Kept
pub mod Applied
pub mod Updated
mod Examples
use k4e_device_worker.Prelude.{
  Bool, true, false, Option, none, some, List, [], ◌∷◌, String, Map, ℤ, Err, Result, ok, err, Key,
}
use k4e_device_worker.Configuration
use k4e_device_worker.Configuration.{Message, Observer}
use k4e_device_worker.Server
use k4e_device_worker.Workload.Secrets.{Secret}
use k4e_device_worker.Workload.Pods
use k4e_device_worker.Workload.Manager
use k4e_device_worker.Workload.Reconcile
use k4e_device_worker.Metrics.Database
use k4e_device_worker.Metrics.Workloads
use k4e_device_worker.Metrics.System
use k4e_device_worker.Metrics.RemoteWrite.Settings
use k4e_device_worker.Logs.Targets
use k4e_device_worker.Os
use k4e_device_worker.DataTransfer.Storage
use k4e_device_worker.Heartbeat.Ticker

-- models.DeviceConfiguration, less the hardware profile; `retention`, `receiver` and `system` are
-- those of its Metrics.
pub record DeviceConfiguration : Type 0 where
  pub retention : Option Database.MetricsRetention
  pub receiver : Option Settings.Receiver
  pub system : Option System.SystemConfig
  pub log_collection : Map String Targets.LogCollection
  pub os : Option Os.OsInformation
  pub s3 : Option Storage.S3StorageConfiguration
  pub heartbeat_period : Option ℤ

-- models.Workload
pub record Configured : Type 0 where
  pub workload : Pods.Workload
  pub metrics : Option Workloads.Metrics
  pub log_collection : String

-- models.DeviceConfigurationMessage; its Configuration may be nil.
abbrev pub AgentMessage : Type 0
AgentMessage = Message (Option DeviceConfiguration) (List Configured)

-- The state of the parts. `pods` is what the workload manager acts on, `rest` all else outside.
pub record State (P W T C R B : Type 0) : Type 0 where
  pub store : Database.Tsdb
  pub workload_metrics : Workloads.WorkloadMetrics
  pub system : System.SystemMetrics
  pub logs : Targets.Targets T C
  pub manager : Manager.Manager
  pub remote_write : Settings.RemoteWrite R
  pub os : Os.Os
  pub storage : Option (Storage.Sync B)
  pub heartbeat : Ticker.Ticking
  pub pods : P
  pub rest : W

-- The observers of the configuration
pub data Part : Type 0 where
  metrics_store : Part
  workload_metrics : Part
  system_metrics : Part
  logs_target : Part
  workload_manager : Part
  remote_write : Part
  device_os : Part
  data_monitor : Part
  heartbeat_service : Part

-- The order of the calls of `RegisterObserver`
abbrev pub registered : List Part
registered =
    metrics_store ∷ workload_metrics ∷ system_metrics ∷ logs_target ∷ workload_manager
    ∷ remote_write ∷ device_os ∷ data_monitor ∷ heartbeat_service ∷ []

-- The parts of a list of workloads that the observers read
unfoldable pub pods_of : List Configured → List Pods.Workload
pods_of [] = []
pods_of (c ∷ rest) = c.workload ∷ pods_of rest

unfoldable pub metrics_of : List Configured → List Workloads.Workload
metrics_of [] = []
metrics_of (c ∷ rest) = record { name = c.workload.name; metrics = c.metrics } ∷ metrics_of rest

unfoldable pub collections_of : List Configured → List (String × String)
collections_of [] = []
collections_of (c ∷ rest) = (c.workload.name, c.log_collection) ∷ collections_of rest

pub record Env (P W F X T C U R B : Type 0) : Type 0 where
  pub database : Database.Env W F
  pub exporter : System.Env W
  pub logs : Targets.Env W T C
  pub manager : Manager.Env P X
  pub dirs : Pods.Dirs
  pub receiver : Settings.Env W U R
  pub os : Os.Env W
  pub s3 : Storage.Env W B
  -- What a message holds after the workload manager acted on it: `toPod` writes labels of a pod
  -- into the map of the message.
  pub labelled : AgentMessage → P → AgentMessage

module _ {P W F X T C U R B : Type 0} (env : Env P W F X T C U R B) where
  -- What an observer comes to: its error and the new state, or `none` for a panic
  abbrev pub Outcome : Type 0
  Outcome = Option (Option Err × State P W T C R B)

  unfoldable pub update_store : Option DeviceConfiguration → State P W T C R B → Outcome
  update_store none s = none
  update_store (some c) s =
      let (e, t, w) = Database.update_retention env.database c.retention s.store s.rest in
      some (e, record s { store = t; rest = w })

  unfoldable pub update_system_metrics : Option DeviceConfiguration → State P W T C R B → Outcome
  update_system_metrics none s = none
  update_system_metrics (some c) s =
      let (e, m, w) = System.update_system env.exporter c.system s.system s.rest in
      some (e, record s { system = m; rest = w })

  unfoldable pub update_logs :
      AgentMessage → Option DeviceConfiguration → State P W T C R B → Outcome
  unfolding collections_of
  update_logs msg none s = none
  update_logs msg (some c) s =
      let config : Targets.Config = record {
        device_id = msg.device_id;
        log_collection = c.log_collection;
        workloads = collections_of msg.workloads;
      } in
      let (t, w) = Targets.update env.logs config s.logs s.rest in
      some (none, record s { logs = t; rest = w })

  -- the multierror of `Update`
  abbrev error_of_all : List Err → Option Err
  error_of_all [] = none
  error_of_all (e ∷ es) = some (env.manager.multierror_text (e ∷ es))

  unfoldable pub update_manager : AgentMessage → State P W T C R B → Outcome
  unfolding pods_of
  update_manager msg s =
      let config : Manager.Config = record {
        secrets = msg.secrets;
        workloads = pods_of msg.workloads;
      } in
      let (errors, (m, p)) = Reconcile.update env.manager env.dirs config (s.manager, s.pods) in
      some (error_of_all errors, record s { manager = m; pods = p })

  receiver_of : Option DeviceConfiguration → Option Settings.Receiver
  receiver_of none = none
  receiver_of (some c) = c.receiver

  unfoldable pub update_remote_write : Option DeviceConfiguration → State P W T C R B → Outcome
  unfolding receiver_of
  update_remote_write c s =
      let (e, r, w) = Settings.update env.receiver (receiver_of c) s.remote_write s.rest in
      some (e, record s { remote_write = r; rest = w })

  unfoldable pub update_os : Option DeviceConfiguration → State P W T C R B → Outcome
  update_os none s = none
  update_os (some c) s =
      let (e, o, w) = Os.update env.os c.os s.os s.rest in some (e, record s { os = o; rest = w })

  s3_of : Option DeviceConfiguration → Option Storage.S3StorageConfiguration
  s3_of none = none
  s3_of (some c) = c.s3

  unfoldable pub update_monitor : Option DeviceConfiguration → State P W T C R B → Outcome
  unfolding s3_of
  update_monitor c s =
      let (e, storage) = Storage.update_storage env.s3 (s3_of c) s.storage in
      some (e, record s { storage = storage })

  ticking : State P W T C R B → Option Ticker.Ticking → Outcome
  ticking s none = none
  ticking s (some h) = some (none, record s { heartbeat = h })

  unfoldable pub update_ticker : Option DeviceConfiguration → State P W T C R B → Outcome
  unfolding ticking
  update_ticker none s = none
  update_ticker (some c) s = ticking s (Ticker.update_heartbeat c.heartbeat_period s.heartbeat)

  unfoldable pub update_part : Part → AgentMessage → State P W T C R B → Outcome
  unfolding update_store update_system_metrics update_logs update_manager update_remote_write
      update_os update_monitor update_ticker metrics_of
  update_part metrics_store msg s = update_store msg.configuration s
  update_part workload_metrics msg s = some (
    none,
    record s {
      workload_metrics = Workloads.update_workloads (metrics_of msg.workloads) s.workload_metrics;
    },
  )
  update_part system_metrics msg s = update_system_metrics msg.configuration s
  update_part logs_target msg s = update_logs msg msg.configuration s
  update_part workload_manager msg s = update_manager msg s
  update_part remote_write msg s = update_remote_write msg.configuration s
  update_part device_os msg s = update_os msg.configuration s
  update_part data_monitor msg s = update_monitor msg.configuration s
  update_part heartbeat_service msg s = update_ticker msg.configuration s

  -- `Init` of the parts: that of most is their update, and the heartbeat has none.
  start_logs : AgentMessage → Option DeviceConfiguration → State P W T C R B → Outcome
  unfolding collections_of
  start_logs msg none s = none
  start_logs msg (some c) s =
      let config : Targets.Config = record {
        device_id = msg.device_id;
        log_collection = c.log_collection;
        workloads = collections_of msg.workloads;
      } in
      let (e, t, w) = Targets.init env.logs config s.logs s.rest in
      some (e, record s { logs = t; rest = w })

  start_remote_write : Option DeviceConfiguration → State P W T C R B → Outcome
  unfolding receiver_of
  start_remote_write c s =
      let (e, r, w) = Settings.init env.receiver (receiver_of c) s.remote_write s.rest in
      some (e, record s { remote_write = r; rest = w })

  unfoldable pub init_part : Part → AgentMessage → State P W T C R B → Outcome
  unfolding update_part start_logs start_remote_write
  init_part metrics_store msg s = update_part metrics_store msg s
  init_part workload_metrics msg s = update_part workload_metrics msg s
  init_part system_metrics msg s = update_part system_metrics msg s
  init_part logs_target msg s = start_logs msg msg.configuration s
  init_part workload_manager msg s = update_part workload_manager msg s
  init_part remote_write msg s = start_remote_write msg.configuration s
  init_part device_os msg s = update_part device_os msg s
  init_part data_monitor msg s = update_part data_monitor msg s
  init_part heartbeat_service msg s = some (none, s)

  -- The state of a process that may have ended, and the parts as its observers. What is asked of a
  -- process that has ended changes nothing.
  abbrev pub Process : Type 0
  Process = Option (State P W T C R B)

  abbrev of_outcome : Outcome → Option Err × Process
  of_outcome none = (none, none)
  of_outcome (some (e, s)) = (e, some s)

  -- a call of an observer by a process
  unfoldable pub told : (State P W T C R B → Outcome) → Process → Option Err × Process
  told act none = (none, none)
  told act (some s) = of_outcome (act s)

  unfoldable pub observer_of :
      Part → Observer (Option DeviceConfiguration) (List Configured) Process
  unfolding told update_part init_part
  observer_of part = record {
    init = λ msg. told (init_part part msg);
    update = λ msg. told (update_part part msg);
  }

  unfoldable pub observers_of :
      List Part → List (Observer (Option DeviceConfiguration) (List Configured) Process)
  unfolding observer_of
  observers_of [] = []
  observers_of (p ∷ rest) = observer_of p ∷ observers_of rest

  -- The file of the configuration, for a process that may have ended
  abbrev pub file_written : Option Err × W → State P W T C R B → Option Err × Process
  file_written (e, w) s = (e, some (record s { rest = w }))

  read_by :
      Configuration.Env (Option DeviceConfiguration) (List Configured) W → Process → Result String
  read_by files none = err "the process has ended"
  read_by files (some s) = files.read_file s.rest

  written_by :
      Configuration.Env (Option DeviceConfiguration) (List Configured) W
      → String
      → Process
      → Option Err × Process
  written_by files text none = (some "the process has ended", none)
  written_by files text (some s) = file_written (files.write_file text s.rest) s

  removed_by :
      Configuration.Env (Option DeviceConfiguration) (List Configured) W
      → Process
      → Option Err × Process
  removed_by files none = (some "the process has ended", none)
  removed_by files (some s) = file_written (files.remove_file s.rest) s

  held_by : AgentMessage → Process → AgentMessage
  held_by msg none = msg
  held_by msg (some s) = env.labelled msg s.pods

  unfoldable pub files_of :
      Configuration.Env (Option DeviceConfiguration) (List Configured) W
      → Configuration.Env (Option DeviceConfiguration) (List Configured) Process
  unfolding held_by read_by written_by removed_by
  files_of files = record {
    in_memory = held_by;
    marshal = files.marshal;
    unmarshal = files.unmarshal;
    read_file = read_by files;
    write_file = written_by files;
    remove_file = removed_by files;
  }

  module _ ⦃same_c : Key (Option DeviceConfiguration)⦄ ⦃same_l : Key (List Configured)⦄
      (files : Configuration.Env (Option DeviceConfiguration) (List Configured) W)
      (fallback : AgentMessage) where
    -- The configuration manager and the process
    abbrev pub Agent : Type 0
    Agent = Configuration.Manager (Option DeviceConfiguration) (List Configured) Process × Process

    -- `configManager.Update`, whose errors are only logged by the server
    unfoldable pub update_agent : AgentMessage → Agent → Option Err × Agent
    unfolding files_of
    update_agent msg (m, p) =
        let (errors, m', p') = Configuration.update (files_of files) fallback msg m p in
        (error_of_all errors, (m', p'))

    -- The calls of `RegisterObserver`
    unfoldable pub register_parts : List Part → Agent → Agent
    unfolding observer_of
    register_parts [] a = a
    register_parts (part ∷ rest) (m, p) =
        register_parts rest
          (Configuration.register_observer (files_of files) fallback (observer_of part) m p)

    -- From the start of the process to the last registration
    unfoldable pub start_agent : State P W T C R B → Agent
    unfolding files_of register_parts
    start_agent s =
        register_parts registered
          (Configuration.new_configuration_manager (files_of files) fallback (some s), some s)

    -- The server, by how it handles a playbook and a deregistration
    unfoldable pub server_of :
        (String → Option Err × AgentMessage)
        → (String → Result ℤ)
        → (String → ℤ → Agent → Option Err × Agent)
        → (Agent → Option Err × Agent)
        → Server.Env Agent AgentMessage
    unfolding update_agent
    server_of unmarshal atoi handle_playbook deregister = record {
      unmarshal = unmarshal;
      atoi = atoi;
      handle_playbook = handle_playbook;
      update_config = update_agent;
      deregister = deregister;
    }

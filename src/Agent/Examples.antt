-- ===== src/Agent/Examples.antt =====
-- Tests of the agent as a whole (cmd/device-worker/main.go), and its theorems at inputs.
use native.Mathlib.Decide.{ℕ_discrete}
use k4e_device_worker.Prelude.{
  ◌≡◌, ◌↔◌, refl, ℕ, Bool, true, false, Option, none, some, List, [], ◌∷◌, String, Key, text_key,
  ok, pos, Err, text-discrete, Map, get, keys, put,
}
use k4e_device_worker.Workload.ManagerExamples.{device, dirs, device-KeepsWorkloads}
use k4e_device_worker.Metrics.Daemon.{new_metrics_daemon}
use k4e_device_worker.Metrics.System.Settled.{IsSettled}
use k4e_device_worker.Agent.{
  DeviceConfiguration, Configured, AgentMessage, State, Env, registered, observers_of, files_of,
  server_of, start_agent, Process, Agent,
}
use k4e_device_worker.Agent.Ended.{start_agent_ended, send_ended}
use k4e_device_worker.Agent.Applied.{IsApplied}
use k4e_device_worker.Agent.Updated.{update-IsApplied}
use k4e_device_worker.Heartbeat.{get_interval}
use k4e_device_worker.Heartbeat.Ticker.{update_heartbeat}
use k4e_device_worker.DataTransfer.Storage.{update_storage}
use k4e_device_worker.Os
use k4e_device_worker.Metrics.RemoteWrite.Settings
use k4e_device_worker.Workload.Reconcile
use k4e_device_worker.Workload.Manager.{deploy_all}
use k4e_device_worker.Workload.Secrets.{update_secrets}
use k4e_device_worker.Metrics.System.{update_system}
use k4e_device_worker.Metrics.Database.{update_retention}
use k4e_device_worker.Configuration
use k4e_device_worker.Configuration.{Manager, update, should_update}
use k4e_device_worker.Server
use k4e_device_worker.Server.{Data, send, run_playbook, is_true}
use k4e_device_worker.Metrics.Database.{default_retention_duration, default_max_bytes}
use k4e_device_worker.Metrics.Workloads.{new_workload_metrics}

configuration-discrete : Discrete (Option DeviceConfiguration)
configuration-discrete = hlevel (ℕ_discrete, text-discrete)

workloads-discrete : Discrete (List Configured)
workloads-discrete = hlevel (ℕ_discrete, text-discrete)

abbrev decided {ℓ} : {A : Type ℓ} {a b : A} → Dec (a ≡ b) → Bool
decided (yes e) = true
decided (no n) = false

decided_iff {ℓ} : {A : Type ℓ} {a b : A} (d : Dec (a ≡ b)) → (decided d ≡ true) ↔ (a ≡ b)
decided_iff (yes e) = ((λ h. e), (λ h. refl))
decided_iff (no n) = ((λ h. cc), (λ e. absurd (n e)))

abbrev key_of {ℓ} : {A : Type ℓ} → Discrete A → Key A
key_of d = record { same = λ a b. decided (d a b); same_iff = λ a b. decided_iff (d a b) }

instance abbrev configuration_key : Key (Option DeviceConfiguration)
configuration_key = key_of configuration-discrete

instance abbrev workloads_key : Key (List Configured)
workloads_key = key_of workloads-discrete

-- The world besides the pods is a number that nothing looks at, and every call succeeds.
abbrev agent : Env (Map String String × List String) ℕ ℕ Unit ℕ ℕ ℕ ℕ String
agent = record {
  database = record {
    close_db = λ w. (none, w);
    open_db = λ o w. (none, w);
    append_metric = λ value labels w. (none, w);
    remove_all = λ w. (none, w);
  };
  exporter = record {
    stop_exporter = λ w. (none, w);
    disable_exporter = λ w. (none, w);
    enable_exporter = λ w. (none, w);
    start_exporter = λ w. (none, w);
  };
  logs = record {
    new_syslog_server = λ address protocol id w. (ok w, w);
    logs = λ workload w. (some w, w);
    cancel = λ c w. w;
    list_workloads = λ w. (ok [], w);
  };
  manager = device;
  dirs = dirs;
  receiver = record {
    parse_url = λ u. ok 1;
    temp_file = λ w. (ok "ca", w);
    write_ca = λ p c w. (ok tt, w);
    new_write_client = λ u t ca w. (ok 1, w);
    remove_file = λ p w. (ok tt, w);
    read_dir = λ w. (ok [], w);
    is_ca_file = λ n. false;
  };
  os = record {
    is_available = λ w. true;
    status = λ w. (ok "", w);
    parse_status = λ text. ok [];
    time_text = λ t. "now";
    update_url = λ url w. (none, w);
    update_preview = λ w. (ok "", w);
    ensure_health_check = λ w. (none, w);
    ensure_fail_script = λ w. (none, w);
    upgrade = λ w. (none, w);
    graceful_reboot = λ w. w;
    reboot = λ w. (none, w);
  };
  s3 = record {
    decode_base64 = λ t. ok t;
    new_session = λ c w. (none, w);
    sync = λ source target w. (none, w);
  };
  labelled = λ msg p. msg;
}

abbrev configuration : DeviceConfiguration
configuration = record {
  retention = none;
  receiver = none;
  system = none;
  log_collection = [];
  os = none;
  s3 = none;
  heartbeat_period = some (pos 30);
}

-- A message without workloads, and one without anything
abbrev no_workloads : AgentMessage
no_workloads = record {
  configuration = some configuration;
  workloads = [];
  secrets = [];
  device_id = "d";
  version = "2";
}

abbrev empty_message : AgentMessage
empty_message = record {
  configuration = none;
  workloads = [];
  secrets = [];
  device_id = "";
  version = "";
}

abbrev files : Configuration.Env (Option DeviceConfiguration) (List Configured) ℕ
files = record {
  in_memory = λ msg w. msg;
  marshal = λ msg. ok "{}";
  unmarshal = λ text. ok empty_message;
  read_file = λ w. ok "{}";
  write_file = λ text w. (none, w);
  remove_file = λ w. (none, w);
}

-- An agent that has just started, with a workload "old" on the device
abbrev just_started : State (Map String String × List String) ℕ ℕ ℕ ℕ String
just_started = record {
  store = record {
    applied_options = record {
      retention_duration = default_retention_duration;
      max_bytes = default_max_bytes;
    };
    is_open = true;
  };
  workload_metrics = new_workload_metrics;
  system = record { latest_config = none; daemon = new_metrics_daemon };
  logs = record {
    device_id = "d";
    transports = [];
    wwriter = [];
    workloads_config = [];
    next_log = 0;
    started = [];
  };
  manager = record { deregistered = false; events_queue = [] };
  remote_write = record {
    config = none;
    client = none;
    is_running = false;
    current_server_ca_file = "";
    routines = 0;
  };
  os = record {
    automatically_upgrade = true;
    os_commit = "c";
    requested_os_commit = "";
    hosted_objects_url = "";
    last_upgrade_status = "";
    last_upgrade_time = "";
    enabled = true;
  };
  storage = none;
  heartbeat = record { ticker = none; ticks = false; goroutines = 0 };
  pods = ([], "old" ∷ []);
  rest = 0;
}

just_started-IsSettled : IsSettled just_started.system
just_started-IsSettled c h = cc

abbrev configured : Manager (Option DeviceConfiguration) (List Configured) (Process agent)
configured = record {
  device_configuration = no_workloads;
  observers = observers_of agent registered;
  initial_config = true;
}

start_fails : (start_agent agent files no_workloads just_started).1 ≡ none
start_fails =
    start_agent_ended agent files no_workloads just_started "{}" empty_message refl refl refl

abbrev operator : Server.Env (Agent agent files no_workloads) AgentMessage
operator =
    server_of agent files no_workloads (λ content. (some "invalid character", empty_message))
      (λ t. ok (pos 60)) (λ content timeout a. (none, a)) (λ a. (none, a))

abbrev playbook : Data
playbook = record { content = "- hosts: all"; metadata = ("ansible-playbook", "true") ∷ [] }

send_ended_example : (send operator true playbook (configured, some just_started)).1 ≡ none
send_ended_example =
    send_ended agent files no_workloads (λ content. (some "invalid character", empty_message))
      (λ t. ok (pos 60)) (λ content timeout a. (none, a)) (λ a. (none, a)) true playbook
      (configured, some just_started) configuration refl
      (unfold run_playbook is_true get server_of in refl)
      (unfold run_playbook is_true get server_of in refl)

abbrev updated :
    List Err
    × Manager (Option DeviceConfiguration) (List Configured) (Process agent)
    × Process agent
unfolding update
updated = update (files_of agent files) no_workloads no_workloads configured (some just_started)

abbrev state_of : Process agent → State (Map String String × List String) ℕ ℕ ℕ ℕ String
state_of none = just_started
state_of (some s) = s

updated_clean :
    update (files_of agent files) no_workloads no_workloads configured (some just_started)
    ≡ ([], updated.1, some (state_of updated.2))
unfolding update files_of observers_of update_heartbeat get_interval update_storage Os.update
    Settings.update Reconcile.update deploy_all update_secrets keys put update_system
    update_retention
updated_clean = refl

update-IsApplied_example :
    (updated.1.device_configuration ≡ no_workloads)
    × IsApplied agent (λ p. p.1) configuration no_workloads just_started (state_of updated.2)
unfolding should_update
update-IsApplied_example =
    update-IsApplied agent files no_workloads (λ p. p.1) configuration no_workloads configured
      updated.1 just_started (state_of updated.2) device-KeepsWorkloads refl just_started-IsSettled
      refl refl refl updated_clean

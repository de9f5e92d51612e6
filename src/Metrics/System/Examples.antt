-- ===== src/Metrics/System/Examples.antt =====
-- Tests of the metrics of the system and of the workloads (internal/metrics/system.go and
-- workload.go), and their theorems at inputs.
use k4e_device_worker.Prelude.{◌≡◌, ℕ, none, some, [], ◌∷◌, text_key, pos, Err}
use k4e_device_worker.Workload.Podman.{PodReport}
use k4e_device_worker.Metrics.Daemon.{new_metrics_daemon}
use k4e_device_worker.Metrics.System.{Env, SystemMetrics, update_system, expected_configuration}
use k4e_device_worker.Metrics.System.Settled.{IsSettled, IsScraped, update_system-IsSettled}
use k4e_device_worker.Metrics.Workloads.{Metrics, Workload, WorkloadMetrics}

-- A node exporter that cannot be started.
abbrev no_exporter : Env ℕ
no_exporter = record {
  stop_exporter = λ w. (none, w);
  disable_exporter = λ w. (none, w);
  enable_exporter = λ w. (none, w);
  start_exporter = λ w. (some "not found", w);
}

abbrev fresh : SystemMetrics
fresh = record { latest_config = none; daemon = new_metrics_daemon }

fresh-IsSettled : IsSettled fresh
fresh-IsSettled c h = cc

update_system-IsSettled_example :
    IsSettled (update_system no_exporter none fresh 0).1
    × ((update_system no_exporter none fresh 0).0 ≡ none
        → IsScraped (expected_configuration none) (update_system no_exporter none fresh 0).1.daemon)
    × ((e : Err)
        → (update_system no_exporter none fresh 0).0 ≡ some e
        → (update_system no_exporter none fresh 0).1 ≡ fresh)
update_system-IsSettled_example = update_system-IsSettled no_exporter none fresh 0 fresh-IsSettled

abbrev web_metrics : Metrics
web_metrics = record {
  path = "/metrics";
  port = pos 8080;
  interval = pos 0;
  allow_list = none;
  containers = [];
}

abbrev web : Workload
web = record { name = "web"; metrics = some web_metrics }

abbrev configured : WorkloadMetrics
configured = record { latest_config = web ∷ []; workload_config = ("web", web) ∷ [] }

abbrev web_report : PodReport
web_report = record {
  id = "6f2a";
  name = "web";
  containers = record { ip_address = "10.88.0.2"; id = "c1"; name = "web-nginx" } ∷ [];
}

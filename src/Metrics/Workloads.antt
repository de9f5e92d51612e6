-- ===== src/Metrics/Workloads.antt =====
-- The metrics of the workloads (internal/metrics/workload.go). The numeral of a port is a parameter.
pub mod Started
use k4e_device_worker.Prelude.{
  ℕ, ◌*◌, Bool, true, false, Option, none, some, List, [], ◌∷◌, ◌++◌, String, Map, get, put,
  if◌then◌else◌, ◌==◌, text_key, ℤ, pos, negsuc, ltb_ℤ, ◌⧺◌,
}
use k4e_device_worker.Workload.Podman.{PodReport, ContainerReport}
use k4e_device_worker.Metrics.Allowed.{SampleFilter, permissive, new_restrictive_allow_list}
use k4e_device_worker.Metrics.Daemon.{MetricsDaemon, add_target, delete_target}
use k4e_device_worker.Metrics.Database.{times}

-- models.ContainerMetrics
pub record ContainerMetrics : Type 0 where
  pub disabled : Bool
  pub port : ℤ
  pub path : String

-- models.Metrics of a workload
pub record Metrics : Type 0 where
  pub path : String
  pub port : ℤ
  pub interval : ℤ
  pub allow_list : Option (List String)
  pub containers : Map String ContainerMetrics

-- models.Workload, as far as it is read here
pub record Workload : Type 0 where
  pub name : String
  pub metrics : Option Metrics

pub record WorkloadMetrics : Type 0 where
  pub latest_config : List Workload
  pub workload_config : Map String Workload

abbrev pub new_workload_metrics : WorkloadMetrics
new_workload_metrics = record { latest_config = []; workload_config = [] }

unfoldable pub index_workloads : List Workload → Map String Workload → Map String Workload
index_workloads [] cfg = cfg
index_workloads (w ∷ rest) cfg = index_workloads rest (put cfg w.name w)

-- `Update` and `Init`: the targets that run are left as they are.
unfoldable pub update_workloads : List Workload → WorkloadMetrics → WorkloadMetrics
unfolding index_workloads
update_workloads workloads m = record {
  latest_config = workloads;
  workload_config = index_workloads workloads [];
}

abbrev pub workload_removed : String → MetricsDaemon → MetricsDaemon
workload_removed name d = delete_target name d

abbrev pub get_path_or_default : String → String
get_path_or_default path = if path == "" then "/" else path

abbrev pub nanos_in_second : ℕ
nanos_in_second = 1000000000

module _ (format_port : ℤ → String) where
  abbrev pub url : String → ℤ → String → String
  url address port path =
      "http://" ⧺ (address ⧺ (":" ⧺ (format_port port ⧺ get_path_or_default path)))

  container_urls : Metrics → ContainerReport → Option ContainerMetrics → List String
  container_urls m c none = url c.ip_address m.port m.path ∷ []
  container_urls m c (some custom) =
      if custom.disabled then [] else url c.ip_address custom.port custom.path ∷ []

  urls_of : Metrics → List ContainerReport → List String
  unfolding container_urls
  urls_of m [] = []
  urls_of m (c ∷ rest) = container_urls m c (get m.containers c.name) ++ urls_of m rest

  unfoldable pub get_workload_urls : PodReport → Metrics → List String
  unfolding urls_of
  get_workload_urls report m = urls_of m report.containers

  unfoldable pub all_urls : List PodReport → Metrics → List String
  unfolding get_workload_urls
  all_urls [] m = []
  all_urls (r ∷ rest) m = get_workload_urls r m ++ all_urls rest m

  abbrev pub filter_of : Option (List String) → SampleFilter
  filter_of none = permissive
  filter_of (some names) = new_restrictive_allow_list (some names)

  -- the number of seconds, as a `time.Duration`
  unfoldable pub interval_of : Metrics → ℤ
  interval_of m = times (if ltb_ℤ (pos 0) m.interval then m.interval else pos 60) nanos_in_second

  unfoldable pub add_metrics :
      String → List PodReport → Option Metrics → MetricsDaemon → MetricsDaemon
  unfolding all_urls interval_of
  add_metrics name report none d = d
  add_metrics name report (some m) d =
      add_target name (all_urls report m) (interval_of m) (filter_of m.allow_list) d

  unfoldable pub add_configured :
      String → List PodReport → Option Workload → MetricsDaemon → MetricsDaemon
  unfolding add_metrics
  add_configured name report none d = d
  add_configured name report (some w) d = add_metrics name report w.metrics d

  -- the loop over the reports, each of which adds a target with the addresses of all
  unfoldable pub start_reports :
      List PodReport → List PodReport → Option Workload → MetricsDaemon → MetricsDaemon
  unfolding add_configured
  start_reports report [] cfg d = d
  start_reports report (r ∷ rest) cfg d =
      start_reports report rest cfg (add_configured r.name report cfg d)

  unfoldable pub workload_started :
      String → List PodReport → WorkloadMetrics → MetricsDaemon → MetricsDaemon
  unfolding start_reports
  workload_started name report m d = start_reports report report (get m.workload_config name) d

-- ===== src/Metrics/System.antt =====
-- The metrics of the system (internal/metrics/system.go). The service of the node exporter is a
-- parameter.
pub mod Settled
mod Examples
use k4e_device_worker.Prelude.{
  ℕ, Bool, true, false, not, ◌&&◌, Option, none, some, List, [], ◌∷◌, String, if◌then◌else◌, ◌==◌,
  text_key, integer_key, ℤ, pos, Err,
}
use k4e_device_worker.Metrics.Allowed.{
  SampleFilter, new_restrictive_allow_list, default_system_allow_list,
}
use k4e_device_worker.Metrics.Daemon.{MetricsDaemon, add_target, delete_target}
use k4e_device_worker.Metrics.Database.{times}

-- models.SystemMetricsConfiguration
pub record SystemConfig : Type 0 where
  pub interval : ℤ
  pub disabled : Bool
  pub allow_list : Option (List String)

-- `SystemMetrics`, with its daemon
pub record SystemMetrics : Type 0 where
  pub latest_config : Option SystemConfig
  pub daemon : MetricsDaemon

pub record Env (W : Type 0) : Type 0 where
  pub stop_exporter : W → Option Err × W
  pub disable_exporter : W → Option Err × W
  pub enable_exporter : W → Option Err × W
  pub start_exporter : W → Option Err × W

abbrev pub system_target_name : String
system_target_name = "system"

abbrev pub node_exporter_metrics_endpoint : String
node_exporter_metrics_endpoint = "http://localhost:9100/metrics"

abbrev pub default_interval : ℤ
default_interval = pos 60

-- `expectedConfiguration`; `none` is a nil Metrics or System.
unfoldable pub expected_configuration : Option SystemConfig → SystemConfig
expected_configuration none = record {
  interval = default_interval;
  disabled = false;
  allow_list = none;
}
expected_configuration (some c) =
    if c.interval == pos 0 then record c { interval = default_interval } else c

texts_beq : List String → List String → Bool
texts_beq [] [] = true
texts_beq [] (y ∷ ys) = false
texts_beq (x ∷ xs) [] = false
texts_beq (x ∷ xs) (y ∷ ys) = (x == y) && texts_beq xs ys

list_beq : Option (List String) → Option (List String) → Bool
list_beq none none = true
list_beq none (some ys) = false
list_beq (some xs) none = false
list_beq (some xs) (some ys) = texts_beq xs ys

abbrev bool_beq : Bool → Bool → Bool
bool_beq a b = if a then b else not b

-- reflect.DeepEqual
unfoldable pub config_beq : SystemConfig → SystemConfig → Bool
unfolding list_beq texts_beq
config_beq a b =
    (a.interval == b.interval)
    && (bool_beq a.disabled b.disabled && list_beq a.allow_list b.allow_list)

unfoldable pub is_latest : SystemConfig → Option SystemConfig → Bool
unfolding config_beq
is_latest c none = false
is_latest c (some old) = config_beq c old

unfoldable pub get_sample_filter : Option (List String) → SampleFilter
get_sample_filter none = default_system_allow_list
get_sample_filter (some names) = new_restrictive_allow_list (some names)

module _ {W : Type 0} (env : Env W) where
  abbrev and_then : Option Err × W → (W → Option Err × W) → Option Err × W
  and_then (none, w) f = f w
  and_then (some e, w) f = (some e, w)

  unfoldable pub ensure_node_exporter_state : SystemConfig → W → Option Err × W
  ensure_node_exporter_state c w =
      if c.disabled
      then and_then (env.stop_exporter w) env.disable_exporter
      else and_then (env.enable_exporter w) env.start_exporter

  unfoldable pub set_target : SystemConfig → MetricsDaemon → MetricsDaemon
  unfolding get_sample_filter
  set_target c d =
      if c.disabled
      then delete_target system_target_name d
      else add_target system_target_name (node_exporter_metrics_endpoint ∷ [])
          (times c.interval 1000000000) (get_sample_filter c.allow_list) d

  unfoldable pub exporter_ensured :
      SystemConfig → SystemMetrics → Option Err × W → Option Err × SystemMetrics × W
  unfolding set_target
  exporter_ensured c s (some e, w) = (some e, s, w)
  exporter_ensured c s (none, w) =
      (none, record { latest_config = some c; daemon = set_target c s.daemon }, w)

  -- `Update` and `Init`
  unfoldable pub update_system :
      Option SystemConfig → SystemMetrics → W → Option Err × SystemMetrics × W
  unfolding expected_configuration is_latest exporter_ensured ensure_node_exporter_state
  update_system config s w =
      let c = expected_configuration config in
      if is_latest c s.latest_config
      then (none, s, w)
      else exporter_ensured c s (ensure_node_exporter_state c w)

  unfoldable pub deregister_system : SystemMetrics → SystemMetrics
  deregister_system s = record s { daemon = delete_target "system" s.daemon }

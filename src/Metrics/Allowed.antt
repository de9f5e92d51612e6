-- ===== src/Metrics/Allowed.antt =====
-- Which samples are kept (internal/metrics/allow-list.go).
use k4e_device_worker.Prelude.{
  Option, none, some, List, [], ◌∷◌, String, Map, get, put, has, if◌then◌else◌, text_key,
}

-- `model.Sample`: its labels, with the name of the metric among them, and its value.
pub record Scraped (F : Type 0) : Type 0 where
  pub metric : Map String String
  pub value : F

-- `SampleFilter`: `PermissiveAllowList` and `RestrictiveAllowList`
pub data SampleFilter : Type 0 where
  permissive : SampleFilter
  restrictive : Map String (Unit {0}) → SampleFilter

-- A value of Go's map, "" where the key is missing
abbrev pub text_or_empty : Option String → String
text_or_empty none = ""
text_or_empty (some t) = t

unfoldable pub allowed_names : List String → Map String (Unit {0}) → Map String (Unit {0})
allowed_names [] names = names
allowed_names (n ∷ rest) names = allowed_names rest (put names n tt)

-- `NewRestrictiveAllowList`; `none` is a nil list.
unfoldable pub new_restrictive_allow_list : Option (List String) → SampleFilter
unfolding allowed_names
new_restrictive_allow_list none = restrictive []
new_restrictive_allow_list (some names) = restrictive (allowed_names names [])

unfoldable pub default_system_allow_list : SampleFilter
default_system_allow_list = restrictive (
    ("node_cpu_frequency_hertz", tt)
    ∷ ("node_cpu_scaling_frequency_min_hertz", tt)
    ∷ ("node_cpu_scaling_frequency_hertz", tt)
    ∷ ("node_cpu_scaling_frequency_max_hertz", tt)
    ∷ ("node_disk_read_bytes_total", tt)
    ∷ ("node_disk_written_bytes_total", tt)
    ∷ ("node_memory_MemAvailable_bytes", tt)
    ∷ ("node_memory_MemFree_bytes", tt)
    ∷ ("node_memory_MemTotal_bytes", tt)
    ∷ ("node_network_info", tt)
    ∷ ("node_network_receive_bytes_total", tt)
    ∷ ("node_network_transmit_bytes_total", tt)
    ∷ [])

module _ {F : Type 0} where
  -- `sample.Metric[model.MetricNameLabel]`
  abbrev pub metric_name : Scraped F → String
  metric_name s = text_or_empty (get s.metric "__name__")

  unfoldable pub filter_allowed : Map String (Unit {0}) → List (Scraped F) → List (Scraped F)
  filter_allowed names [] = []
  filter_allowed names (s ∷ rest) =
      let filtered = filter_allowed names rest in
      if has names (metric_name s) then s ∷ filtered else filtered

  unfoldable pub filter : SampleFilter → List (Scraped F) → List (Scraped F)
  unfolding filter_allowed
  filter permissive samples = samples
  filter (restrictive names) samples = filter_allowed names samples

-- ===== src/Metrics/Database.antt =====
-- The storage of the metrics (`TSDB` of internal/metrics/metrics.go), around the database of
-- Prometheus, which is a parameter.
pub mod Times
pub mod Retention
pub mod Reading
mod Examples
use k4e_device_worker.Prelude.{
  ℕ, ◌+◌, ◌-◌, ◌*◌, ◌/◌, ◌%◌, ◌^◌, Bool, true, false, ◌&&◌, ◌||◌, Option, none, some, List, [], ◌∷◌,
  ◌++◌, String, Map, get, put, if◌then◌else◌, ◌==◌, text_key, integer_key, number_key, ℤ, pos,
  negsuc, Result, ok, err, Err, Exec, collect, error_of,
}
use k4e_device_worker.Metrics.Series.{Series, DataPoint}
use k4e_device_worker.Metrics.Allowed.{Scraped}

-- `tsdb.Options`, as far as they are set; numbers of an int64.
pub record Options : Type 0 where
  pub retention_duration : ℤ
  pub max_bytes : ℤ

-- `TSDB`: the database is open or closed, and the options are those that were applied last.
pub record Tsdb : Type 0 where
  pub applied_options : Options
  pub is_open : Bool

-- 7 days of milliseconds
abbrev pub millis_in_hour : ℕ
millis_in_hour = 3600000

abbrev pub default_retention_duration : ℤ
default_retention_duration = pos 604800000

abbrev pub default_max_bytes : ℤ
default_max_bytes = pos 0

-- `models.MetricsRetention`: int32 fields.
pub record MetricsRetention : Type 0 where
  pub max_mib : ℤ
  pub max_hours : ℤ

-- The product of an int32 and a small constant, which an int64 holds.
abbrev pub times : ℤ → ℕ → ℤ
times (pos n) k = pos (n * k)
times (negsuc n) k = negsuc (n * k + (k - 1))

-- The options that the configuration asks for; `none` is a nil Metrics or Retention.
unfoldable pub wanted_options : Option MetricsRetention → Options
wanted_options none = record {
  retention_duration = default_retention_duration;
  max_bytes = default_max_bytes;
}
wanted_options (some r) = record {
  retention_duration = times r.max_hours millis_in_hour;
  max_bytes = times (times r.max_mib 1024) 1024;
}

abbrev pub same_options : Options → Options → Bool
same_options a b = (a.retention_duration == b.retention_duration) && (a.max_bytes == b.max_bytes)

-- Prometheus: a closed database answers with errors.
pub record Env (W F : Type 0) : Type 0 where
  pub close_db : W → Option Err × W
  pub open_db : Options → W → Option Err × W
  pub append_metric : F → Map String String → W → Option Err × W
  pub remove_all : W → Option Err × W

abbrev pub shut : Option Err → Tsdb → Tsdb
shut none t = record t { is_open = false }
shut (some e) t = t

module _ {W F : Type 0} (env : Env W F) where
  unfoldable pub reopened : Tsdb → Option Err × W → Option Err × Tsdb × W
  reopened t (some e, w) = (some e, t, w)
  reopened t (none, w) = (none, record t { is_open = true }, w)

  unfoldable pub closed : Options → Tsdb → Option Err × W → Option Err × Tsdb × W
  unfolding reopened
  closed o t (some e, w) = (some e, t, w)
  closed o t (none, w) =
      reopened (record { applied_options = o; is_open = false }) (env.open_db o w)

  -- `Update` and `Init`: the options are noted before the database is opened with them.
  unfoldable pub update_retention : Option MetricsRetention → Tsdb → W → Option Err × Tsdb × W
  unfolding wanted_options closed
  update_retention r t w =
      let o = wanted_options r in
      if same_options o t.applied_options then (none, t, w) else closed o t (env.close_db w)

  unfoldable pub close_tsdb : Tsdb → W → Option Err × Tsdb × W
  close_tsdb t w = let (e, w') = env.close_db w in (e, shut e t, w')

  unfoldable pub directory_removed : Option Err × Tsdb × W → Option Err × Tsdb × W
  directory_removed (some e, t, w) = (some e, t, w)
  directory_removed (none, t, w) = let (e, w') = env.remove_all w in (e, t, w')

  -- `Deregister`
  unfoldable pub deregister_tsdb : Tsdb → W → Option Err × Tsdb × W
  unfolding close_tsdb directory_removed
  deregister_tsdb t w = directory_removed (close_tsdb t w)

  unfoldable pub put_labels : Map String String → Map String String → Map String String
  put_labels [] res = res
  put_labels ((k, v) ∷ rest) res = put_labels rest (put res k v)

  -- the labels of the target, and over them those of the sample
  unfoldable pub merge_labels_from_vector :
      Map String String → Map String String → Map String String
  unfolding put_labels
  merge_labels_from_vector metric labels = put_labels metric (put_labels labels [])

  -- `AddVector`: all samples are tried, and the errors are collected.
  unfoldable pub add_vector : List (Scraped F) → Map String String → W → List Err × W
  unfolding merge_labels_from_vector
  add_vector [] labels w = ([], w)
  add_vector (s ∷ rest) labels w =
      let (e, w1) = env.append_metric s.value (merge_labels_from_vector s.metric labels) w in
      let (errors, w2) = add_vector rest labels w1 in (collect [] e ++ errors, w2)

-- A time in nanoseconds since 1970, not before it; Go's int64 holds them until 2262.
unfoldable pub to_db_time : ℕ → ℕ
to_db_time t = t / 1000000

-- The zero time is `none`. `time.Unix` of the seconds and the nanoseconds, which are less than one
-- second.
unfoldable pub from_db_time : ℕ → Option ℕ
from_db_time t =
    if (t == 0) || (t == 9223372036854775807)
    then none
    else some ((t / 1000) * 1000000000 + (t % 1000) * 1000000)

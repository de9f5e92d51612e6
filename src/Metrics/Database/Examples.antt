-- ===== src/Metrics/Database/Examples.antt =====
-- Tests of the storage of the metrics (internal/metrics/metrics.go), and its theorem at an input.
use k4e_device_worker.Prelude.{◌≡◌, refl, ℕ, true, false, none, some, pos, Option}
use k4e_device_worker.Metrics.Database.{
  Env, Tsdb, MetricsRetention, wanted_options, update_retention, default_retention_duration,
  default_max_bytes,
}
use k4e_device_worker.Metrics.Database.Retention.{update_retention_not_retried}

-- A database that can be closed and not be opened again.
abbrev broken : Env ℕ ℕ
broken = record {
  close_db = λ w. (none, w);
  open_db = λ o w. (some "locked", w);
  append_metric = λ value labels w. (none, w);
  remove_all = λ w. (none, w);
}

abbrev opened : Tsdb
opened = record {
  applied_options = record {
    retention_duration = default_retention_duration;
    max_bytes = default_max_bytes;
  };
  is_open = true;
}

abbrev one_day : Option MetricsRetention
one_day = some (record { max_mib = pos 10; max_hours = pos 24 })

update_retention_not_retried_example :
    ((update_retention broken one_day opened 0).0 ≡ some "locked")
    × ((v : ℕ)
        → (update_retention broken one_day (update_retention broken one_day opened 0).1 v).0 ≡ none)
    × ((v : ℕ)
        → (update_retention broken one_day (update_retention broken one_day opened 0).1 v).1.is_open
          ≡ false)
unfolding wanted_options
update_retention_not_retried_example =
    update_retention_not_retried broken one_day opened 0 "locked" refl refl refl

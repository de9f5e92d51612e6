-- ===== src/Metrics/Database/Reading.antt =====
-- What is added to the database of the metrics, and what is read from it
-- (internal/metrics/metrics.go).
use k4e_device_worker.Prelude.{
  ◌≡◌, refl, ℕ, Bool, Option, none, some, List, [], ◌∷◌, map, String, Map, put, text_key, Result,
  ok, err, Err, Exec,
}
use k4e_device_worker.Metrics.Series.{Series, DataPoint}
use k4e_device_worker.Metrics.Database.{to_db_time}

-- A series as the database's iterators give it
pub record Stored (F : Type 0) : Type 0 where
  pub stored_labels : Map String String
  pub stored_points : List (DataPoint F)

-- The result of `Select`: the series that `Next` comes to, and whether `Err` is set before the first
pub record SeriesSet (F : Type 0) : Type 0 where
  pub series : List (Stored F)
  pub first_error : Option Err

-- The appenders `A` and the queriers `Q` of Prometheus
pub record Access (W F A Q : Type 0) : Type 0 where
  pub now : W → ℕ
  pub appender : W → A
  pub append : Map String String → ℕ → F → A → W → Option Err × W
  pub rollback : A → W → Option Err × W
  pub commit : A → W → Option Err × W
  pub querier : ℕ → ℕ → Exec W Q
  pub label_names : Q → Exec W (List String)
  pub select : Bool → List (String × String) → Q → W → SeriesSet F × W
  pub close_querier : Q → W → W

-- the labels of a series in a map
abbrev pub labels_of : Map String String → Map String String → Map String String
labels_of [] m = m
labels_of ((k, v) ∷ rest) m = labels_of rest (put m k v)

module _ {F : Type 0} where
  -- The points are copied one by one.
  abbrev pub points_of : List (DataPoint F) → List (DataPoint F)
  points_of [] = []
  points_of (p ∷ rest) = record { time = p.time; value = p.value } ∷ points_of rest

  unfoldable pub to_series : List (Stored F) → List (Series F)
  to_series [] = []
  to_series (s ∷ rest) =
      record { labels = labels_of s.stored_labels []; data_points = points_of s.stored_points }
      ∷ to_series rest

  points_of_same : (ps : List (DataPoint F)) → points_of ps ≡ ps
  points_of_same [] = refl
  points_of_same (p ∷ rest) = rw (points_of_same rest) refl

  -- No point is lost or moved.
  pub to_series-points :
      (stored : List (Stored F))
      → map (λ s. s.data_points) (to_series stored) ≡ map (λ s. s.stored_points) stored
  unfolding to_series
  to_series-points [] = refl
  to_series-points (s ∷ rest) = rw (points_of_same s.stored_points, to_series-points rest) refl

-- A regular expression for any value, for each label
abbrev pub matchers_of : List String → List (String × String)
matchers_of [] = []
matchers_of (l ∷ rest) = (l, ".*") ∷ matchers_of rest

module _ {W F A Q : Type 0} (access : Access W F A Q) where
  metric_appended : A → Option Err × W → Option Err × W
  metric_appended a (some e, w) = let (ignored, v) = access.rollback a w in (some e, v)
  metric_appended a (none, w) = access.commit a w

  -- `AddMetric`
  unfoldable pub add_metric : F → Map String String → W → Option Err × W
  unfolding metric_appended to_db_time
  add_metric value labels w =
      let a = access.appender w in
      metric_appended a (access.append labels (to_db_time (access.now w)) value a w)

  -- `getAllLabelsMatchers`
  unfoldable pub get_all_labels_matchers : Q → Exec W (List (String × String))
  get_all_labels_matchers q w = matched (access.label_names q w)
    where
      matched : Result (List String) × W → Result (List (String × String)) × W
      matched (err e, w) = (err e, w)
      matched (ok names, w) = (ok (matchers_of names), w)

  selected : SeriesSet F × W → Result (List (Series F)) × W
  unfolding to_series
  selected (set, w) =
      (elim set.first_error [ none ↦ ok (to_series set.series) | some e ↦ err e ], w)

  with_matchers : Bool → Q → Result (List (String × String)) × W → Result (List (Series F)) × W
  unfolding selected
  with_matchers sort q (err e, w) = (err e, w)
  with_matchers sort q (ok matchers, w) = selected (access.select sort matchers q w)

  -- the deferred `Close`, whose error is only logged
  closing : Q → Result (List (Series F)) × W → Result (List (Series F)) × W
  closing q (r, w) = (r, access.close_querier q w)

  opened : Bool → Result Q × W → Result (List (Series F)) × W
  unfolding with_matchers closing get_all_labels_matchers
  opened sort (err e, w) = (err e, w)
  opened sort (ok q, w) = closing q (with_matchers sort q (get_all_labels_matchers q w))

  -- `GetMetricsForTimeRange`
  unfoldable pub get_metrics_for_time_range : ℕ → ℕ → Bool → Exec W (List (Series F))
  unfolding opened to_db_time
  get_metrics_for_time_range t_min t_max sort w =
      opened sort (access.querier (to_db_time t_min) (to_db_time t_max) w)

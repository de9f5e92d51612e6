-- ===== src/Metrics/Daemon.antt =====
-- The daemon that scrapes targets (internal/metrics/daemon.go). A target is an object with a lock;
-- its goroutine begins some time after it was started, and then loops until its context is done.
pub mod Entries
pub mod Tracked
pub mod Lost
pub mod Collected
mod Examples
use k4e_device_worker.Prelude.{
  ℕ, suc, ◌+◌, Bool, true, false, Option, none, some, List, [], ◌∷◌, ◌++◌, String, Map, keys, get,
  put, remove, has, if◌then◌else◌, ◌==◌, text_key, number_key, ℤ, Result, ok, err, Err,
}
use k4e_device_worker.Metrics.Allowed.{SampleFilter, Scraped, filter}

-- `TargetMetric`: `cancel` is nil or ends the context with that number.
pub record TargetMetric : Type 0 where
  pub name : String
  pub interval : ℤ  -- nanoseconds
  pub urls : List String
  pub allow_list : SampleFilter
  pub cancel : Option ℕ

-- `metricsDaemon` with the targets that were made (`objects`, by number), the goroutines that were
-- started and have not begun (`waiting`), and the loops that run, by their context, with the target
-- that each of them scrapes.
pub record MetricsDaemon : Type 0 where
  pub targets : Map String ℕ
  pub objects : Map ℕ TargetMetric
  pub waiting : List ℕ
  pub loops : Map ℕ ℕ
  pub next_object : ℕ
  pub next_context : ℕ

abbrev pub new_metrics_daemon : MetricsDaemon
new_metrics_daemon = record {
  targets = [];
  objects = [];
  waiting = [];
  loops = [];
  next_object = 0;
  next_context = 0;
}

abbrev pub get_targets : MetricsDaemon → List String
get_targets d = keys d.targets

-- `tg.cancel()` ends the loop that waits at the context.
abbrev pub cancel_loop : Option ℕ → Map ℕ ℕ → Map ℕ ℕ
cancel_loop none loops = loops
cancel_loop (some c) loops = remove loops c

abbrev pub stop_object : ℕ → Option TargetMetric → MetricsDaemon → MetricsDaemon
stop_object i none d = d
stop_object i (some t) d = record d {
  objects = put d.objects i (record t { cancel = none });
  loops = cancel_loop t.cancel d.loops;
}

-- `TargetMetric.Stop`
unfoldable pub stop_target : ℕ → MetricsDaemon → MetricsDaemon
stop_target i d = stop_object i (get d.objects i) d

abbrev pub is_stopped : TargetMetric → Bool
is_stopped t = elim t.cancel [ none ↦ true | some c ↦ false ]

abbrev pub delete_found : String → Option ℕ → MetricsDaemon → MetricsDaemon
delete_found name none d = d
delete_found name (some i) d = stop_target i (record d { targets = remove d.targets name })

unfoldable pub delete_target : String → MetricsDaemon → MetricsDaemon
delete_target name d = delete_found name (get d.targets name) d

abbrev pub start_target : ℕ → MetricsDaemon → MetricsDaemon
start_target i d = record d { waiting = d.waiting ++ i ∷ [] }

abbrev pub new_target_metric : String → ℤ → List String → SampleFilter → TargetMetric
new_target_metric name interval urls allow_list = record {
  name = name;
  interval = interval;
  urls = urls;
  allow_list = allow_list;
  cancel = none;
}

abbrev pub put_target : String → TargetMetric → MetricsDaemon → MetricsDaemon
put_target name t d = start_target d.next_object (record d {
  targets = put d.targets name d.next_object;
  objects = put d.objects d.next_object t;
  next_object = suc d.next_object;
})

unfoldable pub add_target : String → List String → ℤ → SampleFilter → MetricsDaemon → MetricsDaemon
unfolding delete_target
add_target name urls interval allow_list d =
    put_target name (new_target_metric name interval urls allow_list) (delete_target name d)

start_each : Map String ℕ → MetricsDaemon → MetricsDaemon
start_each [] d = d
start_each ((name, i) ∷ rest) d = start_each rest (start_target i d)

-- `metricsDaemon.Start`
unfoldable pub start_daemon : MetricsDaemon → MetricsDaemon
unfolding start_each
start_daemon d = start_each d.targets d

-- the goroutine `i` is taken out of those that wait
abbrev pub take_out : ℕ → List ℕ → Option (List ℕ)
take_out i [] = none
take_out i (j ∷ rest) =
    let later = take_out i rest in
    if j == i then some rest else elim later [ none ↦ none | some l ↦ some (j ∷ l) ]

-- `TargetMetric.Start` up to its loop: a loop that was started earlier is ended.
abbrev pub begin_object : ℕ → Option TargetMetric → MetricsDaemon → MetricsDaemon
begin_object i none d = d
begin_object i (some t) d = record d {
  objects = put d.objects i (record t { cancel = some d.next_context });
  loops = put (cancel_loop t.cancel d.loops) d.next_context i;
  next_context = suc d.next_context;
}

abbrev pub begin_waiting : ℕ → Option (List ℕ) → MetricsDaemon → Option MetricsDaemon
begin_waiting i none d = none
begin_waiting i (some rest) d =
    some (begin_object i (get d.objects i) (record d { waiting = rest }))

-- A goroutine that waits begins.
unfoldable pub begin_target : ℕ → MetricsDaemon → Option MetricsDaemon
begin_target i d = begin_waiting i (take_out i d.waiting) d

-- One round of a loop. `scrape` is a scraper's request, and `make_scraper` its construction: where
-- that fails there is a nil scraper, which panics when it is used.
pub record Env (W F : Type 0) : Type 0 where
  pub make_scraper : String → Bool
  pub scrape : String → W → Result (List (Scraped F)) × W
  pub add_vector : List (Scraped F) → Map String String → W → Option Err × W

pub data Round (W F : Type 0) : Type 0 where
  collected : List (Scraped F) → W → Round W F
  panicked : W → Round W F

module _ {W F : Type 0} (env : Env W F) where
  kept : SampleFilter → Result (List (Scraped F)) → List (Scraped F)
  kept allow_list (err e) = []
  kept allow_list (ok data_points) = filter allow_list data_points

  and_collected : List (Scraped F) → Round W F → Round W F
  and_collected first (panicked w) = panicked w
  and_collected first (collected rest w) = collected (first ++ rest) w

  -- `Run`
  unfoldable pub run_scrapers : SampleFilter → List String → W → Round W F
  unfolding kept and_collected
  run_scrapers allow_list [] w = collected [] w
  run_scrapers allow_list (url ∷ rest) w =
      let (r, w') = env.scrape url w in
      let more = run_scrapers allow_list rest w' in
      if env.make_scraper url then and_collected (kept allow_list r) more else panicked w

  -- `Store`, with whether it was a success
  unfoldable pub store_vector : TargetMetric → List (Scraped F) → W → Bool × W
  store_vector t samples w =
      let (e, w') = env.add_vector samples (("metric-source", t.name) ∷ []) w in
      (elim e [ none ↦ true | some c ↦ false ], w')

  stored : TargetMetric → Round W F → Option Bool × W
  unfolding store_vector
  stored t (panicked w) = (none, w)
  stored t (collected samples w) = let (ok_run, w') = store_vector t samples w in (some ok_run, w')

  -- `getdata`; `none` is a panic
  unfoldable pub get_data : TargetMetric → W → Option Bool × W
  unfolding stored run_scrapers
  get_data t w = stored t (run_scrapers t.allow_list t.urls w)

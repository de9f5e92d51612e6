-- ===== src/Metrics/Workloads/Started.antt =====
-- The target of a workload that has started.
use mathlib.Core.Path.{subst}
use k4e_device_worker.Prelude.{
  ◌≡◌, refl, sym, ℕ, true, some, List, [], ◌∷◌, String, get, text_key, number_key, ℤ, pos, negsuc,
  ltb_ℤ, arith, get-put_same, Bool-cases, inl, inr,
}
use k4e_device_worker.Workload.Podman.{PodReport}
use k4e_device_worker.Metrics.Daemon.{
  MetricsDaemon, TargetMetric, add_target, delete_target, new_target_metric,
}
use k4e_device_worker.Metrics.Database.{times}
use k4e_device_worker.Metrics.Workloads.{
  Metrics, Workload, WorkloadMetrics, filter_of, interval_of, all_urls, add_metrics, add_configured,
  start_reports, workload_started,
}

-- The daemon has a target of that name, with these addresses and filter, and an interval for which
-- a ticker can be made.
abbrev pub HasTarget : (ℤ → String) → MetricsDaemon → String → List PodReport → Metrics → Type 0
HasTarget format_port d name report m =
    (i : ℕ) × (t : TargetMetric) × (get d.targets name ≡ some i)
    × (get d.objects i ≡ some t)
    × (t.urls ≡ all_urls format_port report m)
    × (t.allow_list ≡ filter_of format_port m.allow_list)
    × (ltb_ℤ (pos 0) t.interval ≡ true)

times-positive : (z : ℤ) → ltb_ℤ (pos 0) z ≡ true → ltb_ℤ (pos 0) (times z 1000000000) ≡ true
times-positive (pos n) h = ground arith
times-positive (negsuc n) h = ground arith

module _ (format_port : ℤ → String) where
  interval_of-positive : (m : Metrics) → ltb_ℤ (pos 0) (interval_of format_port m) ≡ true
  unfolding interval_of
  interval_of-positive m = elim (Bool-cases (ltb_ℤ (pos 0) m.interval)) [
    | inl positive ↦ rw positive (times-positive m.interval positive)
    | inr other ↦ rw other (times-positive (pos 60) refl)
  ]

  put_target-HasTarget :
      (name : String) (report : List PodReport) (m : Metrics) (d : MetricsDaemon)
      → HasTarget format_port (add_metrics format_port name report (some m) d) name report m
  unfolding add_metrics add_target
  put_target-HasTarget name report m d =
      let e = delete_target name d in
      let t =
        new_target_metric name (interval_of format_port m) (all_urls format_port report m)
          (filter_of format_port m.allow_list) in
      (
        e.next_object,
        t,
        get-put_same e.targets name e.next_object,
        get-put_same e.objects e.next_object t,
        refl,
        refl,
        interval_of-positive m,
      )

  -- A workload of the configuration that has metrics is scraped once it has started: the daemon has
  -- a target for it, with the addresses of its containers that are not disabled, the filter of its
  -- allow list, and a positive interval, whatever number the configuration has.
  pub workload_started-HasTarget :
      (name : String) (r : PodReport) (c : WorkloadMetrics) (w : Workload) (m : Metrics)
      (d : MetricsDaemon)
      → get c.workload_config name ≡ some w
      → w.metrics ≡ some m
      → HasTarget format_port (workload_started format_port name (r ∷ []) c d) r.name (r ∷ []) m
  unfolding workload_started start_reports add_configured
  workload_started-HasTarget name r c w m d found metrics =
      subst
        (λ o.
          HasTarget format_port (add_configured format_port r.name (r ∷ []) o d) r.name (r ∷ []) m)
        (sym found)
        (subst
          (λ o.
            HasTarget format_port (add_metrics format_port r.name (r ∷ []) o d) r.name (r ∷ []) m)
          (sym metrics) (put_target-HasTarget r.name (r ∷ []) m d))

-- ===== src/Agent/Kept.antt =====
-- What each part leaves of what an update changes, where it has no error.
use k4e_device_worker.Prelude.{
  ◌≡◌, refl, sym, ap, ◌∙◌, Option, none, some, List, [], ◌∷◌, Err, text_key,
}
use k4e_device_worker.Workload.Manager
use k4e_device_worker.Workload.Reconcile
use k4e_device_worker.Metrics.System.{SystemMetrics, update_system}
use k4e_device_worker.Heartbeat.Ticker
use k4e_device_worker.Agent.{
  DeviceConfiguration, AgentMessage, State, Env, pods_of, error_of_all, update_store,
  update_system_metrics, update_logs, update_manager, update_remote_write, update_os,
  update_monitor, update_ticker, ticking,
}
use k4e_device_worker.Agent.Clean.{field_or, error_or}

module _ {P W F X T C U R B : Type 0} (env : Env P W F X T C U R B) where
  abbrev St : Type 0
  St = State P W T C R B

  -- The fields that the theorem is about
  abbrev pub view : St → P × Manager.Manager × SystemMetrics × Ticker.Ticking
  view s = (s.pods, s.manager, s.system, s.heartbeat)

  pub store_view :
      (c : Option DeviceConfiguration) (s v : St)
      → update_store env c s ≡ some (none, v)
      → view v ≡ view s
  unfolding update_store
  store_view none s v h = cc
  store_view (some c) s v h = sym (ap (field_or env view s) h)

  pub logs_view :
      (msg : AgentMessage) (c : Option DeviceConfiguration) (s v : St)
      → update_logs env msg c s ≡ some (none, v)
      → view v ≡ view s
  unfolding update_logs
  logs_view msg none s v h = cc
  logs_view msg (some c) s v h = sym (ap (field_or env view s) h)

  pub remote_write_view :
      (c : Option DeviceConfiguration) (s v : St)
      → update_remote_write env c s ≡ some (none, v)
      → view v ≡ view s
  unfolding update_remote_write
  remote_write_view c s v h = sym (ap (field_or env view s) h)

  pub os_view :
      (c : Option DeviceConfiguration) (s v : St)
      → update_os env c s ≡ some (none, v)
      → view v ≡ view s
  unfolding update_os
  os_view none s v h = cc
  os_view (some c) s v h = sym (ap (field_or env view s) h)

  pub monitor_view :
      (c : Option DeviceConfiguration) (s v : St)
      → update_monitor env c s ≡ some (none, v)
      → view v ≡ view s
  unfolding update_monitor
  monitor_view c s v h = sym (ap (field_or env view s) h)

  -- What the metrics of the system, the workload manager and the ticker leave
  pub system_told :
      (c : Option DeviceConfiguration) (d : DeviceConfiguration) (s v : St)
      → c ≡ some d
      → update_system_metrics env c s ≡ some (none, v)
      → ((update_system env.exporter d.system s.system s.rest).0 ≡ none)
        × (v.system ≡ (update_system env.exporter d.system s.system s.rest).1)
        × (v.pods ≡ s.pods)
        × (v.manager ≡ s.manager)
        × (v.heartbeat ≡ s.heartbeat)
  unfolding update_system_metrics
  system_told none d s v h told = cc
  system_told (some c) d s v h told =
      let same : c ≡ d = cc in
      let error : (update_system env.exporter c.system s.system s.rest).0 ≡ none =
        ap (error_or env) told in
      let made : v.system ≡ (update_system env.exporter c.system s.system s.rest).1 =
        sym (ap (field_or env (λ x. x.system) s) told) in
      (
        ap (λ x. (update_system env.exporter x.system s.system s.rest).0) (sym same) ∙ error,
        made ∙ ap (λ x. (update_system env.exporter x.system s.system s.rest).1) same,
        sym (ap (field_or env (λ x. x.pods) s) told),
        sym (ap (field_or env (λ x. x.manager) s) told),
        sym (ap (field_or env (λ x. x.heartbeat) s) told),
      )

  abbrev pub config_of : AgentMessage → Manager.Config
  config_of msg = record { secrets = msg.secrets; workloads = pods_of msg.workloads }

  no_errors : (es : List Err) → error_of_all env es ≡ none → es ≡ []
  no_errors [] h = refl
  no_errors (e ∷ es) h = cc

  pub manager_told :
      (msg : AgentMessage) (s v : St)
      → update_manager env msg s ≡ some (none, v)
      → ((Reconcile.update env.manager env.dirs (config_of msg) (s.manager, s.pods)).0 ≡ [])
        × (v.pods ≡ (Reconcile.update env.manager env.dirs (config_of msg) (s.manager, s.pods)).1.1)
        × (v.system ≡ s.system)
        × (v.heartbeat ≡ s.heartbeat)
  unfolding update_manager
  manager_told msg s v told = (
    no_errors (Reconcile.update env.manager env.dirs (config_of msg) (s.manager, s.pods)).0
        (ap (error_or env) told),
    sym (ap (field_or env (λ x. x.pods) s) told),
    sym (ap (field_or env (λ x. x.system) s) told),
    sym (ap (field_or env (λ x. x.heartbeat) s) told),
  )

  ticking_told :
      (o : Option Ticker.Ticking) (s v : St)
      → ticking env s o ≡ some (none, v)
      → (o ≡ some v.heartbeat) × (v.pods ≡ s.pods) × (v.system ≡ s.system)
  unfolding ticking
  ticking_told none s v told = cc
  ticking_told (some h) s v told = (
    ap (λ (x : Ticker.Ticking). some x) (ap (field_or env (λ x. x.heartbeat) s) told),
    sym (ap (field_or env (λ x. x.pods) s) told),
    sym (ap (field_or env (λ x. x.system) s) told),
  )

  pub ticker_told :
      (c : Option DeviceConfiguration) (d : DeviceConfiguration) (s v : St)
      → c ≡ some d
      → update_ticker env c s ≡ some (none, v)
      → (Ticker.update_heartbeat d.heartbeat_period s.heartbeat ≡ some v.heartbeat)
        × (v.pods ≡ s.pods)
        × (v.system ≡ s.system)
  unfolding update_ticker
  ticker_told none d s v h told = cc
  ticker_told (some c) d s v h told =
      let same : c ≡ d = cc in
      let (beats, pods, system) =
        ticking_told (Ticker.update_heartbeat c.heartbeat_period s.heartbeat) s v told in
      (
        ap (λ x. Ticker.update_heartbeat x.heartbeat_period s.heartbeat) (sym same) ∙ beats,
        pods,
        system,
      )

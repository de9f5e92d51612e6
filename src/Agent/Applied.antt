-- ===== src/Agent/Applied.antt =====
-- What an update of the whole agent without errors leaves.
use mathlib.Core.Path.{subst}
use k4e_device_worker.Prelude.{
  ◌≡◌, sym, ap, ◌∙◌, true, false, not, none, some, List, [], String, contains, has, text_key,
}
use k4e_device_worker.Workload.Manager
use k4e_device_worker.Workload.Reconcile
use k4e_device_worker.Workload.Reconcile.Stale.{KeepsWorkloads, update-configured}
use k4e_device_worker.Metrics.System.{SystemMetrics, expected_configuration}
use k4e_device_worker.Metrics.System.Settled.{IsSettled, update_system-IsSettled}
use k4e_device_worker.Heartbeat.Ticker
use k4e_device_worker.Agent.{
  DeviceConfiguration, AgentMessage, State, Env, registered, pods_of, update_part,
  update_system_metrics, update_manager, update_ticker, metrics_store, workload_metrics,
  system_metrics, logs_target, workload_manager, remote_write, device_os, data_monitor,
  heartbeat_service,
}
use k4e_device_worker.Agent.Told.{tell_parts}
use k4e_device_worker.Agent.Clean.{field_or, first_told, last_told}
use k4e_device_worker.Agent.Kept.{
  view, store_view, logs_view, remote_write_view, os_view, monitor_view, system_told, config_of,
  manager_told, ticker_told,
}

module _ {P W F X T C U R B : Type 0} (env : Env P W F X T C U R B) where
  abbrev St : Type 0
  St = State P W T C R B

  abbrev pub IsApplied : (P → List String) → DeviceConfiguration → AgentMessage → St → St → Type 0
  IsApplied deployed c msg s u =
      ((j : String)
        → contains j (deployed u.pods) ≡ true
        → contains j (Reconcile.names_of (pods_of msg.workloads)) ≡ true)
      × (has u.system.daemon.targets "system" ≡ not (expected_configuration c.system).disabled)
      × (Ticker.update_heartbeat c.heartbeat_period s.heartbeat ≡ some u.heartbeat)

  -- The three parts that the theorem is about, between states that agree on what it is about
  of_three :
      (deployed : P → List String) (c : DeviceConfiguration) (msg : AgentMessage)
      (s v2 v3 v4 v5 v8 u : St)
      → KeepsWorkloads env.manager deployed
      → s.manager.deregistered ≡ false
      → IsSettled s.system
      → msg.configuration ≡ some c
      → view env v2 ≡ view env s
      → update_system_metrics env msg.configuration v2 ≡ some (none, v3)
      → view env v4 ≡ view env v3
      → update_manager env msg v4 ≡ some (none, v5)
      → view env v8 ≡ view env v5
      → update_ticker env msg.configuration v8 ≡ some (none, u)
      → IsApplied deployed c msg s u
  of_three deployed c msg s v2 v3 v4 v5 v8 u laws running settled has_one before system between
        manager after ticker =
      let (no_error, system3, pods3, manager3, heart3) =
        system_told env msg.configuration c v2 v3 has_one system in
      let (clean, pods5, system5, heart5) = manager_told env msg v4 v5 manager in
      let (beats, pods9, system9) = ticker_told env msg.configuration c v8 u has_one ticker in
      let manager4 = ap (λ x. x.1) between ∙ (manager3 ∙ ap (λ x. x.1) before) in
      let heart8 =
        ap (λ x. x.3) after
        ∙ (heart5 ∙ (ap (λ x. x.3) between ∙ (heart3 ∙ ap (λ x. x.3) before))) in
      (
        (λ j left.
            update-configured env.manager env.dirs deployed laws (config_of env msg) v4.manager
              v4.pods (ap (λ (x : Manager.Manager). x.deregistered) manager4 ∙ running) clean j
              (ap (λ p. contains j (deployed p)) (sym (pods9 ∙ (ap (λ x. x.0) after ∙ pods5)))
                ∙ left)),
        ap (λ (x : SystemMetrics). has x.daemon.targets "system")
              (system9 ∙ (ap (λ x. x.2) after ∙ (system5 ∙ (ap (λ x. x.2) between ∙ system3))))
            ∙ ((update_system-IsSettled env.exporter c.system v2.system v2.rest
                  (subst (λ x. IsSettled x) (sym (ap (λ x. x.2) before)) settled)).1
                no_error).0,
        ap (Ticker.update_heartbeat c.heartbeat_period) (sym heart8) ∙ beats,
      )

  -- If all parts were told without an error, no workload is left that is not in the message, the
  -- target of the system is scraped if the message does not disable it, and the heartbeat has the
  -- ticker of its period.
  pub all_told :
      (deployed : P → List String) (c : DeviceConfiguration) (msg : AgentMessage) (s u : St)
      → KeepsWorkloads env.manager deployed
      → s.manager.deregistered ≡ false
      → IsSettled s.system
      → msg.configuration ≡ some c
      → tell_parts env registered msg [] s ≡ some ([], u)
      → IsApplied deployed c msg s u
  unfolding update_part
  all_told deployed c msg s u laws running settled has_one h0 =
      let (v1, store, h1) = first_told env metrics_store _ msg s u h0 in
      let (v2, metrics, h2) = first_told env workload_metrics _ msg v1 u h1 in
      let (v3, system, h3) = first_told env system_metrics _ msg v2 u h2 in
      let (v4, logs, h4) = first_told env logs_target _ msg v3 u h3 in
      let (v5, manager, h5) = first_told env workload_manager _ msg v4 u h4 in
      let (v6, writer, h6) = first_told env remote_write _ msg v5 u h5 in
      let (v7, os, h7) = first_told env device_os _ msg v6 u h6 in
      let (v8, monitor, h8) = first_told env data_monitor _ msg v7 u h7 in
      let (v9, ticker, h9) = first_told env heartbeat_service _ msg v8 u h8 in
      subst (λ x. IsApplied deployed c msg s x) (last_told env msg v9 u h9)
        (of_three deployed c msg s v2 v3 v4 v5 v8 v9 laws running settled has_one
          (sym (ap (field_or env (view env) v1) metrics)
            ∙ store_view env msg.configuration s v1 store)
          system (logs_view env msg msg.configuration v3 v4 logs) manager
          (monitor_view env msg.configuration v7 v8 monitor
            ∙ (os_view env msg.configuration v6 v7 os
                ∙ remote_write_view env msg.configuration v5 v6 writer))
          ticker)

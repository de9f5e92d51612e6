-- ===== src/Agent/Updated.antt =====
-- An update of the agent by way of its configuration manager.
use mathlib.Core.Path.{subst}
use k4e_device_worker.Prelude.{
  ◌≡◌, refl, sym, ap, ◌∙◌, true, false, Option, none, some, List, [], ◌∷◌, ◌++◌, String, Key, Err,
  Result, ok, err, ◌⧺◌,
}
use k4e_device_worker.Configuration.{Manager, notify, should_update, save, save_told, saved, update}
use k4e_device_worker.Configuration
use k4e_device_worker.Workload.Reconcile.Stale.{KeepsWorkloads}
use k4e_device_worker.Metrics.System.Settled.{IsSettled}
use k4e_device_worker.Agent.{
  DeviceConfiguration, Configured, AgentMessage, State, Env, registered, Process, observers_of,
  files_of, held_by, file_written, written_by,
}
use k4e_device_worker.Agent.Told.{Follows, tell_parts, notify-Follows}
use k4e_device_worker.Agent.Applied.{IsApplied, all_told}

module _ {P W F X T C U R B : Type 0} (env : Env P W F X T C U R B)
    ⦃same_c : Key (Option DeviceConfiguration)⦄ ⦃same_l : Key (List Configured)⦄
    (files : Configuration.Env (Option DeviceConfiguration) (List Configured) W)
    (fallback : AgentMessage) where
  abbrev Mgr : Type 0
  Mgr = Manager (Option DeviceConfiguration) (List Configured) (Process env)

  abbrev Saved : Type 0
  Saved = List Err × Mgr × Process env

  -- The parts are what the parts left, but for the rest, which the file of the configuration is in.
  abbrev SavedFrom : AgentMessage → State P W T C R B → List Err × Process env → Mgr → Type 0
  SavedFrom msg t x m' =
      (u : State P W T C R B) × (x ≡ ([], some u))
      × (t ≡ record u { rest = t.rest })
      × (m'.device_configuration ≡ msg)

  last_error : {A : Type 0} (errors : List Err) (e : Err) → errors ++ e ∷ [] ≡ [] → A
  last_error [] e h = cc
  last_error (x ∷ xs) e h = cc

  process_or : State P W T C R B → Process env → State P W T C R B
  process_or u none = u
  process_or u (some t) = t

  written_from :
      (msg : AgentMessage) (m m' : Mgr) (errors : List Err) (u t : State P W T C R B)
      (y : Option Err × W)
      → saved (files_of env files) fallback msg m errors (file_written env y u) ≡ ([], m', some t)
      → SavedFrom msg t (errors, some u) m'
  unfolding saved process_or
  written_from msg m m' errors u t (some e, w) h = cc
  written_from msg m m' errors u t (none, w) h =
      let same : record u { rest = w } ≡ t = ap (λ (x : Saved). process_or u x.2) h in
      (
        u,
        ap (λ (x : Saved). (x.0, some u)) h,
        subst (λ (v : State P W T C R B). v ≡ record u { rest = v.rest }) same refl,
        sym (ap (λ (x : Saved). x.1.device_configuration) h),
      )

  save_from :
      (msg : AgentMessage) (m m' : Mgr) (r : Result String) (x : List Err × Process env)
      (t : State P W T C R B)
      → save (files_of env files) fallback msg m r x ≡ ([], m', some t)
      → SavedFrom msg t x m'
  unfolding save saved files_of written_by
  save_from msg m m' (err e) (errors, p) t h =
      last_error errors ("cannot unmarshal message JSON: " ⧺ e) (ap (λ (x : Saved). x.0) h)
  save_from msg m m' (ok text) (errors, none) t h = cc
  save_from msg m m' (ok text) (errors, some u) t h =
      written_from msg m m' errors u t (files.write_file text u.rest) h

  told_from :
      (msg : AgentMessage) (s u : State P W T C R B) (o : Option (List Err × State P W T C R B))
      → Follows env o ([], some u)
      → o ≡ some ([], u)
  told_from msg s u none h = cc
  told_from msg s u (some (errors, v)) h = cc

  -- An update of an agent whose parts are all registered, whose workload manager was not
  -- deregistered and whose metrics of the system are settled (the target of the system is scraped
  -- as the configuration that was applied last wants it): if it has something to change, reports no
  -- error and does not end the process, then the manager keeps the message with the labels that the
  -- workload manager wrote into it; no workload is on the device that is not in the message, if the
  -- wrapper lists and removes as it documents; the target of the system is scraped exactly if the
  -- message does not disable it; and the heartbeat has the ticker of the message's period.
  pub update-IsApplied :
      (deployed : P → List String) (c : DeviceConfiguration) (msg : AgentMessage) (m m' : Mgr)
      (s t : State P W T C R B)
      → KeepsWorkloads env.manager deployed
      → s.manager.deregistered ≡ false
      → IsSettled s.system
      → msg.configuration ≡ some c
      → m.observers ≡ observers_of env registered
      → should_update (files_of env files) fallback msg m ≡ true
      → update (files_of env files) fallback msg m (some s) ≡ ([], m', some t)
      → (m'.device_configuration ≡ env.labelled msg t.pods) × IsApplied env deployed c msg s t
  unfolding update save_told files_of held_by
  update-IsApplied deployed c msg m m' s t laws running settled has_one all should h =
      let x = notify (files_of env files) fallback msg m.observers [] (some s) in
      let (u, told, rest, config) =
        save_from (held_by env msg x.1) m m'
          (Configuration.Env.marshal (files_of env files) (held_by env msg x.1)) x t
          (sym (rw should) ∙ h) in
      let follows =
        subst
          (λ os.
            Follows env (tell_parts env registered msg [] s)
              (notify (files_of env files) fallback msg os [] (some s)))
          (sym all) (notify-Follows env (files_of env files) fallback registered msg [] s) in
      let applied = all_told env deployed c msg s u laws running settled has_one (
        told_from msg s u (tell_parts env registered msg [] s)
          (subst (λ y. Follows env (tell_parts env registered msg [] s) y) told follows)) in
      let labels = ap (λ y. held_by env msg y.1) told in
      (
        config ∙ (labels ∙ sym (ap (λ v. env.labelled msg v.pods) rest)),
        subst (λ v. IsApplied env deployed c msg s v) (sym rest) applied,
      )

-- ===== src/Agent/Ended.antt =====
-- A message without a configuration ends the process.
use mathlib.Core.Path.{subst}
use k4e_device_worker.Prelude.{
  ◌≡◌, refl, ap, ◌∙◌, Bool, true, false, Option, none, some, List, [], ◌∷◌, ◌++◌, String, Key, Err,
  Result, ok, err, ℤ, beq_ne, ◌==◌, Bool-cases, inl, inr,
}
use k4e_device_worker.Configuration.{
  Manager, Message, save_told, notify, should_update, is_equal_unordered_secret_lists, save, saved,
  update, new_configuration_manager, from_file, read_config, register_observer,
}
use k4e_device_worker.Configuration
use k4e_device_worker.Server.{Data, send, run_playbook}
use k4e_device_worker.Agent.{
  DeviceConfiguration, Configured, AgentMessage, State, Part, Env, registered, update_part,
  update_store, Process, of_outcome, told, observer_of, observers_of, files_of, held_by, read_by,
  written_by, Agent, update_agent, register_parts, start_agent, server_of, init_part, metrics_store,
  workload_metrics, system_metrics, logs_target, workload_manager, remote_write, device_os,
  data_monitor, heartbeat_service,
}
use k4e_device_worker.Agent.Told.{Follows, tell_parts, after_part, notify_ended, notify-Follows}

module _ {P W F X T C U R B : Type 0} (env : Env P W F X T C U R B)
    ⦃same_c : Key (Option DeviceConfiguration)⦄ ⦃same_l : Key (List Configured)⦄
    (files : Configuration.Env (Option DeviceConfiguration) (List Configured) W)
    (fallback : AgentMessage) where
  abbrev Mgr : Type 0
  Mgr = Manager (Option DeviceConfiguration) (List Configured) (Process env)

  not_same :
      (old : Option DeviceConfiguration) (c : DeviceConfiguration)
      (new : Option DeviceConfiguration)
      → old ≡ some c
      → new ≡ none
      → (new == old) ≡ false
  not_same old c new h k = beq_ne new old (λ e. cc)

  should_update_changed :
      (msg : AgentMessage) (m : Mgr)
      → (msg.configuration == m.device_configuration.configuration) ≡ false
      → should_update (files_of env files) fallback msg m ≡ true
  unfolding should_update
  should_update_changed msg m h = elim (Bool-cases m.initial_config) [
    | inl initial ↦ rw initial refl
    | inr later ↦ rw (later, h) refl
  ]

  save_ended :
      (msg : AgentMessage) (m : Mgr) (r : Result String) (x : List Err × Process env)
      → x.1 ≡ none
      → (save (files_of env files) fallback msg m r x).2 ≡ none
  unfolding save saved files_of written_by
  save_ended msg m (err e) (errors, p) h = h
  save_ended msg m (ok text) (errors, none) h = refl
  save_ended msg m (ok text) (errors, some s) h = cc

  first_panics :
      (msg : AgentMessage) (p : Process env)
      → msg.configuration ≡ none
      → (notify (files_of env files) fallback msg (observers_of env registered) [] p).1 ≡ none
  unfolding tell_parts after_part update_part update_store
  first_panics msg none h = notify_ended env (files_of env files) fallback registered msg []
  first_panics msg (some s) h =
      let panics : update_store env msg.configuration s ≡ none = ap (λ c. update_store env c s) h in
      let all : tell_parts env registered msg [] s ≡ none = rw h refl in
      subst
        (λ o.
          Follows env o
            (notify (files_of env files) fallback msg (observers_of env registered) [] (some s)))
        all (notify-Follows env (files_of env files) fallback registered msg [] s)

  -- A message without a configuration differs from the one that the manager has, so it is passed on.
  update_agent_ended :
      (msg : AgentMessage) (m : Mgr) (p : Process env) (c : DeviceConfiguration)
      → msg.configuration ≡ none
      → m.observers ≡ observers_of env registered
      → m.device_configuration.configuration ≡ some c
      → (update_agent env files fallback msg (m, p)).1.1 ≡ none
  unfolding update_agent update save_told
  update_agent_ended msg m p c none_sent all has_one =
      let should =
        should_update_changed msg m
          (not_same m.device_configuration.configuration c msg.configuration has_one none_sent) in
      let told_all =
        ap (λ os. (notify (files_of env files) fallback msg os [] p).1) all
        ∙ first_panics msg p none_sent in
      rw should (
        let x = notify (files_of env files) fallback msg m.observers [] p in
        let left = held_by env msg x.1 in
        save_ended left m (Configuration.Env.marshal (files_of env files) left) x told_all)

  -- A message of the operator whose content cannot be read, or holds no configuration, such as one
  -- with a playbook, ends the process, whether or not a playbook was run before, if the manager has
  -- a configuration and all parts are registered as main.go does it: the first part panics.
  pub send_ended :
      (unmarshal : String → Option Err × AgentMessage) (atoi : String → Result ℤ)
      (handle_playbook : String
        → ℤ
        → Agent env files fallback
        → Option Err × Agent env files fallback)
      (deregister : Agent env files fallback → Option Err × Agent env files fallback)
      (with_ansible : Bool) (d : Data) (a : Agent env files fallback) (c : DeviceConfiguration)
      → (unmarshal d.content).1.configuration ≡ none
      → (run_playbook
          (server_of env files fallback unmarshal atoi handle_playbook deregister)
          with_ansible
          d
          a).0.observers
        ≡ observers_of env registered
      → (run_playbook
          (server_of env files fallback unmarshal atoi handle_playbook deregister)
          with_ansible
          d
          a).0.device_configuration.configuration
        ≡ some c
      → (send
          (server_of env files fallback unmarshal atoi handle_playbook deregister)
          with_ansible
          d
          a).1
        ≡ none
  unfolding send server_of
  send_ended unmarshal atoi handle_playbook deregister with_ansible d a c none_sent all has_one =
      let b =
        run_playbook (server_of env files fallback unmarshal atoi handle_playbook deregister)
          with_ansible d a in
      update_agent_ended (unmarshal d.content).1 b.0 b.1 c none_sent all has_one

  registered_ended :
      (parts : List Part) (m : Mgr) → (register_parts env files fallback parts (m, none)).1 ≡ none
  unfolding register_parts register_observer observer_of told
  registered_ended [] m = refl
  registered_ended (part ∷ rest) m =
      registered_ended rest (record m { observers = m.observers ++ observer_of env part ∷ [] })

  first_registered_ended :
      (m : Mgr) (s : State P W T C R B)
      → m.device_configuration.configuration ≡ none
      → (register_parts env files fallback registered (m, some s)).1 ≡ none
  unfolding register_parts register_observer observer_of told init_part update_part update_store
  first_registered_ended m s h =
      let later =
        workload_metrics ∷ system_metrics ∷ logs_target ∷ workload_manager ∷ remote_write
        ∷ device_os ∷ data_monitor ∷ heartbeat_service ∷ [] in
      let panics = ap (λ c. (of_outcome env (update_store env c s)).1) h in
      let m' : Mgr = record m { observers = m.observers ++ observer_of env metrics_store ∷ [] } in
      ap (λ p. (register_parts env files fallback later (m', p)).1) panics
      ∙ registered_ended later m'

  -- An agent whose file of the configuration holds a message without a configuration does not come
  -- to the end of its start: the first part that is registered panics, each time it is started.
  pub start_agent_ended :
      (s : State P W T C R B) (text : String) (msg : AgentMessage)
      → files.read_file s.rest ≡ ok text
      → files.unmarshal text ≡ ok msg
      → msg.configuration ≡ none
      → (start_agent env files fallback s).1 ≡ none
  unfolding start_agent new_configuration_manager files_of read_by from_file
  start_agent_ended s text msg reads decodes none_sent =
      let m : Mgr = record { device_configuration = msg; observers = []; initial_config = false } in
      let made : new_configuration_manager (files_of env files) fallback (some s) ≡ m =
        ap (from_file (files_of env files) fallback) reads
        ∙ ap (read_config (files_of env files) fallback) decodes in
      ap (λ m'. (register_parts env files fallback registered (m', some s)).1) made
      ∙ first_registered_ended m s none_sent

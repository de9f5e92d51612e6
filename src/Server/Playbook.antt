-- ===== src/Server/Playbook.antt =====
-- What a playbook does to the workloads.
use k4e_device_worker.Prelude.{
  ◌≡◌, refl, sym, ap, ◌∙◌, Bool, true, false, List, [], String, contains, text_key,
}
use k4e_device_worker.Workload.Pods.{Dirs}
use k4e_device_worker.Workload.Manager.{Env as ManagerEnv, Config, State}
use k4e_device_worker.Workload.Reconcile.{update, names_of}
use k4e_device_worker.Workload.Reconcile.Stale.{KeepsWorkloads, update-configured}
use k4e_device_worker.Server.{Env, Data, send, run_playbook}

abbrev pub no_config : Config
no_config = record { secrets = []; workloads = [] }

not_true : (b : Bool) → (b ≡ true → false ≡ true) → b ≡ false
not_true true h = sym (h refl)
not_true false h = refl

module _ {W X : Type 0} (env : ManagerEnv W X) (dirs : Dirs) (deployed : W → List String)
    (laws : KeepsWorkloads env deployed) (server : Env (State env dirs) Config) where
  -- A message whose content is no configuration, such as a playbook, is passed on as an empty
  -- configuration: if the workload manager applies what it is given without an error, no workload is
  -- left on the device, whatever ran before.
  pub send_unreadable_clears :
      ((config : Config) (st : State env dirs)
        → (server.update_config config st).1 ≡ (update env dirs config st).1)
      → (with_ansible : Bool) (d : Data) (st : State env dirs)
      → (server.unmarshal d.content).1 ≡ no_config
      → (run_playbook server with_ansible d st).0.deregistered ≡ false
      → (update env dirs no_config (run_playbook server with_ansible d st)).0 ≡ []
      → (j : String) → contains j (deployed (send server with_ansible d st).1) ≡ false
  unfolding send names_of
  send_unreadable_clears applies with_ansible d st unread running no_errors j =
      let st1 = run_playbook server with_ansible d st in
      let result : send server with_ansible d st ≡ (update env dirs no_config st1).1 =
        ap (λ c. (server.update_config c st1).1) unread ∙ applies no_config st1 in
      ap (λ v. contains j (deployed v.1)) result
      ∙ not_true (contains j (deployed (update env dirs no_config st1).1.1))
          (update-configured env dirs deployed laws no_config st1.0 st1.1 running no_errors j)

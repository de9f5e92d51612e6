-- ===== src/Ansible/Manager/Resumed.antt =====
-- What `ExecutePendingPlaybooks` reports to the operator.
use k4e_device_worker.Prelude.{
  ◌≡◌, refl, sym, ap, ◌∙◌, Option, List, [], ◌∷◌, ◌++◌, String, Result, ok, err, Err, continue,
  kept_both, collect, append-nil,
}
use k4e_device_worker.Ansible.Mapping.{get_all}
use k4e_device_worker.Ansible.Records.{Results}
use k4e_device_worker.Ansible.Manager.{
  Env, State, forget_playbook, finish_sync, run_read, exec_playbook_sync, execute_all, report,
  execute_pending_playbooks, paths,
}

module _ {W : Type 0} (env : Env W) where
  abbrev HasQueue : List String → State env → Type 0
  HasQueue q s = s.0.events_queue ≡ q

  finish_sync-queue :
      (content : String) (err_run : Option Err) (x : Result (Option Results)) (s : State env)
      → (finish_sync env content err_run x s).1.0.events_queue ≡ s.0.events_queue
  unfolding finish_sync forget_playbook
  finish_sync-queue content err_run (err e) s = refl
  finish_sync-queue content err_run (ok results) (m, w) = refl

  run_read-queue :
      (file : String) (x : Result String) (s : State env)
      → (run_read env file x s).1.0.events_queue ≡ s.0.events_queue
  unfolding run_read
  run_read-queue file (err e) s = refl
  run_read-queue file (ok content) (m, w) =
      let ran = env.run file w in
      finish_sync-queue content ran.0.0 (env.results_of ran.0.1) (m, ran.1)

  execute_all-queue :
      (q : List String) (files : List String) (errors : List Err) (s : State env)
      → HasQueue q s
      → HasQueue q (execute_all env files errors s).1
  unfolding execute_all exec_playbook_sync
  execute_all-queue q [] errors s h = h
  execute_all-queue q (file ∷ rest) errors s h =
      kept_both (HasQueue q) (exec_playbook_sync env file)
        (λ (r : Option Results × Option Err). execute_all env rest (collect errors r.1))
        (λ s h. run_read-queue file (env.read_file file s.1) s ∙ h)
        (λ r s h. execute_all-queue q rest (collect errors r.1) s h) s h

  -- What is put into the queue for a result of the whole.
  abbrev pub queued : Result (List Err) → List String
  queued (err e) = []
  queued (ok []) = []
  queued (ok (e ∷ es)) = env.join_errors (e ∷ es) ∷ []

  report-queue :
      (errors : List Err) (s : State env)
      → (report env errors s).1.0.events_queue ≡ s.0.events_queue ++ queued (report env errors s).0
  unfolding report
  report-queue [] s = sym (append-nil s.0.events_queue)
  report-queue (e ∷ es) (m, w) = refl

  reported :
      (q : List String) (x : Result (List Err) × State env)
      → HasQueue q x.1
      → (continue x.0 x.1 (report env)).1.0.events_queue
        ≡ q ++ queued (continue x.0 x.1 (report env)).0
  reported q (err e, s) h = h ∙ sym (append-nil q)
  reported q (ok errors, s) h =
      report-queue errors s ∙ ap (λ l. l ++ queued (report env errors s).0) h

  -- The operator is told of the playbooks that failed by one event that joins their errors, if every
  -- file could be read and every output parsed. Otherwise the queue stays as it was: the error is
  -- only returned, and the errors of the playbooks that ran before are not reported.
  pub execute_pending_playbooks-queue :
      (s : State env)
      → (execute_pending_playbooks env s).1.0.events_queue
        ≡ s.0.events_queue ++ queued (execute_pending_playbooks env s).0
  unfolding execute_pending_playbooks
  execute_pending_playbooks-queue (m, w) =
      reported m.events_queue (execute_all env (paths env (get_all m.mapping)) [] (m, w))
        (execute_all-queue m.events_queue (paths env (get_all m.mapping)) [] (m, w) refl)

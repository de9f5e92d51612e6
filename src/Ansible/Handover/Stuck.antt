-- ===== src/Ansible/Handover/Stuck.antt =====
-- What becomes of the executor when the handler's time is over.
use k4e_device_worker.Prelude.{
  ◌≡◌, refl, sym, ap, ◌∙◌, ℕ, suc, true, Option, none, some, String, ℤ, Result, ok, err, Err,
  has-put, integer_key, Bool-cases, inl, inr, arith,
}
use mathlib.Core.Path.{subst}
use k4e_device_worker.Ansible.Mapping.{Playbooks, is_pending, add_playbook, add_written, file_of}
use k4e_device_worker.Ansible.Manager.{Env, Accepted}
use k4e_device_worker.Ansible.Records.{Results}
use k4e_device_worker.Ansible.Handover.{
  timed_out, Executor, starting, running, handing, forgetting, signalling, ended, Choice, goes_on,
  hands_over, signals, times_out, State, Steps, done, then_step, step, go_on, hand_over, signal,
  time_out, start_playbook, run_playbook, added, add_read, parsed,
}

-- The executor has a send before it, and is not about to take its playbook out of the mapping.
abbrev pub NeedsHandler : Executor → Type 0
NeedsHandler starting = Unit {0}
NeedsHandler (running content) = Unit {0}
NeedsHandler (handing content results err_run) = Unit {0}
NeedsHandler (forgetting content err_run) = ⊥
NeedsHandler (signalling e) = Unit {0}
NeedsHandler ended = ⊥

module _ {W : Type 0} (env : Env W) (a : Accepted) (message_id : String) (t : ℤ) where
  -- The handler is gone, the executor needs it, and what was pending is.
  abbrev IsStuck : Playbooks → State W → Type 0
  IsStuck before s =
      (s.handler ≡ timed_out)
      × NeedsHandler s.executor
      × ((j : ℤ) → is_pending before j ≡ true → is_pending s.manager.mapping j ≡ true)

  -- What a step of the executor alone keeps.
  abbrev Keeps : State W → State W → Type 0
  Keeps s v =
      (v.handler ≡ s.handler)
      × NeedsHandler v.executor
      × ((j : ℤ) → is_pending s.manager.mapping j ≡ true → is_pending v.manager.mapping j ≡ true)

  add_written-is_pending :
      (path : String) (m : Playbooks) (x : Option Err × W) (j : ℤ)
      → is_pending m j ≡ true
      → is_pending (add_written env.mapping_env path t m x).1 j ≡ true
  unfolding add_written is_pending
  add_written-is_pending path m (some e, w) j h = h
  add_written-is_pending path m (none, w) j h =
      ground (arith, has-put m.mod_time_to_path t j path, h)

  added-Keeps :
      (content : String) (s : State W) (x : Option Err × Playbooks × W)
      → ((j : ℤ) → is_pending s.manager.mapping j ≡ true → is_pending x.1 j ≡ true)
      → Keeps s (added env a message_id t content s x)
  unfolding added
  added-Keeps content s (some e, mapping, w) kept = (refl, tt, kept)
  added-Keeps content s (none, mapping, w) kept = (refl, tt, kept)

  add_read-Keeps : (s : State W) (r : Result String) → Keeps s (add_read env a message_id t s r)
  unfolding add_read add_playbook
  add_read-Keeps s (err e) = (refl, tt, λ j h. h)
  add_read-Keeps s (ok content) =
      let path = file_of env.mapping_env s.manager.mapping content in
      added-Keeps content s (add_playbook env.mapping_env content t s.manager.mapping s.world) (
        add_written-is_pending path s.manager.mapping
          (env.mapping_env.write_file path content s.world))

  start_playbook-Keeps : (s : State W) → Keeps s (start_playbook env a message_id t s)
  unfolding start_playbook
  start_playbook-Keeps s = elim (Bool-cases (is_pending s.manager.mapping t)) [
    | inl there ↦ rw there (refl, tt, λ j h. h)
    | inr fresh ↦ rw fresh (add_read-Keeps s (env.read_file a.playbook_file s.world))
  ]

  parsed-NeedsHandler :
      (content : String) (err_run : Option Err) (r : Result (Option Results))
      → NeedsHandler (parsed env a message_id t content err_run r)
  unfolding parsed
  parsed-NeedsHandler content err_run (err e) = tt
  parsed-NeedsHandler content err_run (ok results) = tt

  run_playbook-Keeps :
      (content : String) (s : State W) → Keeps s (run_playbook env a message_id t content s)
  unfolding run_playbook
  run_playbook-Keeps content s =
      let ran = env.run a.playbook_file s.world in
      (refl, parsed-NeedsHandler content ran.0.0 (env.results_of ran.0.1), λ j h. h)

  abbrev or_else : State W → Option (State W) → State W
  or_else s none = s
  or_else s (some v) = v

  go_on-Keeps :
      (x : Executor) (s v : State W)
      → NeedsHandler x
      → go_on env a message_id t x s ≡ some v
      → Keeps s v
  unfolding go_on
  go_on-Keeps starting s v needs h =
      subst (λ z. Keeps s z) (ap (or_else s) h) (start_playbook-Keeps s)
  go_on-Keeps (running content) s v needs h =
      subst (λ z. Keeps s z) (ap (or_else s) h) (run_playbook-Keeps content s)
  go_on-Keeps (handing content results err_run) s v needs h = cc
  go_on-Keeps (forgetting content err_run) s v needs h = absurd needs
  go_on-Keeps (signalling e) s v needs h = cc
  go_on-Keeps ended s v needs h = absurd needs

  step-IsStuck :
      (before : Playbooks) (c : Choice) (s v : State W)
      → step env a message_id t c s ≡ some v
      → IsStuck before s
      → IsStuck before v
  unfolding step hand_over signal time_out
  step-IsStuck before goes_on s v made (out, needs, kept) =
      let (same, needs', more) = go_on-Keeps s.executor s v needs made in
      (same ∙ out, needs', λ j h. more j (kept j h))
  step-IsStuck before hands_over s v made (out, needs, kept) =
      let bad = sym (ap (λ h. hand_over env a message_id t h s.executor s) out) ∙ made in cc
  step-IsStuck before signals s v made (out, needs, kept) =
      let bad = sym (ap (λ h. signal env a message_id t h s.executor s) out) ∙ made in cc
  step-IsStuck before times_out s v made (out, needs, kept) =
      let bad = sym (ap (λ h. time_out env a message_id t h s) out) ∙ made in cc

  -- Once the handler's time is over while the executor has a send before it and is not about to take
  -- its playbook out of the mapping, the executor never comes to its end, however far the two go on,
  -- and every playbook that was pending stays pending.
  pub Steps_timed_out :
      (n : ℕ) (s v : State W)
      → Steps env a message_id t n s v
      → s.handler ≡ timed_out
      → NeedsHandler s.executor
      → (v.handler ≡ timed_out)
        × NeedsHandler v.executor
        × ((j : ℤ) → is_pending s.manager.mapping j ≡ true → is_pending v.manager.mapping j ≡ true)
  Steps_timed_out n s v (done) out here = (out, here, λ j h. h)
  Steps_timed_out (suc n) s v (then_step {u = u} path c made) out here =
      step-IsStuck s.manager.mapping c u v made (Steps_timed_out n s u path out here)

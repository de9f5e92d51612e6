-- ===== src/Ansible/Handover/Bounded.antt =====
-- How many steps the handler and the executor make.
use mathlib.Core.Path.{subst}
use k4e_device_worker.Prelude.{
  ◌≡◌, refl, ap, ℕ, suc, ◌+◌, ◌≤◌, Option, none, some, String, ℤ, Result, ok, err, Err, arith,
  Bool-cases, inl, inr,
}
use k4e_device_worker.Ansible.Mapping.{Playbooks, add_playbook, is_pending}
use k4e_device_worker.Ansible.Manager.{Manager, Env, Accepted}
use k4e_device_worker.Ansible.Records.{Results}
use k4e_device_worker.Ansible.Handover.{
  Handler, waiting, timed_out, completed, Executor, starting, running, handing, forgetting,
  signalling, ended, Choice, goes_on, hands_over, signals, times_out, State, Steps, done, then_step,
  step, go_on, hand_over, signal, time_out, launched, start_playbook, run_playbook, forget, added,
  add_read, parsed,
}

-- How many steps the executor has before it, at most.
abbrev pub steps_left : Executor → ℕ
steps_left starting = 5
steps_left (running content) = 4
steps_left (handing content results err_run) = 3
steps_left (forgetting content err_run) = 2
steps_left (signalling e) = 1
steps_left ended = 0

abbrev pub waits : Handler → ℕ
waits waiting = 1
waits timed_out = 0
waits completed = 0

abbrev pub or_else : {W : Type 0} → State W → Option (State W) → State W
or_else s none = s
or_else s (some v) = v

module _ {W : Type 0} (env : Env W) (a : Accepted) (message_id : String) (t : ℤ) where
  -- A step of the executor leaves it between one and `n` steps from its end, and the handler as it is.
  abbrev pub Left : ℕ → State W → State W → Type 0
  Left n s v = (1 ≤ steps_left v.executor) × (steps_left v.executor ≤ n) × (v.handler ≡ s.handler)

  added-Left :
      (content : String) (s : State W) (x : Option Err × Playbooks × W)
      → Left 4 s (added env a message_id t content s x)
  unfolding added
  added-Left content s (none, mapping, w) = (omega arith, omega arith, refl)
  added-Left content s (some e, mapping, w) = (omega arith, omega arith, refl)

  add_read-Left : (s : State W) (r : Result String) → Left 4 s (add_read env a message_id t s r)
  unfolding add_read
  add_read-Left s (err e) = (omega arith, omega arith, refl)
  add_read-Left s (ok content) =
      added-Left content s (add_playbook env.mapping_env content t s.manager.mapping s.world)

  start_playbook-Left : (s : State W) → Left 4 s (start_playbook env a message_id t s)
  unfolding start_playbook
  start_playbook-Left s = elim (Bool-cases (is_pending s.manager.mapping t)) [
    | inl there ↦ rw there (omega arith, omega arith, refl)
    | inr fresh ↦ rw fresh (add_read-Left s (env.read_file a.playbook_file s.world))
  ]

  parsed-steps_left :
      (content : String) (err_run : Option Err) (r : Result (Option Results))
      → (1 ≤ steps_left (parsed env a message_id t content err_run r))
        × (steps_left (parsed env a message_id t content err_run r) ≤ 3)
  unfolding parsed
  parsed-steps_left content err_run (err e) = (omega arith, omega arith)
  parsed-steps_left content err_run (ok results) = (omega arith, omega arith)

  run_playbook-Left :
      (content : String) (s : State W) → Left 3 s (run_playbook env a message_id t content s)
  unfolding run_playbook
  run_playbook-Left content s =
      let ran = env.run a.playbook_file s.world in
      let (some_left, few_left) = parsed-steps_left content ran.0.0 (env.results_of ran.0.1) in
      (some_left, few_left, refl)

  forget-Left :
      (content : String) (err_run : Option Err) (s : State W)
      → Left 1 s (forget env a message_id t content err_run s)
  unfolding forget
  forget-Left content err_run s = (omega arith, omega arith, refl)

  -- A step that was made brings the executor further and leaves it short of its end.
  went_on :
      (n : ℕ) (s u v : State W)
      → Left n s u
      → some u ≡ some v
      → (suc (steps_left v.executor) ≤ suc n)
        × (1 ≤ steps_left v.executor)
        × (v.handler ≡ s.handler)
  went_on n s u v left h =
      let (some_left, few_left, kept) = subst (λ z. Left n s z) (ap (or_else s) h) left in
      (omega (arith, few_left), some_left, kept)

  pub go_on-Left :
      (x : Executor) (s v : State W)
      → go_on env a message_id t x s ≡ some v
      → (suc (steps_left v.executor) ≤ steps_left x)
        × (1 ≤ steps_left v.executor)
        × (v.handler ≡ s.handler)
  unfolding go_on
  go_on-Left starting s v h =
      went_on 4 s (start_playbook env a message_id t s) v (start_playbook-Left s) h
  go_on-Left (running content) s v h =
      went_on 3 s (run_playbook env a message_id t content s) v (run_playbook-Left content s) h
  go_on-Left (handing content results err_run) s v h = cc
  go_on-Left (forgetting content err_run) s v h =
      went_on 1 s (forget env a message_id t content err_run s) v (forget-Left content err_run s) h
  go_on-Left (signalling e) s v h = cc
  go_on-Left ended s v h = cc

  abbrev pub Less : Handler → Executor → State W → Type 0
  Less h x v = suc (steps_left v.executor + waits v.handler) ≤ steps_left x + waits h

  hand_over-Less :
      (h : Handler) (x : Executor) (s v : State W)
      → s.handler ≡ h
      → hand_over env a message_id t h x s ≡ some v
      → Less h x v
  unfolding hand_over
  hand_over-Less waiting (handing content results err_run) s v same e =
      let left = ap (λ o. steps_left (or_else s o).executor) e in
      let kept = ap (λ o. waits (or_else s o).handler) e in omega (arith, left, kept, ap waits same)
  hand_over-Less h x s v same e = cc

  signal-Less :
      (h : Handler) (x : Executor) (s v : State W)
      → signal env a message_id t h x s ≡ some v
      → Less h x v
  unfolding signal
  signal-Less waiting (signalling d) s v e =
      let left = ap (λ o. steps_left (or_else s o).executor) e in
      let kept = ap (λ o. waits (or_else s o).handler) e in omega (arith, left, kept)
  signal-Less h x s v e = cc

  time_out-Less :
      (h : Handler) (s v : State W) → time_out env a message_id t h s ≡ some v → Less h s.executor v
  unfolding time_out
  time_out-Less waiting s v e =
      let left = ap (λ o. steps_left (or_else s o).executor) e in
      let kept = ap (λ o. waits (or_else s o).handler) e in omega (arith, left, kept)
  time_out-Less timed_out s v e = cc
  time_out-Less completed s v e = cc

  pub step-Less :
      (c : Choice) (s v : State W)
      → step env a message_id t c s ≡ some v
      → Less s.handler s.executor v
  unfolding step
  step-Less goes_on s v h =
      let (less, some_left, kept) = go_on-Left s.executor s v h in
      omega (arith, less, ap waits kept)
  step-Less hands_over s v h = hand_over-Less s.handler s.executor s v refl h
  step-Less signals s v h = signal-Less s.handler s.executor s v h
  step-Less times_out s v h = time_out-Less s.handler s v h

  Steps-left :
      (n : ℕ) (s v : State W)
      → Steps env a message_id t n s v
      → n + (steps_left v.executor + waits v.handler) ≤ steps_left s.executor + waits s.handler
  Steps-left n s v (done) = omega arith
  Steps-left (suc n) s v (then_step {u = u} path c made) =
      omega (arith, Steps-left n s u path, step-Less c u v made)

  -- Whatever the handler and the executor do and however they are interleaved, the steps that they
  -- made and those that are left are at most six: neither of them goes on forever.
  pub Steps-bound :
      (n : ℕ) (m : Manager) (w : W) (s : State W)
      → Steps env a message_id t n (launched m w) s
      → n + (steps_left s.executor + waits s.handler) ≤ 6
  Steps-bound n m w s path = omega (arith, Steps-left n (launched m w) s path)

-- ===== src/Ansible/Handover/Finished.antt =====
-- The handler and the executor come to an end.
use k4e_device_worker.Prelude.{
  ◌≡◌, refl, sym, ap, ◌∙◌, ℕ, zero, suc, ◌+◌, ◌≤◌, some, String, ℤ, arith, inl, inr, ◌⊎◌,
}
use k4e_device_worker.Ansible.Manager.{Manager, Env, Accepted}
use k4e_device_worker.Ansible.Handover.{
  Handler, waiting, timed_out, completed, Executor, starting, running, handing, forgetting,
  signalling, ended, Choice, goes_on, hands_over, signals, times_out, State, Steps, done, then_step,
  step, go_on, hand_over, signal, time_out, launched, start_playbook, run_playbook, forget,
}
use k4e_device_worker.Ansible.Handover.Bounded.{steps_left, waits, or_else, go_on-Left, step-Less}

-- The handler has completed, and so has the executor.
abbrev pub HasFinished : {W : Type 0} → State W → Type 0
HasFinished s = (s.handler ≡ completed) × (s.executor ≡ ended)

module _ {W : Type 0} (env : Env W) (a : Accepted) (message_id : String) (t : ℤ) where
  Steps-prepend :
      (n : ℕ) (s u v : State W) (c : Choice)
      → step env a message_id t c s ≡ some u
      → Steps env a message_id t n u v
      → Steps env a message_id t (suc n) s v
  Steps-prepend n s u v c made (done) = then_step done c made
  Steps-prepend (suc n) s u v c made (then_step {u = z} path d next) =
      then_step (Steps-prepend n s u z c made path) d next

  -- The handler waits for an executor that has not come to its end.
  abbrev Works : State W → Type 0
  Works s = (s.handler ≡ waiting) × (1 ≤ steps_left s.executor)

  abbrev CanFinish : State W → Type 0
  CanFinish s = (n : ℕ) × (v : State W) × Steps env a message_id t n s v × HasFinished v

  -- One more step towards the end, without the timeout.
  abbrev Advances : State W → Type 0
  Advances s =
      (c : Choice) × (v : State W) × (step env a message_id t c s ≡ some v)
      × (HasFinished v ⊎ Works v)

  by_itself :
      (x : Executor) (s u : State W)
      → s.handler ≡ waiting
      → s.executor ≡ x
      → go_on env a message_id t x s ≡ some u
      → Advances s
  unfolding step
  by_itself x s u waits_for same made =
      let made' = ap (λ y. go_on env a message_id t y s) same ∙ made in
      let (less, some_left, kept) = go_on-Left env a message_id t x s u made in
      (goes_on, u, made', inr (kept ∙ waits_for, some_left))

  advances :
      (x : Executor) (s : State W)
      → s.handler ≡ waiting
      → s.executor ≡ x
      → 1 ≤ steps_left x
      → Advances s
  unfolding step go_on hand_over signal
  advances starting s waits_for same left =
      by_itself starting s (start_playbook env a message_id t s) waits_for same refl
  advances (running content) s waits_for same left =
      by_itself (running content) s (run_playbook env a message_id t content s) waits_for same refl
  advances (handing content results err_run) s waits_for same left =
      let x = handing content results err_run in
      (
        hands_over,
        or_else s (hand_over env a message_id t waiting x s),
        ap (λ h. hand_over env a message_id t h s.executor s) waits_for
            ∙ ap (λ y. hand_over env a message_id t waiting y s) same,
        inr (waits_for, omega arith),
      )
  advances (forgetting content err_run) s waits_for same left =
      by_itself (forgetting content err_run) s (forget env a message_id t content err_run s)
        waits_for same refl
  advances (signalling e) s waits_for same left = (
    signals,
    or_else s (signal env a message_id t waiting (signalling e) s),
    ap (λ h. signal env a message_id t h s.executor s) waits_for
        ∙ ap (λ y. signal env a message_id t waiting y s) same,
    inl (refl, refl),
  )
  advances ended s waits_for same left = absurd (omega (arith, left))

  -- The handler stays at work on a step that is not its timeout, until both have finished.
  continued :
      (s v : State W) (c : Choice)
      → step env a message_id t c s ≡ some v
      → CanFinish v
      → CanFinish s
  continued s v c made (n, z, path, finished) =
      (suc n, z, Steps-prepend n s v z c made path, finished)

  finish_within :
      (fuel : ℕ) (s : State W)
      → Works s
      → steps_left s.executor + waits s.handler ≤ fuel
      → CanFinish s
  finish_within zero s (waits_for, left) few = absurd (omega (arith, left, few))
  finish_within (suc fuel) s (waits_for, left) few =
      let (c, v, made, next) = advances s.executor s waits_for refl left in
      elim next [
        | inl finished ↦ (1, v, then_step done c made, finished)
        | inr works ↦ continued s v c made (
            finish_within fuel v works
              (omega (arith, few, step-Less env a message_id t c s v made)))
      ]

  hand_over_works :
      (h : Handler) (x : Executor) (s v : State W)
      → hand_over env a message_id t h x s ≡ some v
      → 1 ≤ steps_left v.executor
  unfolding hand_over
  hand_over_works waiting (handing content results err_run) s v e =
      let left = ap (λ o. steps_left (or_else s o).executor) e in omega (arith, left)
  hand_over_works h x s v e = cc

  signal_completes :
      (h : Handler) (x : Executor) (s v : State W)
      → signal env a message_id t h x s ≡ some v
      → v.handler ≡ completed
  unfolding signal
  signal_completes waiting (signalling d) s v e = sym (ap (λ o. (or_else s o).handler) e)
  signal_completes h x s v e = cc

  time_out_returns :
      (h : Handler) (s v : State W)
      → time_out env a message_id t h s ≡ some v
      → v.handler ≡ timed_out
  unfolding time_out
  time_out_returns waiting s v e = sym (ap (λ o. (or_else s o).handler) e)
  time_out_returns h s v e = cc

  step-Works :
      (c : Choice) (s v : State W)
      → step env a message_id t c s ≡ some v
      → v.handler ≡ waiting
      → 1 ≤ steps_left v.executor
  unfolding step
  step-Works goes_on s v made waits_for =
      let (less, left, kept) = go_on-Left env a message_id t s.executor s v made in left
  step-Works hands_over s v made waits_for = hand_over_works s.handler s.executor s v made
  step-Works signals s v made waits_for =
      let other = ap waits (sym (signal_completes s.handler s.executor s v made) ∙ waits_for) in
      absurd (omega (arith, other))
  step-Works times_out s v made waits_for =
      let other = ap waits (sym (time_out_returns s.handler s v made) ∙ waits_for) in
      absurd (omega (arith, other))

  -- A handler that waits has an executor that has not ended, wherever the two have come to.
  Steps-Works :
      (n : ℕ) (s v : State W)
      → Steps env a message_id t n s v
      → Works s
      → v.handler ≡ waiting
      → 1 ≤ steps_left v.executor
  Steps-Works n s v (done) works waits_for = works.1
  Steps-Works (suc n) s v (then_step {u = u} path c made) works waits_for =
      step-Works c u v made waits_for

  -- From every state in which the handler still waits, the two can go on without the timeout until
  -- the handler has completed and the executor has ended: they never wait for each other in vain.
  pub waiting-CanFinish :
      (n : ℕ) (m : Manager) (w : W) (s : State W)
      → Steps env a message_id t n (launched m w) s
      → s.handler ≡ waiting
      → CanFinish s
  waiting-CanFinish n m w s path waits_for =
      finish_within (steps_left s.executor + waits s.handler) s
        (waits_for, Steps-Works n (launched m w) s path (refl, omega arith) waits_for) (omega arith)

-- ===== src/Ansible/Handover.antt =====
-- The two goroutines of `HandlePlaybook` (internal/ansible/ansible_manager.go): the handler, and the
-- executor `execPlaybook`. They meet at two channels without a buffer, so a send and its receive
-- are one step of both.
pub mod Bounded
pub mod Finished
pub mod Stuck
mod Examples
use k4e_device_worker.Prelude.{
  ◌≡◌, ℕ, zero, suc, Bool, true, false, Option, none, some, List, [], ◌∷◌, ◌++◌, String,
  if◌then◌else◌, ℤ, Result, ok, err, Err, ◌⧺◌,
}
use k4e_device_worker.Ansible.Mapping.{Playbooks, is_pending, add_playbook, remove_playbook}
use k4e_device_worker.Ansible.Records.{JobEvent, Results}
use k4e_device_worker.Ansible.Kinds.{executor_on_failed}
use k4e_device_worker.Ansible.Events.{add_runner_job_event}
use k4e_device_worker.Ansible.Manager.{Manager, Env, Accepted, parse_failure, send_events}

-- The handler waits at its `select`, or has returned an error after the timeout, or nil.
pub data Handler : Type 0 where
  waiting : Handler
  timed_out : Handler
  completed : Handler

-- Where the executor is. `handing` waits to send the results and `signalling` to send the end.
pub data Executor : Type 0 where
  starting : Executor
  running : String → Executor
  handing : String → Option Results → Option Err → Executor
  forgetting : String → Option Err → Executor
  signalling : Option Err → Executor
  ended : Executor

-- What goes on next: the executor by itself, the results are handed over, the end is signalled, or
-- the handler's time is over.
pub data Choice : Type 0 where
  goes_on : Choice
  hands_over : Choice
  signals : Choice
  times_out : Choice

pub record State (W : Type 0) : Type 0 where
  pub handler : Handler
  pub executor : Executor
  pub manager : Manager
  pub world : W

module _ {W : Type 0} (env : Env W) (a : Accepted) (message_id : String) (t : ℤ) where
  abbrev with_mapping : State W → Executor → Playbooks → W → State W
  with_mapping s x mapping w = record s {
    executor = x;
    manager = record s.manager { mapping = mapping };
    world = w;
  }

  added : String → State W → Option Err × Playbooks × W → State W
  added content s (some e, mapping, w) = with_mapping s (signalling (some e)) mapping w
  added content s (none, mapping, w) = with_mapping s (running content) mapping w

  add_read : State W → Result String → State W
  unfolding added
  add_read s (err e) = record s { executor = signalling (some e) }
  add_read s (ok content) =
      added content s (add_playbook env.mapping_env content t s.manager.mapping s.world)

  -- A playbook of the same time counts as one that is executed already. The text of the error has
  -- the address of the return in the place of the message's identifier, as it is called.
  unfoldable pub start_playbook : State W → State W
  unfolding add_read
  start_playbook s =
      if is_pending s.manager.mapping t
      then record s {
        executor =
            signalling
              (some ("playbook of messageID " ⧺ (a.return_url ⧺ " is already in execution")));
      }
      else add_read s (env.read_file a.playbook_file s.world)

  parsed : String → Option Err → Result (Option Results) → Executor
  parsed content err_run (err e) = signalling (some e)
  parsed content err_run (ok results) = handing content results err_run

  unfoldable pub run_playbook : String → State W → State W
  unfolding parsed
  run_playbook content s =
      let ((err_run, out), w) = env.run a.playbook_file s.world in
      record s { executor = parsed content err_run (env.results_of out); world = w }

  unfoldable pub forget : String → Option Err → State W → State W
  forget content err_run s =
      let (e, mapping, w) = remove_playbook env.mapping_env content s.manager.mapping s.world in
      with_mapping s (signalling err_run) mapping w

  unfoldable pub go_on : Executor → State W → Option (State W)
  unfolding start_playbook run_playbook forget
  go_on starting s = some (start_playbook s)
  go_on (running content) s = some (run_playbook content s)
  go_on (handing content results err_run) s = none
  go_on (forgetting content err_run) s = some (forget content err_run s)
  go_on (signalling e) s = none
  go_on ended s = none

  -- the receive of the results; an error of `sendEvents` is only logged
  unfoldable pub hand_over : Handler → Executor → State W → Option (State W)
  hand_over waiting (handing content results err_run) s =
      let (r, (m, w)) =
        send_events env results a.return_url message_id a.playbook_file (s.manager, s.world) in
      some (record s { executor = forgetting content err_run; manager = m; world = w })
  hand_over h x s = none

  abbrev last_event : List JobEvent → Option JobEvent
  last_event [] = none
  last_event (e ∷ []) = some e
  last_event (e ∷ (f ∷ rest)) = last_event (f ∷ rest)

  -- the failure's event; `msgList` has a last event, since the start was added to it
  note_failure : Option JobEvent → State W → State W
  note_failure none s = s
  note_failure (some e) s =
      let (code, details) = parse_failure e in
      let (uuid, w) = env.events_env.new_uuid s.world in
      record s {
        manager = record s.manager {
          msg_list =
              add_runner_job_event s.manager.msg_list
                (executor_on_failed uuid a.correlation_id "" code details);
        };
        world = w;
      }

  completed_with : Option Err → State W → State W
  unfolding note_failure
  completed_with none s = s
  completed_with (some e) s = note_failure (last_event s.manager.msg_list) s

  -- `HandlePlaybook` returns, and its deferred call removes the file.
  abbrev return_as : Handler → Executor → State W → State W
  return_as h x s =
      let (e, w) = env.remove_file a.playbook_file s.world in
      record s { handler = h; executor = x; world = w }

  unfoldable pub signal : Handler → Executor → State W → Option (State W)
  unfolding completed_with
  signal waiting (signalling e) s = some (return_as completed ended (completed_with e s))
  signal h x s = none

  unfoldable pub time_out : Handler → State W → Option (State W)
  time_out waiting s = some (return_as timed_out s.executor s)
  time_out h s = none

  unfoldable pub step : Choice → State W → Option (State W)
  unfolding go_on hand_over signal time_out
  step goes_on s = go_on s.executor s
  step hands_over s = hand_over s.handler s.executor s
  step signals s = signal s.handler s.executor s
  step times_out s = time_out s.handler s

  -- The states that steps lead to, by the number of the steps.
  pub data Steps : ℕ → State W → State W → Type 0 where
    done : {s : State W} → Steps zero s s
    then_step :
        {n : ℕ} {s u v : State W}
        → Steps n s u
        → (c : Choice) → step c u ≡ some v
        → Steps (suc n) s v

abbrev pub launched : {W : Type 0} → Manager → W → State W
launched m w = record { handler = waiting; executor = starting; manager = m; world = w }

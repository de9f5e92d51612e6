-- ===== src/Ansible/Events.antt =====
-- The events of a playbook for the playbook dispatcher
-- (internal/ansible/dispatcher/dispatcher_events.go). Making an identifier and numerals are
-- parameters.
pub mod Counted
mod Examples
use k4e_device_worker.Prelude.{
  ℕ, suc, ◌+◌, Bool, true, false, Option, none, some, List, [], ◌∷◌, ◌++◌, String, Map, keys, get,
  put, if◌then◌else◌, text_key, nat_beq, ltb, ℤ, pos, negsuc, Result, ok, err, ◌⧺◌,
}
use k4e_device_worker.Ansible.Records.{
  EventData, JobEvent, no_data, no_event, HostItem, Task, Play, HostStats, Results,
}
use k4e_device_worker.Ansible.Kinds.{
  text_of, count_or_zero, count_occurence, runner_on, playbook_on_task_start, playbook_on_stats,
  playbook_on_play_start, playbook_on_start,
}

-- `itoa` is `strconv.Itoa`.
pub record Env (W : Type 0) : Type 0 where
  pub new_uuid : W → String × W
  pub itoa : ℕ → String

module _ {W : Type 0} (env : Env W) where
  -- "When this task UUID repeats": the identifier of the task and the counts of duplicates, after
  -- one `PlaybookOnTaskStart`. The task keeps the identifier for its other hosts.
  unfoldable pub next_id : Map String ℕ → String → Map String ℕ → String × Map String ℕ
  next_id uuids id counts =
      let n = suc (count_or_zero (get counts id)) in
      if ltb 1 (count_or_zero (get uuids id))
      then (id ⧺ ("_" ⧺ env.itoa n), put counts id n)
      else (id, counts)

  -- what `tasks.Id` holds after all hosts
  unfoldable pub last_id : Map String ℕ → Map String HostItem → String → Map String ℕ → String
  unfolding next_id
  last_id uuids [] id counts = id
  last_id uuids ((host, h) ∷ rest) id counts =
      let (id', counts') = next_id uuids id counts in last_id uuids rest id' counts'

  -- The loop over the hosts of a task. The events so far are numbered up to `n`.
  unfoldable pub host_events :
      String
      → String
      → JobEvent
      → Map String ℕ
      → String
      → Task
      → Map String HostItem
      → String
      → Map String ℕ
      → ℕ
      → List JobEvent × Map String ℕ × ℕ
  unfolding next_id playbook_on_task_start runner_on
  host_events device_id filename play uuids shared t [] id counts n = ([], counts, n)
  host_events device_id filename play uuids shared t ((host, h) ∷ rest) id counts n =
      let (id', counts') = next_id uuids id counts in
      let hosts = text_of play.event_data.host in
      let started = playbook_on_task_start device_id filename play.uuid (suc n) hosts id' t h in
      let ran = runner_on device_id filename id' (suc (suc n)) hosts id' shared t h in
      let (more, counts'', n') =
        host_events device_id filename play uuids shared t rest id' counts' (suc (suc n)) in
      (started ∷ ran ∷ more, counts'', n')

  -- the loop over the tasks of a play
  unfoldable pub task_events :
      String
      → String
      → JobEvent
      → Map String ℕ
      → List Task
      → Map String ℕ
      → ℕ
      → List JobEvent × Map String ℕ × ℕ
  unfolding last_id host_events
  task_events device_id filename play uuids [] counts n = ([], counts, n)
  task_events device_id filename play uuids (t ∷ rest) counts n =
      let (events, counts', n') =
        host_events device_id filename play uuids (last_id uuids t.hosts t.id counts) t t.hosts t.id
          counts n in
      let (more, counts'', n'') = task_events device_id filename play uuids rest counts' n' in
      (events ++ more, counts'', n'')

  -- "if msgCounter == 1"
  unfoldable pub start_events : String → String → Play → ℕ → W → List JobEvent × W
  unfolding playbook_on_start
  start_events device_id filename p n w =
      let (uuid, w') = env.new_uuid w in
      if nat_beq n 1 then (playbook_on_start uuid device_id filename n p ∷ [], w') else ([], w)

  -- the loop over the plays
  unfoldable pub play_events :
      String → String → Map String HostStats → List Play → Map String ℕ → ℕ → W → List JobEvent × W
  unfolding start_events task_events playbook_on_play_start playbook_on_stats count_occurence
  play_events device_id filename stats [] counts n w = ([], w)
  play_events device_id filename stats (p ∷ rest) counts n w =
      let (first, w1) = start_events device_id filename p n w in
      let play = playbook_on_play_start device_id filename (suc n) p in
      let (events, counts', n') =
        task_events device_id filename play (count_occurence p.tasks) p.tasks counts (suc n) in
      let (more, w2) = play_events device_id filename stats rest counts' (suc n') w1 in
      (
        first
            ++ play
              ∷ (events ++ playbook_on_stats device_id filename (suc n') p.end_time stats ∷ more),
        w2,
      )

  unfoldable pub event_transformer : String → String → Results → W → List JobEvent × W
  unfolding play_events
  event_transformer device_id filename results w =
      play_events device_id filename results.stats results.plays [] 0 w

  -- `AddEvent`: the list of the dispatcher grows, and is returned whole.
  unfoldable pub add_event : String → String → Results → List JobEvent → W → List JobEvent × W
  unfolding event_transformer
  add_event device_id filename results msgs w =
      let (events, w') = event_transformer device_id filename results w in (msgs ++ events, w')

abbrev pub add_runner_job_event : List JobEvent → JobEvent → List JobEvent
add_runner_job_event msgs event = msgs ++ event ∷ []

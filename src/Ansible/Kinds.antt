-- ===== src/Ansible/Kinds.antt =====
-- The events of each kind (internal/ansible/dispatcher/dispatcher_events.go).
use k4e_device_worker.Prelude.{
  ℕ, suc, Bool, true, false, Option, none, some, List, [], ◌∷◌, String, Map, keys, get, put,
  if◌then◌else◌, text_key, pos, negsuc, ◌⧺◌,
}
use k4e_device_worker.Ansible.Records.{
  EventData, JobEvent, no_data, no_event, HostItem, Task, Play, HostStats,
}

-- strings.Join(hosts, ",")
join_names : List String → String
join_names [] = ""
join_names (h ∷ []) = h
join_names (h ∷ (j ∷ rest)) = h ⧺ ("," ⧺ join_names (j ∷ rest))

hosts_string : String → List Task → String
unfolding join_names
hosts_string so_far [] = so_far
hosts_string so_far (t ∷ rest) = hosts_string (join_names (keys t.hosts)) rest

-- The text of the last task only.
unfoldable pub get_hosts_string : List Task → String
unfolding hosts_string
get_hosts_string tasks = hosts_string "" tasks

abbrev pub text_of : Option String → String
text_of none = ""
text_of (some s) = s

abbrev pub count_or_zero : Option ℕ → ℕ
count_or_zero none = 0
count_or_zero (some n) = n

count_from : List Task → Map String ℕ → Map String ℕ
count_from [] counts = counts
count_from (t ∷ rest) counts =
    count_from rest (put counts t.id (suc (count_or_zero (get counts t.id))))

unfoldable pub count_occurence : List Task → Map String ℕ
unfolding count_from
count_occurence tasks = count_from tasks []

-- The part that the events of a task and a host share; `task_id` is what `tasks.Id` holds.
abbrev task_data : String → String → String → String → Task → HostItem → EventData
task_data filename playbook_uuid host task_id t h = record no_data {
  playbook = some filename;
  playbook_uuid = some playbook_uuid;
  host = some host;
  task_uuid = some task_id;
  task = some t.name;
  task_action = some h.action;
  uuid = some task_id;
}

-- `RunnerOnOk`, `RunnerOnFailed` and `RunnerOnSkipped`. The event has the identifier of now, and
-- its data a pointer to the identifier, `shared`.
abbrev runner_event :
    String
    → Bool
    → String
    → String
    → String
    → ℕ
    → String
    → String
    → String
    → Task
    → HostItem
    → JobEvent
runner_event name has_stderr runner_id filename playbook_uuid counter host id shared t h =
    record no_event {
      event = name;
      uuid = id;
      counter = pos counter;
      stdout = h.stdout;
      stderr = if has_stderr then h.stderr else "";
      runner_ident = some runner_id;
      created = some t.start;
      event_data = record (task_data filename playbook_uuid host shared t h) {
        res_changed = some h.changed;
      };
    }

unfoldable pub runner_on_ok :
    String → String → String → ℕ → String → String → String → Task → HostItem → JobEvent
runner_on_ok = runner_event "v2_runner_on_ok" false

unfoldable pub runner_on_failed :
    String → String → String → ℕ → String → String → String → Task → HostItem → JobEvent
runner_on_failed = runner_event "v2_runner_on_failed" true

unfoldable pub runner_on_skipped :
    String → String → String → ℕ → String → String → String → Task → HostItem → JobEvent
runner_on_skipped = runner_event "v2_runner_on_skipped" true

-- the branches of the host loop
unfoldable pub runner_on :
    String → String → String → ℕ → String → String → String → Task → HostItem → JobEvent
unfolding runner_on_ok runner_on_failed runner_on_skipped
runner_on runner_id filename playbook_uuid counter host id shared t h =
    if h.failed
    then runner_on_failed runner_id filename playbook_uuid counter host id shared t h
    else if h.skipped
    then runner_on_skipped runner_id filename playbook_uuid counter host id shared t h
    else runner_on_ok runner_id filename playbook_uuid counter host id shared t h

unfoldable pub playbook_on_task_start :
    String → String → String → ℕ → String → String → Task → HostItem → JobEvent
playbook_on_task_start runner_id filename playbook_uuid counter host id t h = record no_event {
  event = "playbook_on_task_start";
  uuid = id;
  counter = pos counter;
  stdout = h.stdout;
  runner_ident = some runner_id;
  created = some t.start;
  event_data = task_data filename playbook_uuid host id t h;
}

add_stats : Map String HostStats → EventData → EventData
add_stats [] d = d
add_stats ((host, s) ∷ rest) d = add_stats rest (record d {
  changed = put d.changed host s.changed;
  ok_hosts = put d.ok_hosts host s.ok_count;
  failures = put d.failures host s.failures;
})

unfoldable pub playbook_on_stats : String → String → ℕ → String → Map String HostStats → JobEvent
unfolding add_stats
playbook_on_stats runner_id playbook_uuid counter creation_time stats = record no_event {
  event = "playbook_on_stats";
  runner_ident = some runner_id;
  created = some creation_time;
  counter = pos counter;
  event_data = add_stats stats (record no_data { playbook_uuid = some playbook_uuid });
}

unfoldable pub playbook_on_play_start : String → String → ℕ → Play → JobEvent
unfolding get_hosts_string
playbook_on_play_start device_id filename counter p = record no_event {
  event = "playbook_on_play_start";
  runner_ident = some device_id;
  counter = pos counter;
  created = some p.start;
  event_data = record no_data {
    playbook_uuid = some p.id;
    playbook = some filename;
    host = some (get_hosts_string p.tasks);
    uuid = some p.id;
  };
  uuid = p.id;
}

unfoldable pub playbook_on_start : String → String → String → ℕ → Play → JobEvent
unfolding get_hosts_string
playbook_on_start uuid device_id filename counter p = record no_event {
  event = "playbook_on_start";
  created = some p.start;
  runner_ident = some device_id;
  counter = pos counter;
  event_data = record no_data {
    playbook_uuid = some uuid;
    playbook = some filename;
    host = some (get_hosts_string p.tasks);
    uuid = some p.id;
  };
  uuid = uuid;
}

unfoldable pub executor_on_start : String → String → String → JobEvent
executor_on_start uuid correlation_id stdout = record no_event {
  event = "executor_on_start";
  uuid = uuid;
  counter = negsuc 0;
  stdout = stdout;
  event_data = record no_data { correlation_id = some correlation_id };
}

unfoldable pub executor_on_failed : String → String → String → String → String → JobEvent
executor_on_failed uuid correlation_id stdout error_code error_details = record no_event {
  event = "executor_on_failed";
  uuid = uuid;
  counter = negsuc 0;
  stdout = stdout;
  event_data = record no_data {
    correlation_id = some correlation_id;
    error_code = some error_code;
    error_details = some error_details;
  };
}

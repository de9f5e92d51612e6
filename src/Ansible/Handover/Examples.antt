-- ===== src/Ansible/Handover/Examples.antt =====
-- Tests of the goroutines of `HandlePlaybook` (internal/ansible/ansible_manager.go), and their
-- theorems at inputs.
use k4e_device_worker.Prelude.{
  ◌≡◌, refl, ℕ, ◌+◌, ◌≤◌, true, none, List, [], ◌∷◌, String, ok, pos, ℤ, text_key, get, put, remove,
  has,
}
use k4e_device_worker.Ansible.Mapping.{is_pending, add_playbook, add_written}
use k4e_device_worker.Ansible.Manager.{Env, Manager, Accepted}
use k4e_device_worker.Ansible.Handover.{
  State, timed_out, running, goes_on, Steps, done, then_step, step, launched, go_on, start_playbook,
  added, add_read, handing, run_playbook, parsed,
}
use k4e_device_worker.Ansible.Handover.Bounded.{steps_left, waits, Steps-bound}
use k4e_device_worker.Ansible.Handover.Finished.{HasFinished, waiting-CanFinish}
use k4e_device_worker.Ansible.Handover.Stuck.{NeedsHandler, Steps_timed_out}

-- A device on which playbooks run and leave results.
abbrev device : Env (List String)
device = record {
  mapping_env = record {
    get_sha256 = λ content. content;
    write_file = λ path content w. (none, w);
    save = λ es w. (none, w);
    remove_all = λ w. (none, w);
  };
  events_env = record { new_uuid = λ w. ("uuid", w); itoa = λ n. "n" };
  playbook_of = λ content. ok content;
  write_file = λ path content w. (none, w);
  remove_file = λ path w. (none, w);
  mod_time = λ path w. ok (pos 9);
  read_file = λ path w. ok "play";
  run = λ path w. ((none, ""), path ∷ w);
  results_of = λ out. ok none;
  marshal = λ e. ok [];
  dispatch = λ message w. (none, w);
  show_metadata = λ m. "map[]";
  join_errors = λ es. "errors";
}

abbrev accepted : Accepted
accepted = record {
  playbook_file = "/tmp/p.yml";
  playbook = "play";
  correlation_id = "c";
  return_url = "u";
}

abbrev manager : Manager
manager = record {
  mapping = record { mod_time_to_path = []; path_to_mod_time = []; config_dir = "/d" };
  msg_list = [];
  events_queue = [];
}

-- The playbook was added and is about to run.
abbrev added_one : State (List String)
added_one = record (launched manager []) {
  executor = running "play";
  manager = record manager {
    mapping = record {
      mod_time_to_path = (pos 9, "/d/play") ∷ [];
      path_to_mod_time = ("/d/play", pos 9) ∷ [];
      config_dir = "/d";
    };
  };
}

one_step : Steps device accepted "m" (pos 9) 1 (launched manager []) added_one
unfolding step go_on start_playbook add_read added add_playbook add_written is_pending has get put
    remove
one_step = then_step done goes_on refl

Steps-bound_example : 1 + (steps_left added_one.executor + waits added_one.handler) ≤ 6
Steps-bound_example = Steps-bound device accepted "m" (pos 9) 1 manager [] added_one one_step

waiting-CanFinish_example :
    (n : ℕ) × (v : State (List String)) × Steps device accepted "m" (pos 9) n added_one v
    × HasFinished v
waiting-CanFinish_example =
    waiting-CanFinish device accepted "m" (pos 9) 1 manager [] added_one one_step refl

-- The handler's time is over while the playbook runs.
abbrev left_behind : State (List String)
left_behind = record added_one { handler = timed_out }

abbrev handing_over : State (List String)
handing_over = record left_behind { executor = handing "play" none none; world = "/tmp/p.yml" ∷ [] }

runs_on : Steps device accepted "m" (pos 9) 1 left_behind handing_over
unfolding step go_on run_playbook parsed
runs_on = then_step done goes_on refl

Steps_timed_out_example :
    (handing_over.handler ≡ timed_out)
    × NeedsHandler handing_over.executor
    × ((j : ℤ)
        → is_pending left_behind.manager.mapping j ≡ true
        → is_pending handing_over.manager.mapping j ≡ true)
Steps_timed_out_example =
    Steps_timed_out device accepted "m" (pos 9) 1 left_behind handing_over runs_on refl tt

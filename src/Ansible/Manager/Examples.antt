-- ===== src/Ansible/Manager/Examples.antt =====
-- Tests of the manager of the playbooks (internal/ansible/ansible_manager.go), and its theorem at an
-- input.
use k4e_device_worker.Prelude.{
  ◌≡◌, refl, none, some, List, [], ◌∷◌, String, ok, err, pos, if◌then◌else◌, ◌==◌, text_key, get,
}
use k4e_device_worker.Ansible.Manager.{Env, Manager, accept}

-- A device on which playbooks run, and fail with "unreachable".
abbrev device : Env (List String)
device = record {
  mapping_env = record {
    get_sha256 = λ content. content;
    write_file = λ path content w. (none, w);
    save = λ es w. (none, w);
    remove_all = λ w. (none, w);
  };
  events_env = record { new_uuid = λ w. ("uuid", w); itoa = λ n. "n" };
  playbook_of = λ content. ok content;
  write_file = λ path content w. (none, w);
  remove_file = λ path w. (none, w);
  mod_time = λ path w. ok (pos 9);
  read_file = λ path w. if path == "/d/gone" then err "no such file" else ok path;
  run = λ path w. ((some "unreachable", ""), path ∷ w);
  results_of = λ out. ok none;
  marshal = λ e. ok [];
  dispatch = λ message w. (none, w);
  show_metadata = λ m. "map[]";
  join_errors = λ es. "errors";
}

abbrev manager : Manager
manager = record {
  mapping = record {
    mod_time_to_path = (pos 3, "/d/a") ∷ [];
    path_to_mod_time = ("/d/a", pos 3) ∷ [];
    config_dir = "/d";
  };
  msg_list = [];
  events_queue = [];
}

refuses :
    (accept device {S = List String}
      (record { message_id = "m"; content = "play"; metadata = [] })
      []).0
    ≡ err "missing attribute crc_dispatcher_correlation_id in message metadata map[]"
unfolding accept get
refuses = refl

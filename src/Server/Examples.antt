-- ===== src/Server/Examples.antt =====
-- Tests of the device server (internal/server), and its theorem at an input.
use k4e_device_worker.Prelude.{◌≡◌, refl, none, some, [], ◌∷◌, get, text_key, ok, pos}
use k4e_device_worker.Workload.Manager.{Config, State}
use k4e_device_worker.Workload.Reconcile.{update}
use k4e_device_worker.Workload.ManagerExamples.{device, dirs}
use k4e_device_worker.Server.{Env, Data, get_timeout, timeout_of, seconds_or}
use k4e_device_worker.Server.Playbook.{no_config}

-- A server whose messages are all unreadable.
abbrev server : Env (State device dirs) Config
server = record {
  unmarshal = λ content. (some "invalid character", no_config);
  atoi = λ text. ok (pos 60);
  handle_playbook = λ content timeout st. (none, st);
  update_config = λ config st. (none, (update device dirs config st).1);
  deregister = λ st. (none, st);
}

abbrev playbook : Data
playbook = record { content = "- hosts: all"; metadata = ("ansible-playbook", "true") ∷ [] }

one_minute : get_timeout server (("ansible-playbook-timeout", "60") ∷ []) ≡ pos 60
unfolding get_timeout timeout_of seconds_or get
one_minute = refl

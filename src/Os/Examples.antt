-- ===== src/Os/Examples.antt =====
-- Tests of the operating system's upgrades (internal/os), and their theorems at inputs.
use k4e_device_worker.Prelude.{
  ◌≡◌, refl, true, false, none, some, List, [], ◌∷◌, String, ok, err, pos, text_key, ℕ, split_lines,
}
use k4e_device_worker.Os.{
  Os, OsInformation, Deployment, Env, new_os, update, update_enabled, url_updated, request_commit,
  upgrade_to, error_and_world,
}
use k4e_device_worker.Os.Upgrade.{update_not_retried}
use k4e_device_worker.Os.Commands.{
  there, not_there, script_written, script_created, ensure_found, ensure_script_exists,
  replace_lines, remote_updated, update_url_in_edge_remote,
}
use k4e_device_worker.Os.Commands
use k4e_device_worker.Os.Commands.Scripts.{ensure_script_exists_again}
use k4e_device_worker.Os.Commands.Remote.{Keeps, update_url_in_edge_remote-split_lines, Readdressed}

-- A device on which no upgrade can be looked up.
abbrev ostree : Env (List String)
ostree = record {
  is_available = λ w. true;
  status = λ w. (ok "", w);
  parse_status = λ text. ok [];
  time_text = λ t. "now";
  update_url = λ url w. (none, url ∷ w);
  update_preview = λ w. (err "no network", w);
  ensure_health_check = λ w. (none, w);
  ensure_fail_script = λ w. (none, w);
  upgrade = λ w. (none, "upgrade" ∷ w);
  graceful_reboot = λ w. w;
  reboot = λ w. (none, "reboot" ∷ w);
}

abbrev wanted : OsInformation
wanted = record { commit_id = "c2"; hosted_objects_url = "http://images" }

preview_failed : (update ostree (some wanted) (new_os ostree []) []).0 ≡ some "no network"
unfolding update update_enabled url_updated request_commit upgrade_to error_and_world new_os
preview_failed = refl

update_not_retried_example :
    update ostree (some wanted) (update ostree (some wanted) (new_os ostree []) []).1 []
    ≡ (none, (update ostree (some wanted) (new_os ostree []) []).1, [])
update_not_retried_example =
    update_not_retried ostree wanted (new_os ostree []) [] [] (unfold new_os in refl)
      (unfold update update_enabled url_updated request_commit new_os in refl)

abbrev two_deployments : List Deployment
two_deployments =
    record { checksum = "c2"; timestamp = pos 2; booted = false }
    ∷ record { checksum = "c1"; timestamp = pos 1; booted = true }
    ∷ []

abbrev asked : Os
asked = record {
  automatically_upgrade = true;
  os_commit = "unknown";
  requested_os_commit = "c2";
  hosted_objects_url = "";
  last_upgrade_status = "";
  last_upgrade_time = "";
  enabled = true;
}

abbrev found_in : List String → Commands.Found
found_in [] = not_there
found_in (f ∷ rest) = there

-- A full disk: a file is made, but nothing can be written.
abbrev full_disk : Commands.Env (List String)
full_disk = record {
  output = λ c w. (err "no such command", w);
  stat = λ name w. found_in w;
  create = λ name w. (none, name ∷ w);
  write = λ name t w. (some "no space left on device", w);
  chmod = λ name w. (none, w);
  read_file = λ name w. err "no such file";
  write_file = λ name t w. (some "no space left on device", w);
}

ensure_script_exists_again_example :
    ((ensure_script_exists full_disk "check.sh" (1 ∷ []) []).0 ≡ some "no space left on device")
    × (ensure_script_exists full_disk "check.sh"
          (1 ∷ [])
          (ensure_script_exists full_disk "check.sh" (1 ∷ []) []).1
        ≡ (none, (ensure_script_exists full_disk "check.sh" (1 ∷ []) []).1))
ensure_script_exists_again_example =
    ensure_script_exists_again full_disk "check.sh" (1 ∷ []) [] "no space left on device" refl refl
      refl refl

-- One file, which can be read and written.
abbrev one_file : Commands.Env (List ℕ)
one_file = record {
  output = λ c w. (err "no such command", w);
  stat = λ name w. there;
  create = λ name w. (none, []);
  write = λ name t w. (none, t);
  chmod = λ name w. (none, w);
  read_file = λ name w. ok w;
  write_file = λ name t w. (none, t);
}

one_file-Keeps : Keeps one_file "edge.conf"
one_file-Keeps t w h = refl

-- "a\nurl=b\n" with the new address "c"
abbrev remote : List ℕ
remote = 97 ∷ 10 ∷ 117 ∷ 114 ∷ 108 ∷ 61 ∷ 98 ∷ 10 ∷ []

remote_changed :
    (update_url_in_edge_remote one_file (99 ∷ []) "edge.conf" remote).1
    ≡ 97 ∷ 10 ∷ 117 ∷ 114 ∷ 108 ∷ 61 ∷ 99 ∷ 10 ∷ []
unfolding update_url_in_edge_remote remote_updated replace_lines
remote_changed = refl

update_url_in_edge_remote-split_lines_example :
    (output : List ℕ) × (ok (update_url_in_edge_remote one_file (99 ∷ []) "edge.conf" remote).1
      ≡ ok output)
    × Readdressed (99 ∷ []) (split_lines remote) (split_lines output)
update_url_in_edge_remote-split_lines_example =
    update_url_in_edge_remote-split_lines one_file (99 ∷ []) "edge.conf" remote remote
      one_file-Keeps refl refl (unfold update_url_in_edge_remote remote_updated in refl)

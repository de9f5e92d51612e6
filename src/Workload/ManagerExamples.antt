-- ===== src/Workload/ManagerExamples.antt =====
-- The theorems on the workload manager (internal/workload/manager.go) at inputs.
use k4e_device_worker.Prelude.{
  ◌≡◌, ◌≢◌, refl, sym, ap, Bool, true, false, Option, none, some, List, [], ◌∷◌, String, Map, get,
  put, remove, has, contains, keys, if◌then◌else◌, ◌==◌, text_key, Result, ok, err, arith, get-put,
  get-remove, has-put, has-remove, beq_ne, beq_refl,
}
use k4e_device_worker.Workload.Secrets.{
  Podman, update_secrets, sync_listed, sync_secrets, drop_unknown, remove_secrets,
}
use k4e_device_worker.Workload.Pods.{
  Workload, Pod, Dirs, auth_file_path, to_pod, of_spec, to_pod_yaml, manifest_path,
  workload_dir_path, dash_spaces,
}
use k4e_device_worker.Workload.Manager.{
  Env, Manager, Config, does_not_exist, deploy_pod, pod_configuration_modified, pod_modified,
  read_differs, replace_pod, manage_auth_file, store_auth_file, run_pod, run_result, deploy_all,
  deploy, ensure_workload_dir_exists, pod_auth_modified,
}
use k4e_device_worker.Workload.Manager.Files.{KeepsFiles}
use k4e_device_worker.Workload.Manager.Retry.{deploy_pod_not_retried}
use k4e_device_worker.Workload.Reconcile.{
  update, reconcile, clean_up, remove_listed, remove_stale, remove_one, index_names, names_of,
}
use k4e_device_worker.Workload.Reconcile.Stale.{KeepsWorkloads, update-configured}

-- A device as its files and the names of its workloads, on which no pod can be run.
abbrev pub Device : Type 0
Device = Map String String × List String

abbrev read_option : Option String → Result String
read_option none = err "no such file or directory"
read_option (some text) = ok text

unfoldable pub without : String → List String → List String
without n [] = []
without n (x ∷ xs) = let rest = without n xs in if n == x then rest else x ∷ rest

without-contains :
    (n : String) (xs : List String) (j : String)
    → contains j (without n xs) ≡ (if n == j then false else contains j xs)
unfolding without
without-contains n [] j = ground arith
without-contains n (x ∷ xs) j = ground (
  arith,
  without-contains n xs j,
  text_key.same_iff n x,
  text_key.same_iff n j,
  text_key.same_iff x j,
)

abbrev no_secrets : Podman Device
no_secrets = record {
  list_secrets = λ w. (ok [], w);
  create_secret = λ n d w. (none, w);
  update_secret = λ n d w. (none, w);
  remove_secret = λ n w. (none, w);
}

abbrev pub device : Env Device Unit
device = record {
  parse_spec = λ text. ok (record { volumes = []; containers = [] });
  marshal_pod = λ pod. ok pod.name;
  multierror_text = λ es. "errors occurred";
  exists = λ p w. has w.0 p;
  read_file = λ p w. read_option (get w.0 p);
  write_file = λ p t w. (none, (put w.0 p t, w.1));
  mkdir_all = λ p w. (none, w);
  remove_all = λ p w. (none, w);
  remove_file = λ p w. (if has w.0 p then none else some does_not_exist, (remove w.0 p, w.1));
  podman = no_secrets;
  list = λ w. (ok w.1, w);
  remove = λ n w. (ok tt, (w.0, without n w.1));
  stop = λ n w. (ok tt, w);
  run = λ pod p a w. (err "no such image", w);
  remove_table = λ w. (ok tt, w);
  remove_mapping_file = λ w. (ok tt, w);
  remove_services_file = λ w. (ok tt, w);
}

pub device-KeepsWorkloads : KeepsWorkloads device (λ w. w.1)
device-KeepsWorkloads = record {
  listed = λ w names h j. ap (names_or_none j) (sym h);
  removed = λ name w h j. without-contains name w.1 j;
  dir_removed = λ dir w j. refl;
}
  where
    names_or_none : String → Result (List String) → Bool
    names_or_none j (ok names) = contains j names
    names_or_none j (err e) = false

abbrev pub dirs : Dirs
dirs = record { workloads_dir = "/d/workloads"; volumes_dir = "/d/volumes"; device_id = "d" }

device-KeepsFiles : KeepsFiles device dirs
device-KeepsFiles = record {
  written = λ p t w h. (rw (get-put w.0 p p t, beq_refl p), rw (has-put w.0 p p t, beq_refl p));
  write_other = λ p q t w other. rw (get-put w.0 p q t, beq_ne p q other);
  removed = λ p w gone. rw (has-remove w.0 p p, beq_refl p);
  remove_other = λ p q w other. rw (get-remove w.0 p q, beq_ne p q other);
  run_keeps = λ pod p a q w h. (refl, refl);
  remove_keeps = λ name q w h. (refl, refl);
}

abbrev web : Workload
web = record {
  name = "web";
  specification = "";
  labels = [];
  config_maps = [];
  auth_file = "token";
}

abbrev web_pod : Pod Unit
web_pod = record {
  kind = "Pod";
  name = "web";
  labels = [];
  spec = record { volumes = []; containers = [] };
}

abbrev pub running : Manager
running = record { deregistered = false; events_queue = [] }

web_failed : (deploy_pod device dirs web web_pod "yaml" (running, ([], []))).1.0.events_queue ≢ []
unfolding deploy_pod pod_configuration_modified pod_modified read_differs replace_pod
    manage_auth_file store_auth_file run_pod run_result get put
web_failed same = cc

deploy_pod_not_retried_example :
    deploy_pod device dirs web web_pod "yaml"
      (deploy_pod device dirs web web_pod "yaml" (running, ([], []))).1
    ≡ (ok tt, (deploy_pod device dirs web web_pod "yaml" (running, ([], []))).1)
deploy_pod_not_retried_example =
    deploy_pod_not_retried device dirs device-KeepsFiles web web_pod "yaml" running ([], [])
      web_failed

abbrev nothing : Config
nothing = record { secrets = []; workloads = [] }

stale_removed : update device dirs nothing (running, ([], "web" ∷ [])) ≡ ([], (running, ([], [])))
unfolding update reconcile update_secrets sync_listed sync_secrets drop_unknown remove_secrets
    deploy_all clean_up remove_listed remove_stale remove_one index_names names_of without keys put
    remove
stale_removed = refl

-- The workload runs already, and its files are the ones it should have.
abbrev kept_device : Device
kept_device = (
  (manifest_path dirs "web", "web---\n") ∷ (auth_file_path dirs "web", "token") ∷ [],
  "web" ∷ "old" ∷ [],
)

abbrev only_web : Config
only_web = record { secrets = []; workloads = web ∷ [] }

old_removed :
    update device dirs only_web (running, kept_device)
    ≡ ([], (running, (kept_device.0, "web" ∷ [])))
unfolding update reconcile update_secrets sync_listed sync_secrets drop_unknown remove_secrets
    deploy_all deploy to_pod of_spec to_pod_yaml ensure_workload_dir_exists deploy_pod
    pod_configuration_modified pod_modified read_differs pod_auth_modified manifest_path
    auth_file_path workload_dir_path dash_spaces clean_up remove_listed remove_stale remove_one
    index_names names_of without keys get has put remove
old_removed = refl

update-configured_example : contains "web" (names_of (web ∷ [])) ≡ true
update-configured_example =
    update-configured device dirs (λ w. w.1) device-KeepsWorkloads only_web running kept_device refl
      (ap (λ x. x.0) old_removed) "web" (ap (λ x. contains "web" x.1.1.1) old_removed)

-- ===== src/Workload/Examples.antt =====
-- Tests of the workloads (internal/workload), and their theorems at inputs.
use k4e_device_worker.Prelude.{
  ◌≡◌, refl, Option, none, some, List, [], ◌∷◌, ◌++◌, String, pos, text_key, Map, remove, get-put,
  get-remove, sym, ap, ◌∙◌, Result, err, arith, ok, Err, get, put, has,
}
use k4e_device_worker.Workload.Mapping.{
  Repository, Entry, add, get_id, get_name, new_mapping_repository, entries, empty,
}
use k4e_device_worker.Workload.Mapping.Consistent.{
  IsConsistent, empty-IsConsistent, add-IsConsistent,
}
use k4e_device_worker.Workload.Mapping.Reload.{reload}
use k4e_device_worker.Workload.Netfilter.{add_chain, add_rule}
use k4e_device_worker.Workload.Wrapper.{
  Env, Pod, Wrapper, apply_network_configuration, open_ports, get_host_ports, all_ports,
  container_ports, next_container, add_rules,
}
use k4e_device_worker.Workload.Secrets.{Secret, Podman}
use k4e_device_worker.Workload.Secrets.Synced.{KeepsSecrets}
use k4e_device_worker.Workload.Wrapper.Network.{open_all, apply_network_configuration-open_all}

abbrev save_to : List Entry → List Entry → Option Err × List Entry
save_to es w = (none, es)

abbrev one_pod : Repository
one_pod = record { id_to_name = ("6f2a", "web") ∷ []; name_to_id = ("web", "6f2a") ∷ [] }

add_one : (add save_to "web" "6f2a" empty []).1 ≡ one_pod
unfolding add put
add_one = refl

one_pod-IsConsistent : IsConsistent one_pod
unfolding add get put
one_pod-IsConsistent = add-IsConsistent save_to "web" "6f2a" empty [] refl refl empty-IsConsistent

reload_example :
    (m' : Repository) × (new_mapping_repository (some (ok (entries one_pod.id_to_name))) ≡ ok m')
    × ((name : String) → get_id m' name ≡ get_id one_pod name)
    × ((id : String) → get_name m' id ≡ get_name one_pod id)
unfolding has
reload_example = reload one_pod (refl, tt) one_pod-IsConsistent

-- A host on which every call goes well, and that keeps the commands of `nft`.
abbrev host : Env (List (List String)) String
host = record {
  list = λ w. (ok (record { id = "6f2a"; name = "web"; status = "Running" } ∷ []), w);
  remove_pod = λ id w. (ok tt, w);
  stop_pod = λ id w. (ok tt, w);
  run_pods = λ manifest auth w. (ok ("6f2a" ∷ []), w);
  start_pod = λ id w. (ok tt, w);
  generate_service = λ name w. (ok name, w);
  nft = λ args w. (none, w ++ args ∷ []);
  save_mapping = λ es w. (none, w);
  save_services = λ services w. (none, w);
  service_name = λ s. s;
  service_add = λ s w. (ok tt, w);
  service_enable = λ s w. (ok tt, w);
  service_start = λ s w. (ok tt, w);
  service_stop = λ s w. (ok tt, w);
  service_remove = λ s w. (ok tt, w);
  format_port = λ p. "8080";
  remove_services_file = λ w. (ok tt, w);
  remove_mapping_file = λ w. (ok tt, w);
  make_auto_update_timer = λ w. (ok "podman-auto-update", w);
}

abbrev web : Pod
web = record {
  name = "web";
  containers = record { name = "nginx"; host_ports = pos 8080 ∷ [] } ∷ [];
}

abbrev bad_web : Pod
bad_web = record {
  name = "web";
  containers = record { name = "nginx"; host_ports = pos 70000 ∷ [] } ∷ [];
}

abbrev start_state : Wrapper String × List (List String)
start_state = (record { mapping = empty; services = [] }, [])

web_commands :
    (apply_network_configuration host web start_state).1.1
    ≡ ("add" ∷ "chain" ∷ "inet" ∷ "edge" ∷ "web" ∷ "{ type filter hook input priority 0 ; }" ∷ [])
      ∷ ("add" ∷ "rule" ∷ "inet" ∷ "edge" ∷ "web"
          ∷ "tcp dport 8080 ct state new,established counter accept" ∷ [])
      ∷ []
unfolding apply_network_configuration open_ports get_host_ports all_ports container_ports
    next_container add_rules add_chain add_rule
web_commands = refl

apply_network_configuration-open_all_example :
    apply_network_configuration host web start_state ≡ open_all host web start_state
apply_network_configuration-open_all_example =
    apply_network_configuration-open_all host web start_state

-- The set of the names of a map.
unfoldable names : Map String String → Map String (Unit {0})
names [] = []
names ((k, v) ∷ m) = (k, tt) ∷ names m

names-has : (m : Map String String) (j : String) → has (names m) j ≡ has m j
unfolding names has get
names-has [] j = refl
names-has ((k, v) ∷ m) j = ground (arith, names-has m j)

ok_of : {A : Type 0} → A → Result A → A
ok_of a (ok b) = b
ok_of a (err e) = a

listed_names :
    (m : Map String String) (device : Map String (Unit {0})) (j : String)
    → ok (names m) ≡ ok device
    → has device j ≡ has m j
unfolding ok_of
listed_names m device j h = sym (ap (λ r. has (ok_of [] r) j) h) ∙ names-has m j

-- Podman with its secrets as a map.
abbrev secret_store : Podman (Map String String)
secret_store = record {
  list_secrets = λ w. (ok (names w), w);
  create_secret = λ n d w. (none, put w n d);
  update_secret = λ n d w. (none, put w n d);
  remove_secret = λ n w. (none, remove w n);
}

secret_store-KeepsSecrets : KeepsSecrets secret_store (λ w. w)
secret_store-KeepsSecrets = record {
  listed = λ w device h j. listed_names w device j h;
  created = λ w n d h j. get-put w n j d;
  updated = λ w n d h j. get-put w n j d;
  removed = λ w n h j. get-remove w n j;
}

abbrev two_secrets : List Secret
two_secrets =
    record { name = "token"; data_text = "t1" }
    ∷ record { name = "login"; data_text = "admin" }
    ∷ []

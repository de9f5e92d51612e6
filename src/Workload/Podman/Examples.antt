-- ===== src/Workload/Podman/Examples.antt =====
-- Tests of the podman client (internal/workload/podman/podman.go), and its theorems at inputs.
use k4e_device_worker.Prelude.{
  ◌≡◌, refl, sym, ap, Bool, false, none, some, List, [], ◌∷◌, String, Map, keys, get, has, put,
  remove as remove_key, get-put, get-remove, has-remove, text_key, Result, ok, err, contains,
  contains-keys,
}
use k4e_device_worker.Workload.Podman.{
  Bindings, PodmanEvent, list_secrets, create_secret, create_after, remove_secret, update_secret,
  remove, remove_if, exists, name_set,
}
use k4e_device_worker.Workload.Podman.Kept.{HoldsSecrets, HoldsPods, client, update_secrets-client}
use k4e_device_worker.Workload.Podman.Events.{Observer, dispatch_all, dispatch, observe}
use k4e_device_worker.Workload.Podman.Events.Observed.{dispatch_all-mine, called_all, calls_for}
use k4e_device_worker.Workload.Secrets.{
  Secret, update_secrets, sync_listed, sync_secrets, drop_unknown, remove_secrets,
}
use k4e_device_worker.Workload.Secrets.Synced.{configured}

-- A podman whose pods and secrets are the entries of one map, and on which every call goes well.
abbrev host : Bindings (Map String String)
host = record {
  list_pods = λ w. (ok [], w);
  pod_exists = λ id w. (ok (has w id), w);
  remove_pod = λ id w. (none, remove_key w id);
  inspect_pod = λ id w. (ok (record { name = id; containers = [] }), w);
  stop_pod = λ id timeout w. (none, w);
  start_pod = λ id w. (none, w);
  inspect_container = λ id w. (ok (record { name = id; networks = [] }), w);
  play_kube = λ manifest auth w. (ok [], w);
  list_secrets = λ w. (ok (keys w), w);
  remove_secret = λ n w. (none, remove_key w n);
  create_secret = λ n d w. (none, put w n d);
  generate_systemd = λ name interval w. (ok [], w);
}

keys_of : Result (List String) → List String
keys_of (ok names) = names
keys_of (err e) = []

host_listed :
    (w : Map String String) (names : List String)
    → (host.list_secrets w).0 ≡ ok names
    → (j : String) → contains j names ≡ has w j
unfolding keys_of
host_listed w names h j = rw (sym (ap keys_of h)) (contains-keys w j)

host_secrets : HoldsSecrets host (λ w. w)
host_secrets = record {
  listed = host_listed;
  created = λ w n d h j. get-put w n j d;
  refused = λ w n d e h. cc;
  removed = λ w n h j. get-remove w n j;
}

abbrev wanted : List Secret
wanted =
    record { name = "token"; data_text = "new" } ∷ record { name = "key"; data_text = "k" } ∷ []

abbrev held : Map String String
held = ("token", "old") ∷ ("stale", "s") ∷ []

syncs : (update_secrets (client host) wanted held).0 ≡ []
unfolding update_secrets sync_listed sync_secrets drop_unknown remove_secrets list_secrets name_set
    create_secret create_after remove_secret update_secret keys get put has remove_key
syncs = refl

update_secrets-client_example :
    get (update_secrets (client host) wanted held).1 "token" ≡ configured wanted "token"
update_secrets-client_example =
    update_secrets-client host (λ w. w) host_secrets wanted held (refl, (refl, tt)) syncs "token"

-- A podman that cannot create secrets.
abbrev full_host : Bindings (Map String String)
full_host = record host { create_secret = λ n d w. (some "no space", w) }

full_host_secrets : HoldsSecrets full_host (λ w. w)
full_host_secrets = record {
  listed = host_listed;
  created = λ w n d h j. cc;
  refused = λ w n d e h. refl;
  removed = λ w n h j. get-remove w n j;
}

answer : Result Bool → Bool
answer (ok b) = b
answer (err e) = false

host_told :
    (w : Map String String) (id : String) (b : Bool)
    → (host.pod_exists id w).0 ≡ ok b
    → b ≡ has w id
unfolding answer
host_told w id b h = sym (ap answer h)

host_pods : HoldsPods host (λ w id. has w id)
host_pods = record {
  told = host_told;
  asked = λ w id j. refl;
  removed = λ w id h j. has-remove w id j;
}

removes : (remove host "token" held).0 ≡ ok tt
unfolding remove remove_if exists has get
removes = refl

-- Two observers that keep the names that were started, each in its own list.
abbrev first : Observer (List String × List String)
first = record {
  workload_started = λ name reports (a, b). (name ∷ a, b);
  workload_removed = λ name (a, b). (a, b);
}

abbrev second : Observer (List String × List String)
second = record {
  workload_started = λ name reports (a, b). (a, name ∷ b);
  workload_removed = λ name (a, b). (a, []);
}

abbrev second_alone : Observer (List String)
second_alone = record {
  workload_started = λ name reports b. name ∷ b;
  workload_removed = λ name b. [];
}

abbrev two_events : List PodmanEvent
two_events =
    record { event = "stoppedContainer"; workload_name = "web"; report = none }
    ∷ record { event = "startedContainer"; workload_name = "db"; report = none }
    ∷ []

dispatch_all-mine_example :
    (dispatch_all two_events (first ∷ second ∷ []) ([], "web" ∷ [])).1
    ≡ called_all second_alone (calls_for two_events) ("web" ∷ [])
dispatch_all-mine_example =
    dispatch_all-mine (λ p. p.1) (first ∷ []) [] second second_alone
      ((λ name reports v. refl), (λ name v. refl))
      (((λ name reports v. refl), (λ name v. refl)), tt) tt two_events ([], "web" ∷ [])

second_saw : (dispatch_all two_events (first ∷ second ∷ []) ([], "web" ∷ [])).1 ≡ "db" ∷ []
unfolding dispatch_all dispatch observe
second_saw = refl

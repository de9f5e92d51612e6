-- ===== src/Workload/Wrapper.antt =====
-- `Workload` of internal/workload/wrapper.go: a workload's pod, network chain, identifier and
-- service together. Podman and the services are parameters.
pub mod Ports
pub mod Lifecycle
pub mod Network
use k4e_device_worker.Prelude.{
  ℕ, Bool, true, false, ◌&&◌, Option, none, some, List, [], ◌∷◌, ◌++◌, String, Map, get, put,
  remove, if◌then◌else◌, ◌==◌, text_key, ℤ, pos, ltb_ℤ, Result, ok, err, Err, Exec, pure, raise,
  lift, attempt, wrap_error, ignore, check, ◌>>=◌, ◌>>◌, ◌⧺◌,
}
use k4e_device_worker.Workload.Mapping.{
  Repository, Entry, get_id, get_name, add, remove_name, persist,
}
use k4e_device_worker.Workload.Netfilter.{
  NftError, add_chain, delete_chain, add_rule, add_table, delete_table,
}
use k4e_device_worker.Service.Registry.{register, unregister}

-- The parts of a v1.Pod that the wrapper reads: `HostPort` is an int32.
pub record Container : Type 0 where
  pub name : String
  pub host_ports : List ℤ

pub record Pod : Type 0 where
  pub name : String
  pub containers : List Container

-- api.WorkloadInfo
pub record WorkloadInfo : Type 0 where
  pub id : String
  pub name : String
  pub status : String

-- The repository of identifiers and the registry of services that the wrapper owns.
pub record Wrapper (S : Type 0) : Type 0 where
  pub mapping : Repository
  pub services : Map String S

pub record Env (W S : Type 0) : Type 0 where
  pub list : Exec W (List WorkloadInfo)
  pub remove_pod : String → Exec W (Unit {0})
  pub stop_pod : String → Exec W (Unit {0})
  pub run_pods : String → String → Exec W (List String)  -- the identifiers of the pods
  pub start_pod : String → Exec W (Unit {0})
  pub generate_service : String → Exec W S
  pub nft : List String → W → Option NftError × W
  pub save_mapping : List Entry → W → Option Err × W
  pub save_services : Map String S → W → Option Err × W
  pub service_name : S → String
  pub service_add : S → Exec W (Unit {0})
  pub service_enable : S → Exec W (Unit {0})
  pub service_start : S → Exec W (Unit {0})
  pub service_stop : S → Exec W (Unit {0})
  pub service_remove : S → Exec W (Unit {0})
  pub format_port : ℤ → String  -- the `%d` of the rule
  pub remove_services_file : Exec W (Unit {0})
  pub remove_mapping_file : Exec W (Unit {0})
  -- `NewSystemdWithSuffix("podman-auto-update", "", "", TimerSuffix, nil)`
  pub make_auto_update_timer : Exec W S

abbrev pub nf_table_name : String
nf_table_name = "edge"

-- `p.HostPort > 0 && p.HostPort < 65536`
abbrev pub is_legal_port : ℤ → Bool
is_legal_port p = ltb_ℤ (pos 0) p && ltb_ℤ p (pos 65536)

unfoldable pub container_ports : List ℤ → List ℤ → Option (List ℤ)
container_ports [] host_ports = some host_ports
container_ports (p ∷ rest) host_ports =
    let next = container_ports rest (host_ports ++ p ∷ []) in if is_legal_port p then next else none

unfoldable pub next_container : (List ℤ → Option (List ℤ)) → Option (List ℤ) → Option (List ℤ)
next_container more none = none
next_container more (some host_ports) = more host_ports

unfoldable pub all_ports : List Container → List ℤ → Option (List ℤ)
unfolding container_ports next_container
all_ports [] host_ports = some host_ports
all_ports (c ∷ rest) host_ports =
    next_container (all_ports rest) (container_ports c.host_ports host_ports)

-- `none` is the error for an illegal port, whose text names the container and the workload.
unfoldable pub get_host_ports : Pod → Option (List ℤ)
unfolding all_ports
get_host_ports pod = all_ports pod.containers []

module _ {W S : Type 0} (env : Env W S) where
  -- The wrapper's fields and the world.
  abbrev pub State : Type 0
  State = Wrapper S × W

  abbrev pub ext : {A : Type 0} → Exec W A → Exec State A
  ext m (s, w) = let (r, w') = m w in (r, (s, w'))

  abbrev pub add_mapping : String → String → State → Option Err × State
  add_mapping name id (s, w) =
      let (e, m, w') = add env.save_mapping name id s.mapping w in
      (e, (record s { mapping = m }, w'))

  abbrev pub remove_mapping : String → State → Option Err × State
  remove_mapping name (s, w) =
      let (e, m, w') = remove_name env.save_mapping name s.mapping w in
      (e, (record s { mapping = m }, w'))

  abbrev pub add_service : S → State → Option Err × State
  add_service svc (s, w) =
      let (e, m, w') = register env.service_name env.save_services svc s.services w in
      (e, (record s { services = m }, w'))

  abbrev remove_service_entry : S → State → Option Err × State
  remove_service_entry svc (s, w) =
      let (e, m, w') = unregister env.service_name env.save_services svc s.services w in
      (e, (record s { services = m }, w'))

  -- `GetId`, or the name itself where there is no identifier
  unfoldable pub id_or_name : String → Exec State String
  id_or_name name (s, w) =
      let id = get_id s.mapping name in (ok (if id == "" then name else id), (s, w))

  drop_service : Option S → Exec State (Unit {0})
  drop_service none = pure tt
  drop_service (some svc) = do
    ignore (ext (env.service_stop svc))
    ext (env.service_remove svc)
    ignore (check (remove_service_entry svc))

  unfoldable pub remove_service : String → Exec State (Unit {0})
  unfolding drop_service
  remove_service name (s, w) = drop_service (get s.services name) (s, w)

  -- `Remove`: a chain that cannot be deleted is only logged.
  unfoldable pub remove_workload : String → Exec State (Unit {0})
  unfolding id_or_name remove_service
  remove_workload name = do
    id ← id_or_name name
    remove_service name
    ext (env.remove_pod id)
    ignore (ext (delete_chain env.nft nf_table_name name))
    check (remove_mapping name)

  unfoldable pub stop_workload : String → Exec State (Unit {0})
  unfolding id_or_name
  stop_workload name = do id ← id_or_name name; ext (env.stop_pod id)

  abbrev pub rule : ℤ → String
  rule p = "tcp dport " ⧺ (env.format_port p ⧺ " ct state new,established counter accept")

  unfoldable pub add_rules : String → List ℤ → Exec State (Unit {0})
  add_rules name [] = pure tt
  add_rules name (p ∷ rest) = do
    wrap_error (λ e. "failed to add rule " ⧺ (rule p ⧺ (" for workload " ⧺ (name ⧺ (": " ⧺ e)))))
        (ext (add_rule env.nft nf_table_name name (rule p)))
    add_rules name rest

  unfoldable pub open_ports : Pod → Option (List ℤ) → Exec State (Unit {0})
  unfolding add_rules
  open_ports pod none = raise "illegal host port number"
  open_ports pod (some []) = pure tt
  open_ports pod (some (p ∷ rest)) = do
    wrap_error (λ e. "failed to create chain for workload " ⧺ (pod.name ⧺ (": " ⧺ e)))
        (ext (add_chain env.nft nf_table_name pod.name))
    add_rules pod.name (p ∷ rest)

  unfoldable pub apply_network_configuration : Pod → Exec State (Unit {0})
  unfolding open_ports
  apply_network_configuration pod = open_ports pod (get_host_ports pod)

  unfoldable pub create_service : S → Exec State (Unit {0})
  create_service svc = do
    ext (env.service_add svc)
    ext (env.service_enable svc)
    ext (env.service_start svc)

  -- `podIds[0]`: podman makes a pod of every manifest that it plays; without one this is a panic,
  -- which the model makes an error of its own
  unfoldable pub first_pod : List String → Exec State String
  first_pod [] = raise "index out of range [0] with length 0"
  first_pod (id ∷ rest) = pure id

  -- the end of `Run`: the service of the pod, created and registered
  unfoldable pub install_service : Pod → Exec State (Unit {0})
  unfolding create_service
  install_service pod = do
    svc ←
        wrap_error (λ e. "Error while generating systemd service: " ⧺ e)
          (ext (env.generate_service pod.name))
    wrap_error (λ e. "Error while creating service: " ⧺ e) (create_service svc)
    wrap_error (λ e. "Error while updating service manager: " ⧺ e) (check (add_service svc))

  unfoldable pub run_workload : Pod → String → String → Exec State (Unit {0})
  unfolding apply_network_configuration install_service first_pod
  run_workload pod manifest_path auth_file_path = do
    apply_network_configuration pod
    ids ← ext (env.run_pods manifest_path auth_file_path)
    id ← first_pod ids
    check (add_mapping pod.name id)
    install_service pod

  unfoldable pub start_workload : Pod → Exec State (Unit {0})
  unfolding apply_network_configuration
  start_workload pod = do
    ignore (ext (delete_chain env.nft nf_table_name pod.name))
    apply_network_configuration pod
    (λ (s, w). ext (env.start_pod (get_id s.mapping pod.name)) (s, w))

  -- "if mappedName != "" "
  name_infos : Repository → List WorkloadInfo → List WorkloadInfo
  name_infos m [] = []
  name_infos m (i ∷ rest) =
      (if get_name m i.id == "" then i else record i { name = get_name m i.id }) ∷ name_infos m rest

  unfoldable pub list_workloads : Exec State (List WorkloadInfo)
  unfolding name_infos
  list_workloads (s, w) = (do infos ← ext env.list; pure (name_infos s.mapping infos)) (s, w)

  -- `Init`: the timer that updates the images, and the table of the rules.
  unfoldable pub init_wrapper : Exec State (Unit {0})
  init_wrapper = do
    svc ← ext env.make_auto_update_timer
    ext (env.service_enable svc)
    ext (env.service_start svc)
    ext (add_table env.nft nf_table_name)

  unfoldable pub remove_table : Exec State (Unit {0})
  remove_table = ext (delete_table env.nft nf_table_name)

  unfoldable pub remove_services_file : Exec State (Unit {0})
  remove_services_file = ext env.remove_services_file

  unfoldable pub remove_mapping_file : Exec State (Unit {0})
  remove_mapping_file = ext env.remove_mapping_file

  unfoldable pub persist_configuration : Exec State (Unit {0})
  unfolding persist
  persist_configuration =
      check (λ (s, w). let (e, w') = persist env.save_mapping s.mapping w in (e, (s, w')))

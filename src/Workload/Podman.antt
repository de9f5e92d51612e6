-- ===== src/Workload/Podman.antt =====
-- The client of podman (internal/workload/podman/podman.go). The bindings of podman's API are
-- parameters.
pub mod Kept
pub mod Events
pub mod Lines
mod Examples
use k4e_device_worker.Prelude.{
  ℕ, Bool, true, false, Option, none, some, List, [], ◌∷◌, ◌++◌, String, Map, get, put,
  if◌then◌else◌, text_key, Result, ok, err, Err, Exec, pure, raise, check, ignore, ◌>>=◌, ◌>>◌, ◌⧺◌,
}
use k4e_device_worker.Service.{Systemd, new_systemd}
use k4e_device_worker.Workload.Wrapper.{WorkloadInfo}

pub record ContainerReport : Type 0 where
  pub ip_address : String
  pub id : String
  pub name : String

pub record PodReport : Type 0 where
  pub id : String
  pub name : String
  pub containers : List ContainerReport

-- `podman_event` is `PodmanEvent`, whose report may be nil.
pub record PodmanEvent : Type 0 where
  pub event : String
  pub workload_name : String
  pub report : Option PodReport

-- What the bindings come back with, as far as it is read.
pub record ListedPod : Type 0 where
  pub id : String
  pub name : String
  pub status : String

pub record PodInspection : Type 0 where
  pub name : String
  pub containers : List String

pub record ContainerInspection : Type 0 where
  pub name : String
  pub networks : Map String String

pub record PlayedPod : Type 0 where
  pub id : String
  pub containers : List String

-- An event of podman: `Action`, `ID` and the attributes of its actor.
pub record Message : Type 0 where
  pub action : String
  pub id : String
  pub attributes : Map String String

-- podman/v3/pkg/bindings, with the connection to the socket. `remove_pod` is called with `Force`.
pub record Bindings (W : Type 0) : Type 0 where
  pub list_pods : Exec W (List ListedPod)
  pub pod_exists : String → Exec W Bool
  pub remove_pod : String → W → Option Err × W
  pub inspect_pod : String → Exec W PodInspection
  pub stop_pod : String → ℕ → W → Option Err × W
  pub start_pod : String → W → Option Err × W
  pub inspect_container : String → Exec W ContainerInspection
  pub play_kube : String → String → Exec W (List PlayedPod)
  pub list_secrets : Exec W (List String)
  pub remove_secret : String → W → Option Err × W
  pub create_secret : String → String → W → Option Err × W
  pub generate_systemd : String → ℕ → Exec W (Map String String)

abbrev pub stopped_container : String
stopped_container = "stoppedContainer"

abbrev pub started_container : String
started_container = "startedContainer"

-- the texts of libpod's `Start`, `Remove` and `Stop`
abbrev pub podman_start : String
podman_start = "start"

abbrev pub podman_remove : String
podman_remove = "remove"

abbrev pub podman_stop : String
podman_stop = "stop"

abbrev pub default_timeout_for_stopping : ℕ
default_timeout_for_stopping = 5

abbrev pub append_container : PodReport → ContainerReport → PodReport
append_container r c = record r { containers = r.containers ++ c ∷ [] }

module _ {W : Type 0} (bindings : Bindings W) where
  unfoldable pub list_infos : List ListedPod → List WorkloadInfo
  list_infos [] = []
  list_infos (p ∷ rest) = record { id = p.id; name = p.name; status = p.status } ∷ list_infos rest

  unfoldable pub list : Exec W (List WorkloadInfo)
  unfolding list_infos
  list = do pods ← bindings.list_pods; pure (list_infos pods)

  unfoldable pub exists : String → Exec W Bool
  exists workload_id = bindings.pod_exists workload_id

  unfoldable pub remove_if : String → Bool → Exec W (Unit {0})
  remove_if workload_id true = check (bindings.remove_pod workload_id)
  remove_if workload_id false = pure tt

  unfoldable pub remove : String → Exec W (Unit {0})
  unfolding exists remove_if
  remove workload_id = do is_there ← exists workload_id; remove_if workload_id is_there

  unfoldable pub stop_if : String → Bool → Exec W (Unit {0})
  stop_if workload_id true = check (bindings.stop_pod workload_id default_timeout_for_stopping)
  stop_if workload_id false = pure tt

  unfoldable pub stop : String → Exec W (Unit {0})
  unfolding stop_if
  stop workload_id = do is_there ← bindings.pod_exists workload_id; stop_if workload_id is_there

  unfoldable pub start : String → Exec W (Unit {0})
  start workload_id = check (bindings.start_pod workload_id)

  container_of : String → ContainerInspection → Option String → Result ContainerReport
  container_of container_id inspected none =
      err ("cannot retrieve container '" ⧺ (container_id ⧺ "' network information"))
  container_of container_id inspected (some address) =
      ok (record { ip_address = address; id = container_id; name = inspected.name })

  unfoldable pub get_container_details : String → Exec W ContainerReport
  unfolding container_of
  get_container_details container_id = do
    inspected ← bindings.inspect_container container_id
    (λ w. (container_of container_id inspected (get inspected.networks "podman"), w))

  -- "cannot get container information" is only logged
  unfoldable pub append_details : PodReport → Result ContainerReport → PodReport
  append_details r (err e) = r
  append_details r (ok c) = append_container r c

  -- the loop over the containers of a pod
  unfoldable pub report_containers : PodReport → List String → W → PodReport × W
  unfolding get_container_details append_details
  report_containers r [] w = (r, w)
  report_containers r (container ∷ rest) w =
      let (details, w') = get_container_details container w in
      report_containers (append_details r details) rest w'

  unfoldable pub reporting : PodReport → List String → Exec W PodReport
  unfolding report_containers
  reporting r containers w = let (r', w') = report_containers r containers w in (ok r', w')

  unfoldable pub get_pod_report_for_id : String → Exec W PodReport
  unfolding reporting
  get_pod_report_for_id pod_id = do
    info ← bindings.inspect_pod pod_id
    reporting (record { id = pod_id; name = info.name; containers = [] }) info.containers

  -- the loop over the pods that were made
  unfoldable pub report_pods : List PlayedPod → Exec W (List PodReport)
  unfolding reporting
  report_pods [] = pure []
  report_pods (pod ∷ rest) = do
    r ← reporting (record { id = pod.id; name = ""; containers = [] }) pod.containers
    more ← report_pods rest
    pure (r ∷ more)

  unfoldable pub run : String → String → Exec W (List PodReport)
  unfolding report_pods
  run manifest_path auth_file_path = do
    pods ← bindings.play_kube manifest_path auth_file_path
    report_pods pods

  unfoldable pub name_set : List String → Map String (Unit {0}) → Map String (Unit {0})
  name_set [] result = result
  name_set (name ∷ rest) result = name_set rest (put result name tt)

  unfoldable pub list_secrets : Exec W (Map String (Unit {0}))
  unfolding name_set
  list_secrets = do names ← bindings.list_secrets; pure (name_set names [])

  unfoldable pub remove_secret : String → W → Option Err × W
  remove_secret name w = bindings.remove_secret name w

  unfoldable pub create_secret : String → String → W → Option Err × W
  create_secret name content w = bindings.create_secret name content w

  unfoldable pub create_after : String → String → Option Err × W → Option Err × W
  unfolding create_secret
  create_after name content (some e, w) = (some e, w)
  create_after name content (none, w) = create_secret name content w

  unfoldable pub update_secret : String → String → W → Option Err × W
  unfolding remove_secret create_after
  update_secret name content w = create_after name content (remove_secret name w)

  -- `GenerateSystemdService`, where `connect` is the connection that `NewSystemd` makes
  unfoldable pub generate_systemd_service :
      {Conn : Type 0} → Exec W Conn → String → ℕ → Exec W (Systemd Conn)
  unfolding new_systemd
  generate_systemd_service connect pod_name monitoring_interval = do
    units ← bindings.generate_systemd (pod_name ⧺ "_pod") monitoring_interval
    conn ← connect
    pure (new_systemd conn pod_name "pod-" units)

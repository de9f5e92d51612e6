-- ===== src/Workload/Manager.antt =====
-- `WorkloadManager` of internal/workload/manager.go: the workloads on the device are made those of
-- the configuration. The wrapper around podman, the file system and yaml are parameters.
pub mod Files
pub mod Retry
use k4e_device_worker.Prelude.{
  Bool, true, false, ◌&&◌, ◌||◌, not, Option, none, some, List, [], ◌∷◌, ◌++◌, String, Map, keys,
  put, contains, if◌then◌else◌, ◌==◌, text_key, Result, ok, err, Err, Exec, pure, raise, lift,
  ignore, check, attempt, wrap_error, collect, ◌>>=◌, ◌>>◌, ◌⧺◌,
}
use k4e_device_worker.Workload.Pods.{
  Workload, Pod, PodSpec, Dirs, workload_dir_path, auth_file_path, manifest_path, to_pod,
  to_pod_yaml,
}
use k4e_device_worker.Workload.Secrets.{Secret, Podman, update_secrets}

-- models.EventInfo
pub record Event : Type 0 where
  pub message : String
  pub reason : String
  pub is_warning : Bool

pub record Manager : Type 0 where
  pub deregistered : Bool
  pub events_queue : List Event

-- models.DeviceConfigurationMessage, as far as `Update` reads it
pub record Config : Type 0 where
  pub secrets : List Secret
  pub workloads : List Workload

-- os.Remove fails on a file that is not there.
pub data RemoveError : Type 0 where
  does_not_exist : RemoveError
  failed : Err → RemoveError

pub record Env (W X : Type 0) : Type 0 where
  pub parse_spec : String → Result (PodSpec X)
  pub marshal_pod : Pod X → Result String
  pub multierror_text : List Err → Err
  pub exists : String → W → Bool  -- os.Stat without an error
  pub read_file : String → W → Result String
  pub write_file : String → String → W → Option Err × W
  pub mkdir_all : String → W → Option Err × W
  pub remove_all : String → W → Option Err × W
  pub remove_file : String → W → Option RemoveError × W
  pub podman : Podman W
  pub list : Exec W (List String)  -- the names of the workloads
  pub remove : String → Exec W (Unit {0})
  pub stop : String → Exec W (Unit {0})
  pub run : Pod X → String → String → Exec W (Unit {0})
  pub remove_table : Exec W (Unit {0})
  pub remove_mapping_file : Exec W (Unit {0})
  pub remove_services_file : Exec W (Unit {0})

module _ {W X : Type 0} (env : Env W X) (dirs : Dirs) where
  abbrev pub State : Type 0
  State = Manager × W

  abbrev pub ext : {A : Type 0} → Exec W A → Exec State A
  ext act (m, w) = let (r, w') = act w in (r, (m, w'))

  -- `NewWorkloadManagerWithParamsAndInterval`, with `Init` of the wrapper
  unfoldable pub new_workload_manager : Exec W (Unit {0}) → Exec W Manager
  new_workload_manager init = do
    wrap_error (λ e. "cannot create directory: " ⧺ e) (check (env.mkdir_all dirs.workloads_dir))
    wrap_error (λ e. "cannot create directory: " ⧺ e) (check (env.mkdir_all dirs.volumes_dir))
    init
    pure (record { deregistered = false; events_queue = [] })

  -- The copy of the events, and the queue emptied
  unfoldable pub pop_events : State → List Event × State
  pop_events (m, w) = (m.events_queue, (record m { events_queue = [] }, w))

  unfoldable pub ensure_workload_dir_exists : String → Exec W (Unit {0})
  ensure_workload_dir_exists name w =
      let made = check (env.mkdir_all (workload_dir_path dirs name)) w in
      if env.exists (workload_dir_path dirs name) w then (ok tt, w) else made

  unfoldable pub read_differs : Result String → String → Bool
  read_differs (err e) text = true
  read_differs (ok old) text = not (old == text)

  unfoldable pub pod_modified : String → String → W → Bool
  unfolding read_differs
  pod_modified path yaml w = read_differs (env.read_file path w) yaml

  unfoldable pub pod_auth_modified : String → String → W → Bool
  unfolding read_differs
  pod_auth_modified path auth w =
      if env.exists path w then read_differs (env.read_file path w) auth else not (auth == "")

  unfoldable pub pod_configuration_modified : String → String → String → String → W → Bool
  unfolding pod_modified pod_auth_modified
  pod_configuration_modified manifest yaml auth_path auth w =
      pod_modified manifest yaml w || pod_auth_modified auth_path auth w

  delete_file_result : Option RemoveError × W → Result (Unit {0}) × W
  delete_file_result (none, w) = (ok tt, w)
  delete_file_result (some does_not_exist, w) = (ok tt, w)
  delete_file_result (some (failed e), w) = (err e, w)

  unfoldable pub delete_file : String → Exec W (Unit {0})
  unfolding delete_file_result
  delete_file path w = delete_file_result (env.remove_file path w)

  remove_auth_file : String → Exec W String
  unfolding delete_file
  remove_auth_file path = do
    wrap_error (λ e. "cannot remove auth file " ⧺ (path ⧺ (": " ⧺ e))) (delete_file path)
    pure ""

  unfoldable pub store_auth_file : String → String → Exec W String
  store_auth_file path auth = do
    wrap_error (λ e. "cannot store auth file " ⧺ (path ⧺ (": " ⧺ e)))
        (check (env.write_file path auth))
    pure path

  unfoldable pub manage_auth_file : String → String → Exec W String
  unfolding remove_auth_file store_auth_file
  manage_auth_file path auth =
      if auth == "" then remove_auth_file path else store_auth_file path auth

  -- A failure to run is an event beside the error.
  unfoldable pub run_result : Result (Unit {0}) × W → Manager → Result (Unit {0}) × State
  run_result (ok a, w) m = (ok a, (m, w))
  run_result (err e, w) m = (
    err e,
    (
      record m {
        events_queue =
            m.events_queue ++ record { message = e; reason = "Failed"; is_warning = true } ∷ [];
      },
      w,
    ),
  )

  unfoldable pub run_pod : Pod X → String → Exec State (Unit {0})
  unfolding run_result
  run_pod pod auth_path (m, w) =
      run_result (env.run pod (manifest_path dirs pod.name) auth_path w) m

  unfoldable pub for_workload : String → String → Err → Err
  for_workload what name e = what ⧺ (name ⧺ ("': " ⧺ e))

  -- from `storeFile` to the end of the loop's body
  unfoldable pub replace_pod : Workload → Pod X → String → Exec State (Unit {0})
  unfolding manage_auth_file run_pod for_workload
  replace_pod wl pod yaml = do
    wrap_error (for_workload "cannot store manifest for workload '" wl.name)
        (ext (check (env.write_file (manifest_path dirs pod.name) yaml)))
    auth_path ←
        wrap_error (for_workload "cannot store auth configuration for workload '" wl.name)
          (ext (manage_auth_file (auth_file_path dirs pod.name) wl.auth_file))
    wrap_error (λ e. "error removing workload " ⧺ (wl.name ⧺ (": " ⧺ e))) (ext (env.remove wl.name))
    wrap_error (for_workload "cannot run workload '" wl.name) (run_pod pod auth_path)

  unfoldable pub deploy_pod : Workload → Pod X → String → Exec State (Unit {0})
  unfolding replace_pod pod_configuration_modified
  deploy_pod wl pod yaml (m, w) =
      let replaced = replace_pod wl pod yaml (m, w) in
      if pod_configuration_modified (manifest_path dirs pod.name) yaml
        (auth_file_path dirs pod.name) wl.auth_file w
      then replaced
      else (ok tt, (m, w))

  -- The body of the loop over the workloads: an error ends it, and is added to the others. The
  -- source gives the name and the error of a failed conversion in the wrong order.
  unfoldable pub deploy : Workload → Exec State (Unit {0})
  unfolding ensure_workload_dir_exists deploy_pod for_workload
  deploy wl = do
    pod ←
        wrap_error
          (λ e.
            "cannot convert workload '"
            ⧺ (wl.name ⧺ ("' to pod. DeviceID: " ⧺ (e ⧺ ("; err: " ⧺ dirs.device_id)))))
          (lift (to_pod dirs env.parse_spec wl))
    wrap_error (for_workload "cannot create workload directory for workload '" wl.name)
        (ext (ensure_workload_dir_exists pod.name))
    yaml ←
        wrap_error
          (λ e. "cannot create pod's Yaml. DeviceID: " ⧺ (dirs.device_id ⧺ ("; err:  " ⧺ e)))
          (lift (to_pod_yaml env.marshal_pod pod wl.config_maps))
    deploy_pod wl pod yaml

  unfoldable pub deploy_all : List Workload → List Err → State → List Err × State
  unfolding deploy
  deploy_all [] errors st = (errors, st)
  deploy_all (wl ∷ rest) errors st =
      let (e, st') = attempt (deploy wl) st in deploy_all rest (collect errors e) st'

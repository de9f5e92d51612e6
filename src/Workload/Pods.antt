-- ===== src/Workload/Pods.antt =====
-- From a workload of the configuration to the pod that podman plays: `toPod` and `toPodYaml` of
-- internal/workload/manager.go, the paths of a workload, and internal/volumes/volumes.go. The
-- encodings in yaml are parameters.
pub mod Labels
use k4e_device_worker.Prelude.{
  Bool, true, false, ◌||◌, Option, none, some, List, [], ◌∷◌, ◌++◌, String, Map, put, if◌then◌else◌,
  ◌==◌, text_key, Result, ok, err, Err, ◌⧺◌,
}
use k4e_device_worker.Service.{default_service_name}
use k4e_device_worker.Workload.Netfilter.{contains_text}
use Prim.Native.Char.{Char}
use Prim.Native.String.{[] as empty_text, ◌∷◌ as text_cons}

-- The parts of a v1.Pod that are read or set; `X` is the rest of a container.
pub record Mount : Type 0 where
  pub name : String
  pub mount_path : String

pub record Volume : Type 0 where
  pub name : String
  pub host_path : String

pub record Container (X : Type 0) : Type 0 where
  pub volume_mounts : List Mount
  pub env_vars : List (String × String)
  pub others : X

pub record PodSpec (X : Type 0) : Type 0 where
  pub volumes : List Volume
  pub containers : List (Container X)

pub record Pod (X : Type 0) : Type 0 where
  pub kind : String
  pub name : String
  pub labels : Map String String
  pub spec : PodSpec X

-- models.Workload, with an empty `auth_file` for a workload without image registries
pub record Workload : Type 0 where
  pub name : String
  pub specification : String
  pub labels : Map String String
  pub config_maps : List String
  pub auth_file : String

-- strings.ReplaceAll(name, " ", "-")
unfoldable pub dash_spaces : String → String
dash_spaces empty_text = ""
dash_spaces (text_cons c rest) =
    (if text_cons c "" == " " then "-" else text_cons c "") ⧺ dash_spaces rest

-- path.Join of a clean directory and a name
abbrev pub join_path : String → String → String
join_path dir name = dir ⧺ ("/" ⧺ name)

-- The fields of `WorkloadManager` that do not change.
pub record Dirs : Type 0 where
  pub workloads_dir : String
  pub volumes_dir : String
  pub device_id : String

module _ (dirs : Dirs) where
  unfoldable pub workload_dir_path : String → String
  unfolding dash_spaces
  workload_dir_path name = join_path dirs.workloads_dir (dash_spaces name)

  unfoldable pub auth_file_path : String → String
  auth_file_path name = join_path (workload_dir_path name) "auth.json"

  unfoldable pub manifest_path : String → String
  manifest_path name = join_path (workload_dir_path name) "workload.yaml"

  unfoldable pub host_path_volume : String → Volume
  host_path_volume name = record {
    name = "export-" ⧺ name;
    host_path = join_path dirs.volumes_dir name;
  }

  unfoldable pub export_container : {X : Type 0} → Volume → Container X → Container X
  export_container v c = record c {
    volume_mounts = c.volume_mounts ++ record { name = v.name; mount_path = "/export" } ∷ [];
    env_vars = c.env_vars ++ ("DEVICE_ID", dirs.device_id) ∷ [];
  }

  unfoldable pub export_containers : {X : Type 0} → Volume → List (Container X) → List (Container X)
  unfolding export_container
  export_containers v [] = []
  export_containers v (c ∷ rest) = export_container v c ∷ export_containers v rest

  unfoldable pub has_auto_update : Map String String → Bool
  has_auto_update [] = false
  has_auto_update ((label, v) ∷ rest) =
      contains_text label "io.containers.autoupdate" || has_auto_update rest

  unfoldable pub label_unit : String → Map String String → Map String String
  unfolding has_auto_update
  label_unit name labels =
      if has_auto_update labels
      then put labels "PODMAN_SYSTEMD_UNIT" (default_service_name name)
      else labels

  unfoldable pub pod_labels : Workload → Map String String
  unfolding label_unit
  pod_labels wl = label_unit wl.name (
      if wl.auth_file == ""
      then wl.labels
      else put wl.labels "io.containers.autoupdate.authfile" (auth_file_path wl.name))

  unfoldable pub of_spec : {X : Type 0} → Workload → Result (PodSpec X) → Result (Pod X)
  unfolding host_path_volume export_containers pod_labels
  of_spec wl (err e) = err e
  of_spec wl (ok spec) = ok (record {
    kind = "Pod";
    name = wl.name;
    labels = pod_labels wl;
    spec = record {
      volumes = spec.volumes ++ host_path_volume wl.name ∷ [];
      containers = export_containers (host_path_volume wl.name) spec.containers;
    };
  })

  unfoldable pub to_pod : {X : Type 0} → (String → Result (PodSpec X)) → Workload → Result (Pod X)
  unfolding of_spec
  to_pod parse wl = of_spec wl (parse wl.specification)

-- strings.Join(configmaps, "---\n")
unfoldable pub join_config_maps : List String → String
join_config_maps [] = ""
join_config_maps (c ∷ []) = c
join_config_maps (c ∷ d ∷ rest) = c ⧺ ("---\n" ⧺ join_config_maps (d ∷ rest))

unfoldable pub to_pod_yaml :
    {X : Type 0} → (Pod X → Result String) → Pod X → List String → Result String
unfolding join_config_maps
to_pod_yaml marshal pod config_maps = append_maps (marshal pod)
  where
    append_maps : Result String → Result String
    append_maps (err e) = err e
    append_maps (ok text) = ok (text ⧺ ("---\n" ⧺ join_config_maps config_maps))

-- ===== src/Workload/Pods/Labels.antt =====
-- The labels by which podman updates a pod's images.
use k4e_device_worker.Prelude.{
  ◌≡◌, refl, sym, ap, true, false, some, String, Map, get, put, ◌==◌, text_key, get-put,
}
use k4e_device_worker.Service.{default_service_name, service_name, new_systemd}
use k4e_device_worker.Service.Restart.{default_service_name-service_name}
use k4e_device_worker.Workload.Pods.{
  Workload, Dirs, auth_file_path, has_auto_update, label_unit, pod_labels,
}

module _ (dirs : Dirs) where
  has_auto_update-put :
      (labels : Map String String) (v : String)
      → has_auto_update dirs (put labels "io.containers.autoupdate.authfile" v) ≡ true
  unfolding has_auto_update put
  has_auto_update-put labels v = refl

  -- A pod of a workload with an authentication file has that file in one label, and in another the
  -- name under which systemd knows the service that is made for it.
  pub pod_labels-auth :
      {Conn : Type 0} (conn : Conn) (units : Map String String) (wl : Workload)
      → (wl.auth_file == "") ≡ false
      → (get (pod_labels dirs wl) "io.containers.autoupdate.authfile"
          ≡ some (auth_file_path dirs wl.name))
        × (get (pod_labels dirs wl) "PODMAN_SYSTEMD_UNIT"
            ≡ some (service_name (new_systemd conn wl.name "pod-" units) wl.name))
  unfolding pod_labels label_unit
  pod_labels-auth conn units wl some_auth =
      let labels =
        put wl.labels "io.containers.autoupdate.authfile" (auth_file_path dirs wl.name) in
      rw
        (
          some_auth,
          has_auto_update-put wl.labels (auth_file_path dirs wl.name),
          get-put labels "PODMAN_SYSTEMD_UNIT" "io.containers.autoupdate.authfile"
              (default_service_name wl.name),
          get-put wl.labels "io.containers.autoupdate.authfile" "io.containers.autoupdate.authfile"
              (auth_file_path dirs wl.name),
          get-put labels "PODMAN_SYSTEMD_UNIT" "PODMAN_SYSTEMD_UNIT" (default_service_name wl.name),
        )
        (refl, ap some (sym (default_service_name-service_name conn wl.name units)))

-- ===== src/Workload/Manager/Retry.antt =====
-- What happens to a workload that could not be run, at the next update.
use k4e_device_worker.Prelude.{
  ◌≡◌, ◌≢◌, refl, sym, ap, ◌∙◌, Bool, true, false, List, String, if◌then◌else◌, text_key, Result,
  ok, Err, Exec, check, wrap_error, ◌>>=◌, ◌>>◌, ◌⧺◌, continue_cases, map_error_ok, check_ok,
  check_state,
}
use k4e_device_worker.Workload.Pods.{Workload, Pod, Dirs, auth_file_path, manifest_path}
use k4e_device_worker.Workload.Manager.{
  Env, Manager, Event, State, ext, pod_configuration_modified, manage_auth_file, run_pod,
  for_workload, replace_pod, deploy_pod,
}
use k4e_device_worker.Workload.Manager.Files.{
  KeepsFiles, IsStored, IsStored-unmodified, keep-IsStored, run_pod-IsStored,
  manage_auth_file-unmodified, manage_auth_file-reads, auth_file_path-manifest_path,
}

module _ {W X : Type 0} (env : Env W X) (dirs : Dirs) (laws : KeepsFiles env dirs) where
  -- The queue of events and the stored files, while a pod is replaced.
  abbrev StoredOnEvent : List Event → Workload → Pod X → String → State env dirs → Type 0
  StoredOnEvent before wl pod yaml st =
      st.0.events_queue ≢ before → IsStored env dirs laws wl pod yaml st.1

  replace_pod-IsStored :
      (wl : Workload) (pod : Pod X) (yaml : String) (m : Manager) (w : W)
      → StoredOnEvent m.events_queue wl pod yaml (replace_pod env dirs wl pod yaml (m, w)).1
  unfolding replace_pod
  replace_pod-IsStored wl pod yaml m w =
      let manifest = manifest_path dirs pod.name in
      let auth = auth_file_path dirs pod.name in
      let P = StoredOnEvent m.events_queue wl pod yaml in
      let not_stored = for_workload env dirs "cannot store manifest for workload '" wl.name in
      let no_auth =
        for_workload env dirs "cannot store auth configuration for workload '" wl.name in
      let not_removed : Err → Err = λ e. "error removing workload " ⧺ (wl.name ⧺ (": " ⧺ e)) in
      let not_run = for_workload env dirs "cannot run workload '" wl.name in
      let last : String → Exec (State env dirs) (Unit {0}) =
        λ auth_path. wrap_error not_run (run_pod env dirs pod auth_path) in
      let drop = wrap_error not_removed (ext env dirs (env.remove wl.name)) in
      let store_auth =
        wrap_error no_auth (ext env dirs (manage_auth_file env dirs auth wl.auth_file)) in
      let store = wrap_error not_stored (ext env dirs (check (env.write_file manifest yaml))) in
      continue_cases P (λ _. store_auth >>= (λ a. drop >> last a)) (store (m, w))
        (λ c h new. absurd (new refl))
        (λ u h.
          continue_cases P (λ a. drop >> last a) (store_auth (store (m, w)).1)
            (λ c h2 new. absurd (new refl))
            (λ a h2.
              let w1 = (check (env.write_file manifest yaml) w).1 in
              let w2 = (manage_auth_file env dirs auth wl.auth_file w1).1 in
              let wrote =
                check_ok (env.write_file manifest yaml) w
                  (map_error_ok not_stored (check (env.write_file manifest yaml) w).0 tt h) in
              let reads : env.read_file manifest w2 ≡ ok yaml =
                manage_auth_file-reads env dirs laws auth wl.auth_file manifest w1
                  (auth_file_path-manifest_path env dirs laws pod.name)
                ∙ (ap (env.read_file manifest) (check_state (env.write_file manifest yaml) w)
                    ∙ (laws.written manifest yaml w wrote).0) in
              let stored =
                keep-IsStored env dirs laws wl pod yaml w2 (env.remove wl.name w2).1
                  (λ q. laws.remove_keeps wl.name q w2)
                  (
                    reads,
                    manage_auth_file-unmodified env dirs laws auth wl.auth_file a w1 (
                        map_error_ok no_auth (manage_auth_file env dirs auth wl.auth_file w1).0 a
                          h2),
                  ) in
              continue_cases P (λ _. last a) (drop (m, w2)) (λ c h3 new. stored)
                (λ _ h3 new.
                  run_pod-IsStored env dirs laws wl pod yaml a m (env.remove wl.name w2).1 stored)))

  unchanged :
      (b : Bool) (events : List Event) (x y : Result (Unit {0}) × State env dirs)
      → y.1.0.events_queue ≡ events
      → (if b then x else y).1.0.events_queue ≢ events
      → b ≡ true
  unchanged true events x y same new = refl
  unchanged false events x y same new = absurd (new same)

  stored_deploy :
      (wl : Workload) (pod : Pod X) (yaml : String) (m : Manager) (w : W)
      → IsStored env dirs laws wl pod yaml w
      → deploy_pod env dirs wl pod yaml (m, w) ≡ (ok tt, (m, w))
  unfolding deploy_pod
  stored_deploy wl pod yaml m w stored = rw (IsStored-unmodified env dirs laws wl pod yaml w stored)

  -- A pod that could not be run, so that an event was added for it, is not run again: deploying it
  -- once more finds both of its files as they should be, reports no error and changes nothing. The
  -- file system reads what was written, and running and removing pods leaves the manifests
  -- and the files with the credentials of the workloads alone.
  pub deploy_pod_not_retried :
      (wl : Workload) (pod : Pod X) (yaml : String) (m : Manager) (w : W)
      → (deploy_pod env dirs wl pod yaml (m, w)).1.0.events_queue ≢ m.events_queue
      → deploy_pod env dirs wl pod yaml (deploy_pod env dirs wl pod yaml (m, w)).1
        ≡ (ok tt, (deploy_pod env dirs wl pod yaml (m, w)).1)
  unfolding deploy_pod
  deploy_pod_not_retried wl pod yaml m w new =
      let modified =
        pod_configuration_modified env dirs (manifest_path dirs pod.name) yaml
          (auth_file_path dirs pod.name) wl.auth_file w in
      let replaced = replace_pod env dirs wl pod yaml (m, w) in
      let changed : modified ≡ true =
        unchanged modified m.events_queue replaced (ok tt, (m, w)) refl new in
      let first : deploy_pod env dirs wl pod yaml (m, w) ≡ replaced = rw changed in
      ap (λ x. deploy_pod env dirs wl pod yaml x.1) first
      ∙ (stored_deploy wl pod yaml replaced.1.0 replaced.1.1 (
            replace_pod-IsStored wl pod yaml m w
              (λ same. new (ap (λ x. x.1.0.events_queue) first ∙ same)))
          ∙ ap (λ x. (ok tt, x.1)) (sym first))

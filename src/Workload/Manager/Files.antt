-- ===== src/Workload/Manager/Files.antt =====
-- What the files of a workload are after they were stored.
use k4e_device_worker.Prelude.{
  ◌+◌, ◌≡◌, ◌≢◌, refl, sym, ap, ◌∙◌, ◌⊎◌, inl, inr, true, false, Option, none, some, String, ◌==◌,
  text_key, Result, ok, err, Err, pure, check, continue, wrap_error, ◌⧺◌, map_error_ok, check_ok,
  check_state, Bool-cases, beq_refl, arith,
}
use text.Mathlib.TextPositions.{len-append}
use Prim.Native.String.{len}
use k4e_device_worker.Workload.Pods.{
  Workload, Pod, Dirs, auth_file_path, manifest_path, workload_dir_path,
}
use k4e_device_worker.Workload.Manager.{
  Env, Manager, RemoveError, does_not_exist, failed, pod_modified, pod_auth_modified,
  pod_configuration_modified, read_differs, delete_file, delete_file_result, manage_auth_file,
  remove_auth_file, store_auth_file, run_pod, run_result,
}

-- The manifests and the files with the credentials of the workloads
abbrev pub IsWorkloadFile : Dirs → String → Type 0
IsWorkloadFile dirs q =
    (name : String) × ((q ≡ manifest_path dirs name) ⊎ (q ≡ auth_file_path dirs name))

-- What a file system documents, and that running and removing pods, which writes other files, leaves
-- the files of the workloads alone.
pub record KeepsFiles {W X : Type 0} (env : Env W X) (dirs : Dirs) : Type 0 where
  pub written :
      (p t : String) (w : W)
      → (env.write_file p t w).0 ≡ none
      → (env.read_file p (env.write_file p t w).1 ≡ ok t)
        × (env.exists p (env.write_file p t w).1 ≡ true)
  pub write_other :
      (p q t : String) (w : W)
      → p ≢ q
      → env.read_file q (env.write_file p t w).1 ≡ env.read_file q w
  pub removed :
      (p : String) (w : W)
      → ((env.remove_file p w).0 ≡ none) ⊎ ((env.remove_file p w).0 ≡ some does_not_exist)
      → env.exists p (env.remove_file p w).1 ≡ false
  pub remove_other :
      (p q : String) (w : W) → p ≢ q → env.read_file q (env.remove_file p w).1 ≡ env.read_file q w
  pub run_keeps :
      (pod : Pod X) (p a q : String) (w : W)
      → IsWorkloadFile dirs q
      → (env.read_file q (env.run pod p a w).1 ≡ env.read_file q w)
        × (env.exists q (env.run pod p a w).1 ≡ env.exists q w)
  pub remove_keeps :
      (name q : String) (w : W)
      → IsWorkloadFile dirs q
      → (env.read_file q (env.remove name w).1 ≡ env.read_file q w)
        × (env.exists q (env.remove name w).1 ≡ env.exists q w)

module _ {W X : Type 0} (env : Env W X) (dirs : Dirs) (laws : KeepsFiles env dirs) where
  delete_file_gone :
      (path : String) (x : Option RemoveError × W)
      → (delete_file_result env dirs x).0 ≡ ok tt
      → ((x.0 ≡ none) ⊎ (x.0 ≡ some does_not_exist)) × ((delete_file_result env dirs x).1 ≡ x.1)
  unfolding delete_file_result
  delete_file_gone path (none, w) h = (inl refl, refl)
  delete_file_gone path (some does_not_exist, w) h = (inr refl, refl)
  delete_file_gone path (some (failed e), w) h = cc

  -- Both files are as the workload wants them, so it counts as unmodified.
  abbrev pub IsStored : Workload → Pod X → String → W → Type 0
  IsStored wl pod yaml w =
      (env.read_file (manifest_path dirs pod.name) w ≡ ok yaml)
      × (pod_auth_modified env dirs (auth_file_path dirs pod.name) wl.auth_file w ≡ false)

  pub IsStored-unmodified :
      (wl : Workload) (pod : Pod X) (yaml : String) (w : W)
      → IsStored wl pod yaml w
      → pod_configuration_modified env dirs
          (manifest_path dirs pod.name)
          yaml
          (auth_file_path dirs pod.name)
          wl.auth_file
          w
        ≡ false
  unfolding pod_configuration_modified pod_modified read_differs
  IsStored-unmodified wl pod yaml w (manifest, auth) = rw (manifest, beq_refl yaml, auth)

  pub keep-IsStored :
      (wl : Workload) (pod : Pod X) (yaml : String) (w w' : W)
      → ((q : String)
          → IsWorkloadFile dirs q
          → (env.read_file q w' ≡ env.read_file q w) × (env.exists q w' ≡ env.exists q w))
      → IsStored wl pod yaml w
      → IsStored wl pod yaml w'
  unfolding pod_auth_modified
  keep-IsStored wl pod yaml w w' same (manifest, auth) = (
    (same (manifest_path dirs pod.name) (pod.name, inl refl)).0 ∙ manifest,
    rw
        (
          (same (auth_file_path dirs pod.name) (pod.name, inr refl)).0,
          (same (auth_file_path dirs pod.name) (pod.name, inr refl)).1,
        )
        auth,
  )

  run_result-world : (x : Result (Unit {0}) × W) (m : Manager) → (run_result env dirs x m).1.1 ≡ x.1
  unfolding run_result
  run_result-world (ok a, w) m = refl
  run_result-world (err e, w) m = refl

  pub run_pod-IsStored :
      (wl : Workload) (pod : Pod X) (yaml auth_path : String) (m : Manager) (w : W)
      → IsStored wl pod yaml w
      → IsStored wl pod yaml (run_pod env dirs pod auth_path (m, w)).1.1
  unfolding run_pod
  run_pod-IsStored wl pod yaml auth_path m w stored =
      rw (run_result-world (env.run pod (manifest_path dirs pod.name) auth_path w) m) (
        keep-IsStored wl pod yaml w (env.run pod (manifest_path dirs pod.name) auth_path w).1
          (λ q. laws.run_keeps pod (manifest_path dirs pod.name) auth_path q w) stored)

  then_pure_state :
      (a : String) (x : Result (Unit {0}) × W) → (continue x.0 x.1 (λ _. pure a)).1 ≡ x.1
  then_pure_state a (ok b, w) = refl
  then_pure_state a (err e, w) = refl

  then_pure_ok :
      (a b : String) (x : Result (Unit {0}) × W)
      → (continue x.0 x.1 (λ _. pure a)).0 ≡ ok b
      → x.0 ≡ ok tt
  then_pure_ok a b (ok c, w) h = refl
  then_pure_ok a b (err e, w) h = cc

  remove_auth_file-unmodified :
      (path auth a : String) (w : W)
      → (auth == "") ≡ true
      → (remove_auth_file env dirs path w).0 ≡ ok a
      → pod_auth_modified env dirs path auth (remove_auth_file env dirs path w).1 ≡ false
  unfolding remove_auth_file delete_file pod_auth_modified
  remove_auth_file-unmodified path auth a w blank h =
      let wrap = λ (e : Err). "cannot remove auth file " ⧺ (path ⧺ (": " ⧺ e)) in
      let x : Result (Unit {0}) × W = wrap_error wrap (delete_file env dirs path) w in
      let (gone, world) =
        delete_file_gone path (env.remove_file path w)
          (map_error_ok wrap (delete_file env dirs path w).0 tt (then_pure_ok "" a x h)) in
      rw (then_pure_state "" x, world, laws.removed path w gone, blank)

  store_auth_file-unmodified :
      (path auth a : String) (w : W)
      → (store_auth_file env dirs path auth w).0 ≡ ok a
      → pod_auth_modified env dirs path auth (store_auth_file env dirs path auth w).1 ≡ false
  unfolding store_auth_file pod_auth_modified read_differs
  store_auth_file-unmodified path auth a w h =
      let wrap = λ (e : Err). "cannot store auth file " ⧺ (path ⧺ (": " ⧺ e)) in
      let x : Result (Unit {0}) × W = wrap_error wrap (check (env.write_file path auth)) w in
      let (reads, there) = laws.written path auth w (
        check_ok (env.write_file path auth) w (
          map_error_ok wrap (check (env.write_file path auth) w).0 tt (then_pure_ok path a x h))) in
      rw (
        then_pure_state path x,
        check_state (env.write_file path auth) w,
        there,
        reads,
        beq_refl auth,
      )

  pub manage_auth_file-unmodified :
      (path auth a : String) (w : W)
      → (manage_auth_file env dirs path auth w).0 ≡ ok a
      → pod_auth_modified env dirs path auth (manage_auth_file env dirs path auth w).1 ≡ false
  unfolding manage_auth_file
  manage_auth_file-unmodified path auth a w h = elim (Bool-cases (auth == "")) [
    | inl blank ↦ rw blank (remove_auth_file-unmodified path auth a w blank (sym (rw blank) ∙ h))
    | inr some_text ↦
        rw some_text (store_auth_file-unmodified path auth a w (sym (rw some_text) ∙ h))
  ]

  delete_file-world : (x : Option RemoveError × W) → (delete_file_result env dirs x).1 ≡ x.1
  unfolding delete_file_result
  delete_file-world (none, w) = refl
  delete_file-world (some does_not_exist, w) = refl
  delete_file-world (some (failed e), w) = refl

  pub manage_auth_file-reads :
      (path auth q : String) (w : W)
      → path ≢ q
      → env.read_file q (manage_auth_file env dirs path auth w).1 ≡ env.read_file q w
  unfolding manage_auth_file remove_auth_file store_auth_file delete_file
  manage_auth_file-reads path auth q w other = elim (Bool-cases (auth == "")) [
    | inl blank ↦ rw blank (
        rw
          (
            then_pure_state "" (
                wrap_error (λ e. "cannot remove auth file " ⧺ (path ⧺ (": " ⧺ e)))
                  (delete_file env dirs path) w),
            delete_file-world (env.remove_file path w),
          )
          (laws.remove_other path q w other))
    | inr some_text ↦ rw some_text (
        rw
          (
            then_pure_state path (
                wrap_error (λ e. "cannot store auth file " ⧺ (path ⧺ (": " ⧺ e)))
                  (check (env.write_file path auth)) w),
            check_state (env.write_file path auth) w,
          )
          (laws.write_other path q auth w other))
  ]

  pub auth_file_path-manifest_path :
      (name : String) → auth_file_path dirs name ≢ manifest_path dirs name
  unfolding auth_file_path manifest_path
  auth_file_path-manifest_path name same =
      let dir = workload_dir_path dirs name in
      let lengths : (len dir + 10) ≡ (len dir + 14) =
        sym (len-append dir "/auth.json") ∙ (ap len same ∙ len-append dir "/workload.yaml") in
      omega arith

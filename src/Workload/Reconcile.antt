-- ===== src/Workload/Reconcile.antt =====
-- `Update`, `Deregister` and `StopWorkloads` of internal/workload/manager.go.
pub mod Stale
use k4e_device_worker.Prelude.{
  Bool, true, false, Option, none, some, List, [], ◌∷◌, ◌++◌, String, Map, keys, put, contains,
  if◌then◌else◌, text_key, Result, ok, err, Err, Exec, attempt, wrap_error, check, error_of,
  collect, ◌⧺◌,
}
use k4e_device_worker.Workload.Pods.{Workload, Dirs, workload_dir_path}
use k4e_device_worker.Workload.Secrets.{update_secrets}
use k4e_device_worker.Workload.Manager.{Env, Manager, Config, State, ext, deploy_all}

unfoldable pub names_of : List Workload → List String
names_of [] = []
names_of (wl ∷ rest) = wl.name ∷ names_of rest

-- The names of `indexWorkloads`, which is a map
unfoldable pub index_names : List String → Map String (Unit {0}) → Map String (Unit {0})
index_names [] m = m
index_names (n ∷ rest) m = index_names rest (put m n tt)

abbrev pub prefixed : Err → Option Err → Option Err
prefixed p none = none
prefixed p (some e) = some (p ⧺ e)

module _ {W X : Type 0} (env : Env W X) (dirs : Dirs) where
  unfoldable pub remove_one : String → W → List Err × W
  remove_one name w =
      let (e1, w1) = env.remove_all (workload_dir_path dirs name) w in
      let (e2, w2) = attempt (env.remove name) w1 in
      (
        collect (collect [] (prefixed "cannot remove existing workload directory: " e1))
            (prefixed ("cannot remove stale workload name='" ⧺ (name ⧺ "': ")) e2),
        w2,
      )

  -- "Remove any workloads that don't correspond to the configured ones"
  unfoldable pub remove_stale : List String → List String → W → List Err × W
  unfolding remove_one
  remove_stale configured [] w = ([], w)
  remove_stale configured (name ∷ rest) w =
      let kept = remove_stale configured rest w in
      let (e, w1) = remove_one name w in
      let (es, w2) = remove_stale configured rest w1 in
      if contains name configured then kept else (e ++ es, w2)

  unfoldable pub remove_listed : List String → Result (List String) × W → List Err × W
  unfolding remove_stale index_names
  remove_listed configured (err e, w) = (("cannot get deployed workloads: " ⧺ e) ∷ [], w)
  remove_listed configured (ok names, w) = remove_stale configured (keys (index_names names [])) w

  unfoldable pub clean_up : List String → W → List Err × W
  unfolding remove_listed
  clean_up configured w = remove_listed configured (env.list w)

  unfoldable pub reconcile : Config → State env dirs → List Err × State env dirs
  unfolding names_of clean_up
  reconcile config (m, w) =
      let (es, w1) = update_secrets env.podman config.secrets w in
      let (errors, (m2, w2)) = deploy_all env dirs config.workloads es (m, w1) in
      let (last, w3) = clean_up (names_of config.workloads) w2 in (errors ++ last, (m2, w3))

  -- `Update`, which is `Init` too
  unfoldable pub update : Config → State env dirs → List Err × State env dirs
  unfolding reconcile
  update config (m, w) = if m.deregistered then ([], (m, w)) else reconcile config (m, w)

  each_workload : (String → Exec W (Unit {0})) → List String → List Err → W → List Err × W
  each_workload act [] errors w = (errors, w)
  each_workload act (name ∷ rest) errors w =
      let (e, w') = attempt (act name) w in each_workload act rest (collect errors e) w'

  as_error : List Err × W → Option Err × W
  as_error ([], w) = (none, w)
  as_error (e ∷ es, w) = (some (env.multierror_text (e ∷ es)), w)

  on_listed : (String → Exec W (Unit {0})) → Result (List String) × W → Option Err × W
  unfolding each_workload as_error
  on_listed act (err e, w) = (some e, w)
  on_listed act (ok names, w) = as_error (each_workload act names [] w)

  unfoldable pub remove_all_workloads : W → Option Err × W
  unfolding on_listed
  remove_all_workloads w = on_listed env.remove (env.list w)

  unfoldable pub stop_workloads : W → Option Err × W
  unfolding on_listed
  stop_workloads w = on_listed env.stop (env.list w)

  -- A step of `Deregister`, whose error does not stop the next ones.
  abbrev also : Err → (W → Option Err × W) → List Err × W → List Err × W
  also what act (errors, w) = let (e, w') = act w in (collect errors (prefixed what e), w')

  unfoldable pub deregister : State env dirs → List Err × State env dirs
  unfolding remove_all_workloads
  deregister (m, w) =
      let s1 = also "failed to remove workloads: " remove_all_workloads ([], w) in
      let s2 =
        also "failed to delete manifests directory: " (env.remove_all dirs.workloads_dir) s1 in
      let s3 = also "failed to delete table: " (attempt env.remove_table) s2 in
      let s4 = also "failed to delete volumes directory: " (env.remove_all dirs.volumes_dir) s3 in
      let s5 = also "failed to remove mapping file: " (attempt env.remove_mapping_file) s4 in
      let (errors, w') =
        also "failed to remove services file: " (attempt env.remove_services_file) s5 in
      (errors, (record m { deregistered = true }, w'))

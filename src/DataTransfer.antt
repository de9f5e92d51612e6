-- ===== src/DataTransfer.antt =====
-- `Monitor` of internal/datatransfer/monitor.go: the data of the workloads is synchronised with
-- the remote storage. The storage, the clock and the other managers are parameters.
pub mod Stamps
pub mod Storage
mod Examples
use k4e_device_worker.Prelude.{
  ℕ, Bool, true, false, Option, none, some, List, [], ◌∷◌, ◌++◌, String, Map, get, put, remove,
  if◌then◌else◌, ◌==◌, text_key, Result, ok, err, Err, ◌⧺◌,
}

-- models.DataPath, and the workloads of the configuration with their paths
pub record DataPath : Type 0 where
  pub source : String
  pub target : String

abbrev pub Configured : Type 0
Configured = List (String × List DataPath)

-- `FileSync`, with the clock and the listing of the workloads, and where a workload's data is
pub record Env (W : Type 0) : Type 0 where
  pub list_workloads : W → Result (List String) × W
  pub has_storage : W → Bool  -- `HasStorageDefined`
  pub get_workloads : W → Configured
  pub file_sync : W → Bool  -- whether `SetStorage` was called
  pub connect : W → Option Err × W
  pub sync_path : String → String → W → Option Err × W
  pub exported_host_path : String → String
  pub now : W → ℕ

abbrev pub Times : Type 0
Times = Map String ℕ

module _ {W : Type 0} (env : Env W) where
  -- path.Join of a directory and a relative path
  abbrev pub source_path : String → DataPath → String
  source_path name dp = env.exported_host_path name ⧺ ("/" ⧺ dp.source)

  -- The errors of the paths of one workload; it is synchronised if there are none.
  unfoldable pub sync_data_paths : String → List DataPath → W → List Err × W
  sync_data_paths name [] w = ([], w)
  sync_data_paths name (dp ∷ rest) w =
      let (e, w1) = env.sync_path (source_path name dp) dp.target w in
      let (es, w2) = sync_data_paths name rest w1 in (failure e dp ++ es, w2)
    where
      failure : Option Err → DataPath → List Err
      failure none dp = []
      failure (some e) dp =
          ("error while synchronizing [device]"
            ⧺ (source_path name dp ⧺ (" => [remote]" ⧺ dp.target)))
          ∷ []

  unfoldable pub store_last_update_time : String → List Err × W → Times → List Err × Times × W
  store_last_update_time name ([], w) times = ([], put times name (env.now w), w)
  store_last_update_time name (e ∷ es, w) times = (e ∷ es, times, w)

  unfoldable pub sync_workload : String → List DataPath → Times → W → List Err × Times × W
  unfolding sync_data_paths store_last_update_time
  sync_workload name [] times w = ([], times, w)
  sync_workload name (dp ∷ rest) times w =
      store_last_update_time name (sync_data_paths name (dp ∷ rest) w) times

  -- `workloadToDataPaths[name]`, where the last workload of a name that has paths counts
  unfoldable pub last_paths : Configured → String → List DataPath → List DataPath
  last_paths [] name found = found
  last_paths ((n, []) ∷ rest) name found = last_paths rest name found
  last_paths ((n, dp ∷ dps) ∷ rest) name found =
      last_paths rest name (if n == name then dp ∷ dps else found)

  unfoldable pub sync_workloads : Configured → List String → Times → W → List Err × Times × W
  unfolding sync_workload last_paths
  sync_workloads configured [] times w = ([], times, w)
  sync_workloads configured (name ∷ rest) times w =
      let (e, times1, w1) = sync_workload name (last_paths configured name []) times w in
      let (es, times2, w2) = sync_workloads configured rest times1 w1 in (e ++ es, times2, w2)

  connected : List String → Times → Option Err × W → List Err × Times × W
  unfolding sync_workloads
  connected names times (some e, w) = (e ∷ [], times, w)
  connected names times (none, w) = sync_workloads (env.get_workloads w) names times w

  sync_listed : Times → Result (List String) × W → List Err × Times × W
  unfolding connected
  sync_listed times (err e, w) = (e ∷ [], times, w)
  sync_listed times (ok [], w) = ([], times, w)
  sync_listed times (ok (n ∷ names), w) =
      let done = connected (n ∷ names) times (env.connect w) in
      if env.has_storage w
      then (if env.file_sync w then done else ("cannot get filesync" ∷ [], times, w))
      else ([], times, w)

  -- `syncPaths`, which is `ForceSync` too
  unfoldable pub sync_paths : Times → W → List Err × Times × W
  unfolding sync_listed
  sync_paths times w = sync_listed times (env.list_workloads w)

  -- `getPathsOfWorkload`: the first workload of the name counts.
  unfoldable pub get_paths_of_workload : Configured → String → List DataPath
  get_paths_of_workload [] name = []
  get_paths_of_workload ((n, dps) ∷ rest) name =
      let later = get_paths_of_workload rest name in if n == name then dps else later

  sync_connected : String → List DataPath → Times → Option Err × W → Times × W
  unfolding sync_workload
  sync_connected name dps times (some e, w) = (times, w)
  sync_connected name dps times (none, w) =
      let (es, times', w') = sync_workload name dps times w in (times', w')

  sync_found : String → List DataPath → Times → W → Times × W
  unfolding sync_connected
  sync_found name [] times w = (times, w)
  sync_found name (dp ∷ dps) times w =
      let done = sync_connected name (dp ∷ dps) times (env.connect w) in
      if env.file_sync w then done else (times, w)

  unfoldable pub sync_paths_workload : String → Times → W → Times × W
  unfolding sync_found get_paths_of_workload
  sync_paths_workload name times w =
      let done = sync_found name (get_paths_of_workload (env.get_workloads w) name) times w in
      if env.has_storage w then done else (times, w)

  -- The data is synchronised a last time, and the time forgotten.
  unfoldable pub workload_removed : String → Times → W → Times × W
  unfolding sync_paths_workload
  workload_removed name times w =
      let (times', w') = sync_paths_workload name times w in (remove times' name, w')

  unfoldable pub get_last_successful_sync_time : Times → String → Option ℕ
  get_last_successful_sync_time times name = get times name

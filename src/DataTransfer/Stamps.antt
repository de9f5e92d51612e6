-- ===== src/DataTransfer/Stamps.antt =====
-- Which workloads have a time of their last synchronisation.
use k4e_device_worker.Prelude.{
  ◌≡◌, refl, ap, ◌∙◌, Bool, true, false, ◌&&◌, ◌||◌, none, List, [], ◌∷◌, String, has, contains,
  if◌then◌else◌, ◌==◌, text_key, Err, has-put, get-remove, beq_refl, arith, Bool-cases, inl, inr,
  eq_of_beq, nil_left, nil_right,
}
use k4e_device_worker.DataTransfer.{
  Env, DataPath, Configured, Times, sync_data_paths, store_last_update_time, sync_workload,
  last_paths, sync_workloads, workload_removed, sync_paths_workload, get_last_successful_sync_time,
}

-- Whether a workload has data to synchronise.
abbrev pub has_paths : List DataPath → Bool
has_paths [] = false
has_paths (dp ∷ rest) = true

module _ {W : Type 0} (env : Env W) where
  stored-has :
      (name : String) (x : List Err × W) (times : Times) (j : String)
      → (store_last_update_time env name x times).0 ≡ []
      → has (store_last_update_time env name x times).1 j
        ≡ (if name == j then true else has times j)
  unfolding store_last_update_time
  stored-has name ([], w) times j h = has-put times name j (env.now w)
  stored-has name (e ∷ es, w) times j h = cc

  sync_workload-has :
      (name : String) (dps : List DataPath) (times : Times) (w : W) (j : String)
      → (sync_workload env name dps times w).0 ≡ []
      → has (sync_workload env name dps times w).1 j
        ≡ (if (name == j) && has_paths dps then true else has times j)
  unfolding sync_workload
  sync_workload-has name [] times w j h = ground arith
  sync_workload-has name (dp ∷ rest) times w j h =
      stored-has name (sync_data_paths env name (dp ∷ rest) w) times j h ∙ ground arith

  joined :
      (name j : String) (rest : List String) (paths : String → List DataPath) (was : Bool)
      → (if contains j rest && has_paths (paths j)
          then true
          else (if (name == j) && has_paths (paths name) then true else was))
        ≡ (if (name == j || contains j rest) && has_paths (paths j) then true else was)
  joined name j rest paths was = elim (Bool-cases (name == j)) [
    | inl same ↦ rw (same, ap (λ n. has_paths (paths n)) (eq_of_beq name j same)) (ground arith)
    | inr other ↦ rw other
  ]

  -- A round of synchronisation without an error leaves a time for every workload that runs and has
  -- paths, and adds none for any other.
  pub sync_workloads-has :
      (configured : Configured) (names : List String) (times : Times) (w : W)
      → (sync_workloads env configured names times w).0 ≡ []
      → (j : String)
      → has (sync_workloads env configured names times w).1 j ≡ (
          if contains j names && has_paths (last_paths env configured j [])
          then true
          else has times j)
  unfolding sync_workloads
  sync_workloads-has configured [] times w h j = refl
  sync_workloads-has configured (name ∷ rest) times w h j =
      let one = sync_workload env name (last_paths env configured name []) times w in
      let after = sync_workloads env configured rest one.1 one.2 in
      sync_workloads-has configured rest one.1 one.2 (nil_right one.0 after.0 h) j
      ∙ (rw
          (sync_workload-has name (last_paths env configured name []) times w j
            (nil_left one.0 after.0 h))
          (joined name j rest (λ n. last_paths env configured n []) (has times j)))

  -- A removed workload has no time left, although its removal synchronises it once more.
  pub workload_removed-forgets :
      (name : String) (times : Times) (w : W)
      → get_last_successful_sync_time env (workload_removed env name times w).0 name ≡ none
  unfolding workload_removed get_last_successful_sync_time
  workload_removed-forgets name times w =
      rw (get-remove (sync_paths_workload env name times w).0 name name, beq_refl name)

-- ===== src/Logs/Targets/Stale.antt =====
-- What a new configuration does to the writers that were there.
use k4e_device_worker.Prelude.{
  ℕ, ◌≤◌, ◌<◌, ◌≡◌, ◌≢◌, Bool, true, false, some, [], ◌∷◌, String, Map, keys, get, put,
  if◌then◌else◌, ◌==◌, text_key, Result, ok, err, arith, get-put, Bool-cases, inl, inr,
}
use k4e_device_worker.Logs.Targets.{
  TransportLog, Writer, LogCollection, Config, Targets, Env, add_transport, start_transports,
  update,
}
use k4e_device_worker.Logs.Targets.Follow.{delete_leftovers-get, start_transports_keep}

-- Every buffer of these transports was made when `n` buffers had been made, or later.
abbrev IsNewer : {T : Type 0} → ℕ → Map String (TransportLog T) → Type 0
IsNewer {T} n m = (key : String) (tr : TransportLog T) → get m key ≡ some tr → n ≤ tr.log

put-IsNewer :
    {T : Type 0} (n : ℕ) (key : String) (made : TransportLog T) (m : Map String (TransportLog T))
    → IsNewer n m
    → n ≤ made.log
    → IsNewer n (put m key made)
put-IsNewer n key made m f le j tr h = elim (Bool-cases (key == j)) [
  | inl same ↦ ground (arith, get-put m key j made)
  | inr other ↦ f j tr (ground (arith, get-put m key j made))
]

module _ {W T C : Type 0} (env : Env W T C) where
  add_transport-IsNewer :
      (b : Bool) (n : ℕ) (key : String) (info : LogCollection) (new : Map String (TransportLog T))
      (t : Targets T C) (r : Result T × W) (w : W)
      → n ≤ t.next_log
      → IsNewer n new
      → let (new', t', w') = if b then add_transport env key info new t r else (new, t, w) in
        IsNewer n new' × (n ≤ t'.next_log)
  unfolding add_transport
  add_transport-IsNewer true n key info new t (ok server, v) w le f =
      (put-IsNewer n key _ new f le, omega arith)
  add_transport-IsNewer true n key info new t (err e, v) w le f = (f, le)
  add_transport-IsNewer false n key info new t r w le f = (f, le)

  start_transports-IsNewer :
      (n : ℕ) (infos : Map String LogCollection) (new : Map String (TransportLog T))
      (t : Targets T C) (w : W)
      → n ≤ t.next_log
      → IsNewer n new
      → IsNewer n (start_transports env infos new t w).0
  unfolding start_transports
  start_transports-IsNewer n [] new t w le f = f
  start_transports-IsNewer n ((key, info) ∷ rest) new t w le f =
      let (g, le') = add_transport-IsNewer (info.kind == "syslog") n key info new t _ w le f in
      start_transports-IsNewer n rest _ _ _ le' g

  -- A writer that outlives a new configuration still has its old buffer: the transport of that
  -- name has another one, made for the new configuration.
  pub update_stale :
      (config : Config) (t : Targets T C) (w : W) (name : String) (writer : Writer C)
      (tr : TransportLog T)
      → writer.target < t.next_log
      → get (update env config t w).0.wwriter name ≡ some writer
      → get (update env config t w).0.transports writer.target_name ≡ some tr
      → (get t.wwriter name ≡ some writer) × (writer.target ≢ tr.log)
  unfolding update
  update_stale config t w name writer tr old h k =
      let (before, follows) = delete_leftovers-get env (keys t.transports) _ _ _ name writer h in
      let kept : get t.wwriter name ≡ some writer =
        rw (start_transports_keep env config.log_collection [] t w) at before in
      let newer : t.next_log ≤ tr.log =
        start_transports-IsNewer t.next_log config.log_collection [] t w (omega arith)
          (λ j x e. unfold get in cc e) writer.target_name tr k in
      (kept, omega arith)

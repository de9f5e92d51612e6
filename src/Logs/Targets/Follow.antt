-- ===== src/Logs/Targets/Follow.antt =====
-- The targets of the writers are among the transports that are configured.
use k4e_device_worker.Prelude.{
  ◌≡◌, refl, Bool, true, false, Option, none, some, List, [], ◌∷◌, String, Map, keys, get, remove,
  put, has, contains, if◌then◌else◌, ◌==◌, text_key, Result, ok, err, arith, get-remove, get-put,
  Bool-cases, inl, inr, has_of_get, ◌∙◌,
}
use text.Mathlib.TextEquality.{eq_iff}
use k4e_device_worker.Logs.Targets.{
  TransportLog, Writer, LogCollection, Config, Targets, Env, delete_workload, delete_writers,
  delete_target_transport, add_transport, start_transports, delete_leftovers, update, start_writer,
  start_for, workload_started,
}

-- The name of every writer's target is one of the current transports.
pub record IsFollowing {T C : Type 0} (t : Targets T C) : Type 0 where
  pub at :
      (name : String) (writer : Writer C)
      → get t.wwriter name ≡ some writer
      → has t.transports writer.target_name ≡ true

has-keys : {V : Type 0} (m : Map String V) (k : String) → has m k ≡ contains k (keys m)
unfolding has get keys
has-keys [] k = refl
has-keys ((j, v) ∷ m) k = ground (arith, has-keys m k)

module _ {W T C : Type 0} (env : Env W T C) where
  delete_writers-get :
      (gone : String) (es left : Map String (Writer C)) (w : W) (name : String) (writer : Writer C)
      → get (delete_writers env gone es left w).0 name ≡ some writer
      → (get left name ≡ some writer)
        × (get es name ≡ some writer → (writer.target_name == gone) ≡ false)
  unfolding delete_writers get
  delete_writers-get gone [] left w name writer h = (h, λ e. cc)
  delete_writers-get gone ((key, other) ∷ rest) left w name writer h =
      let ih = delete_writers-get gone rest _ _ name writer h in
      elim (Bool-cases (other.target_name == gone)) [
        | inl hit ↦
            let kept : get (remove left key) name ≡ some writer = rw hit at ih.0 in
            (
              ground (arith, get-remove left key name),
              λ e. ground (arith, get-remove left key name, ih.1),
            )
        | inr miss ↦
            let kept : get left name ≡ some writer = rw miss at ih.0 in
            (kept, λ e. ground (arith, ih.1))
      ]

  pub delete_leftovers-get :
      (ks : List String) (new : Map String (TransportLog T)) (t : Targets T C) (w : W)
      (name : String) (writer : Writer C)
      → get (delete_leftovers env ks new t w).0.wwriter name ≡ some writer
      → (get t.wwriter name ≡ some writer)
        × (contains writer.target_name ks ≡ true → has new writer.target_name ≡ true)
  unfolding delete_leftovers
  delete_leftovers-get [] new t w name writer h = (h, λ e. cc)
  delete_leftovers-get (key ∷ rest) new t w name writer h = elim (Bool-cases (has new key)) [
    | inl kept ↦
        let ih = delete_leftovers-get rest new t w name writer (rw (kept, delete_leftovers) at h) in
        (ih.0, λ e. ground (arith, eq_iff key writer.target_name, ih.1))
    | inr gone ↦
        let (t', w') = delete_target_transport env key t w in
        let ih =
          delete_leftovers-get rest new t' w' name writer (rw (gone, delete_leftovers) at h) in
        let cut =
          delete_writers-get key t.wwriter t.wwriter w name writer
            (unfold delete_target_transport in ih.0) in
        (
          cut.0,
          λ e. ground (
            arith,
            eq_iff key writer.target_name,
            eq_iff writer.target_name key,
            ih.1,
            cut.1 cut.0,
          ),
        )
  ]

  add_transport_keep :
      (b : Bool) (key : String) (info : LogCollection) (new : Map String (TransportLog T))
      (t : Targets T C) (r : Result T × W) (w : W)
      → (if b then add_transport env key info new t r else (new, t, w)).1.wwriter ≡ t.wwriter
  unfolding add_transport
  add_transport_keep true key info new t (ok server, v) w = refl
  add_transport_keep true key info new t (err e, v) w = refl
  add_transport_keep false key info new t r w = refl

  pub start_transports_keep :
      (infos : Map String LogCollection) (new : Map String (TransportLog T)) (t : Targets T C)
      (w : W)
      → ((start_transports env infos new t w).1.wwriter ≡ t.wwriter)
  unfolding start_transports
  start_transports_keep [] new t w = refl
  start_transports_keep ((key, info) ∷ rest) new t w =
      start_transports_keep rest _ _ _
      ∙ add_transport_keep (info.kind == "syslog") key info new t _ w

  -- After a new configuration the target of every writer that is left is the name of one of the new
  -- transports, if before it every writer's target was the name of a transport: the writers of
  -- targets that are gone were deleted.
  pub update-IsFollowing :
      (config : Config) (t : Targets T C) (w : W)
      → IsFollowing t
      → IsFollowing (update env config t w).0
  unfolding update
  update-IsFollowing config t w f = record {
    at = λ name writer h.
        let (before, follows) = delete_leftovers-get (keys t.transports) _ _ _ name writer h in
        let old : get t.wwriter name ≡ some writer =
          rw (start_transports_keep config.log_collection [] t w) at before in
        follows (rw (← has-keys t.transports writer.target_name) (f.at name writer old));
  }

  delete_workload-IsFollowing :
      (name : String) (t : Targets T C) (w : W)
      → IsFollowing t
      → IsFollowing (delete_workload env name t w).0
  unfolding delete_workload
  delete_workload-IsFollowing name t w f = record {
    at = λ j writer h. f.at j writer (ground (arith, get-remove t.wwriter name j));
  }

  put-IsFollowing :
      (name : String) (new : Writer C) (t : Targets T C)
      → IsFollowing t
      → has t.transports new.target_name ≡ true
      → IsFollowing (record t { wwriter = put t.wwriter name new })
  put-IsFollowing name new t f there = record {
    at = λ j writer h. elim (Bool-cases (name == j)) [
      | inl same ↦ ground (arith, get-put t.wwriter name j new)
      | inr other ↦ f.at j writer (ground (arith, get-put t.wwriter name j new))
    ];
  }

  start_writer-IsFollowing :
      (name target : String) (o : Option (TransportLog T)) (t : Targets T C) (w : W)
      → get t.transports target ≡ o
      → IsFollowing t
      → IsFollowing (start_writer env name target o t w).0
  unfolding start_writer
  start_writer-IsFollowing name target none t w e f = f
  start_writer-IsFollowing name target (some transport) t w e f =
      put-IsFollowing name _ t f (has_of_get t.transports target transport e)

  start_for-IsFollowing :
      (name : String) (o : Option String) (t : Targets T C) (w : W)
      → IsFollowing t
      → IsFollowing (start_for env name o t w).0
  unfolding start_for
  start_for-IsFollowing name none t w f = f
  start_for-IsFollowing name (some target) t w f = start_writer-IsFollowing name target _ t w refl f

  -- So it is after a workload has started, whatever is configured for it.
  pub workload_started-IsFollowing :
      (name : String) (t : Targets T C) (w : W)
      → IsFollowing t
      → IsFollowing (workload_started env name t w).0
  unfolding workload_started
  workload_started-IsFollowing name t w f =
      let (t', w') = delete_workload env name t w in
      start_for-IsFollowing name _ t' w' (delete_workload-IsFollowing name t w f)

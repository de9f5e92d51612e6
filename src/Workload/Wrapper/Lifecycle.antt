-- ===== src/Workload/Wrapper/Lifecycle.antt =====
-- What running and removing a workload leave behind.
use k4e_device_worker.Prelude.{
  ◌≡◌, true, none, String, get, text_key, ok, Exec, arith, get-remove, check_state, beq_refl, ◌⧺◌,
  sequence_last, sequence_first, kept_both, has, has-put, wrap_error, check, ignore, ◌>>◌, ◌>>=◌,
}
use k4e_device_worker.Workload.Mapping.{add, remove_name}
use k4e_device_worker.Workload.Wrapper.{
  Pod, Env, State, get_host_ports, run_workload, remove_workload, install_service, add_service,
  apply_network_configuration, first_pod, create_service, id_or_name, remove_service,
  remove_mapping, ext, nf_table_name, add_mapping,
}
use k4e_device_worker.Workload.Netfilter.{delete_chain}

module _ {W S : Type 0} (env : Env W S) where
  -- A pod with an illegal port is refused before anything is done.
  pub run_workload_illegal :
      (pod : Pod) (manifest auth : String) (st : State env)
      → get_host_ports pod ≡ none
      → (run_workload env pod manifest auth st).1 ≡ st
  unfolding run_workload
  run_workload_illegal pod manifest auth st h = rw h

  abbrev IsForgotten : String → State env → Type 0
  IsForgotten name s = get s.0.mapping.name_to_id name ≡ none

  removed_mapping :
      (name : String) (st : State env)
      → get (check (remove_mapping env name) st).1.0.mapping.name_to_id name ≡ none
  unfolding remove_name
  removed_mapping name st =
      rw (check_state (remove_mapping env name) st)
        (ground (arith, get-remove st.0.mapping.name_to_id name name, beq_refl name))

  -- A workload that was removed without an error has no identifier left: the last thing that is
  -- done is to forget it.
  pub remove_workload-ok :
      (name : String) (st : State env)
      → (remove_workload env name st).0 ≡ ok tt
      → get (remove_workload env name st).1.0.mapping.name_to_id name ≡ none
  unfolding remove_workload
  remove_workload-ok name st h =
      let last = check (remove_mapping env name) in
      let unchain = ignore (ext env (delete_chain env.nft nf_table_name name)) in
      sequence_last (IsForgotten name) (id_or_name env name)
        (λ id. remove_service env name >> (ext env (env.remove_pod id) >> (unchain >> last)))
        (λ id.
          sequence_last (IsForgotten name) (remove_service env name)
            (λ _. ext env (env.remove_pod id) >> (unchain >> last))
            (λ _.
              sequence_last (IsForgotten name) (ext env (env.remove_pod id)) (λ _. unchain >> last)
                (λ _.
                  sequence_last (IsForgotten name) unchain (λ _. last)
                    (λ _ s _ _. removed_mapping name s))))
        st tt h

  abbrev IsMapped : String → State env → Type 0
  IsMapped name s = has s.0.mapping.name_to_id name ≡ true

  added_mapping :
      (name id : String) (st : State env) → IsMapped name (check (add_mapping env name id) st).1
  unfolding add
  added_mapping name id st =
      rw (check_state (add_mapping env name id) st)
        (ground (arith, has-put st.0.mapping.name_to_id name name id, beq_refl name))

  kept_by_create :
      (name : String) (svc : S) (s : State env)
      → IsMapped name s
      → IsMapped name (create_service env svc s).1
  unfolding create_service
  kept_by_create name svc =
      kept_both (IsMapped name) (ext env (env.service_add svc))
        (λ _. ext env (env.service_enable svc) >> ext env (env.service_start svc)) (λ s p. p)
        (λ _.
          kept_both (IsMapped name) (ext env (env.service_enable svc))
            (λ _. ext env (env.service_start svc)) (λ s p. p) (λ _ s p. p))

  kept_by_install :
      (pod : Pod) (s : State env)
      → IsMapped pod.name s
      → IsMapped pod.name (install_service env pod s).1
  unfolding install_service
  kept_by_install pod =
      kept_both (IsMapped pod.name)
        (wrap_error (λ e. "Error while generating systemd service: " ⧺ e)
          (ext env (env.generate_service pod.name)))
        (λ svc.
          wrap_error (λ e. "Error while creating service: " ⧺ e) (create_service env svc)
          >> wrap_error (λ e. "Error while updating service manager: " ⧺ e)
              (check (add_service env svc)))
        (λ s p. p)
        (λ svc.
          kept_both (IsMapped pod.name)
            (wrap_error (λ e. "Error while creating service: " ⧺ e) (create_service env svc))
            (λ _.
              wrap_error (λ e. "Error while updating service manager: " ⧺ e)
                (check (add_service env svc)))
            (λ s p. kept_by_create pod.name svc s p)
            (λ _ s p. rw (check_state (add_service env svc) s) p))

  -- A pod that was run without an error has an identifier under its name.
  pub run_workload-ok :
      (pod : Pod) (manifest auth : String) (st : State env)
      → (run_workload env pod manifest auth st).0 ≡ ok tt
      → has (run_workload env pod manifest auth st).1.0.mapping.name_to_id pod.name ≡ true
  unfolding run_workload
  run_workload-ok pod manifest auth st h =
      let rest : String → Exec (State env) (Unit {0}) =
        λ id. check (add_mapping env pod.name id) >> install_service env pod in
      sequence_last (IsMapped pod.name) (apply_network_configuration env pod)
        (λ _. ext env (env.run_pods manifest auth) >>= (λ ids. first_pod env ids >>= rest))
        (λ _.
          sequence_last (IsMapped pod.name) (ext env (env.run_pods manifest auth))
            (λ ids. first_pod env ids >>= rest)
            (λ ids. sequence_last (IsMapped pod.name) (first_pod env ids) rest (λ id.
              sequence_first (IsMapped pod.name) (check (add_mapping env pod.name id))
                (λ _. install_service env pod) (λ s _ _. added_mapping pod.name id s)
                (λ _ s p. kept_by_install pod s p))))
        st tt h

-- ===== src/Ansible/Mapping/Pending.antt =====
-- Which playbooks are pending after additions and removals, and after a restart.
use k4e_device_worker.Prelude.{
  ◌≡◌, ◌≢◌, refl, sym, ap, ◌∙◌, true, false, Option, none, some, String, Map, get, put, remove, has,
  if◌then◌else◌, ◌==◌, text_key, integer_key, ℤ, pos, Err, arith, get-put, get-remove, has-put,
  has-remove, beq_refl, eq_of_beq, Bool-cases, inl, inr,
}
use k4e_device_worker.Ansible.Mapping.{
  Playbooks, Env, add_playbook, add_written, remove_playbook, is_pending, get_mod_time, file_of,
  with_playbook, time_or_zero,
}

module _ {W : Type 0} (env : Env W) where
  add_written-state :
      (path : String) (t : ℤ) (m : Playbooks) (x : Option Err × W)
      → x.0 ≡ none
      → (add_written env path t m x).1 ≡ with_playbook env m path t
  unfolding add_written
  add_written-state path t m (none, w) h = refl
  add_written-state path t m (some e, w) h = cc

  add_playbook-state :
      (content : String) (t : ℤ) (m : Playbooks) (w : W)
      → (env.write_file (file_of env m content) content w).0 ≡ none
      → (add_playbook env content t m w).1 ≡ with_playbook env m (file_of env m content) t
  unfolding add_playbook
  add_playbook-state content t m w h =
      add_written-state (file_of env m content) t m
        (env.write_file (file_of env m content) content w) h

  time_of_put :
      (m : Map String ℤ) (path : String) (t : ℤ) → time_or_zero (get (put m path t) path) ≡ t
  time_of_put m path t = rw (get-put m path path t, beq_refl path) refl

  fresh_without :
      (m : Map ℤ String) (t j : ℤ) → has m t ≡ false → (if t == j then false else has m j) ≡ has m j
  fresh_without m t j fresh = elim (Bool-cases (t == j)) [
    | inl same ↦ rw same (sym (ap (has m) (sym (eq_of_beq t j same)) ∙ fresh))
    | inr apart ↦ rw apart refl
  ]

  time_of_removed :
      (content : String) (m : Playbooks) (v : W)
      → get_mod_time (remove_playbook env content m v).1 (file_of env m content) ≡ pos 0
  unfolding remove_playbook get_mod_time
  time_of_removed content m v =
      let path = file_of env m content in
      rw (get-remove m.path_to_mod_time path path, beq_refl path) refl

  -- A removal after an addition of the same content.
  removed_has :
      (content : String) (t j : ℤ) (m : Playbooks) (v : W)
      → has
          (remove_playbook env content
            (with_playbook env m (file_of env m content) t)
            v).1.mod_time_to_path
          j
        ≡ (if t == j then false else has m.mod_time_to_path j)
  unfolding remove_playbook
  removed_has content t j m v =
      let path = file_of env m content in
      ap (λ u. has (remove (put m.mod_time_to_path t path) u) j)
        (time_of_put m.path_to_mod_time path t)
      ∙ ground (
        arith,
        has-remove (put m.mod_time_to_path t path) t j,
        has-put m.mod_time_to_path t j path,
      )

  -- A playbook that was not pending, at a time at which none was, is pending once its file was
  -- written, and is gone again after it was removed: then the same playbooks are pending as before,
  -- whatever the writes of the mapping's file came back with.
  pub remove_playbook-add_playbook :
      (content : String) (t : ℤ) (m : Playbooks) (w v : W)
      → (env.write_file (file_of env m content) content w).0 ≡ none
      → is_pending m t ≡ false
      → (is_pending (add_playbook env content t m w).1 t ≡ true)
        × ((j : ℤ)
            → is_pending (remove_playbook env content (add_playbook env content t m w).1 v).1 j
              ≡ is_pending m j)
  unfolding is_pending
  remove_playbook-add_playbook content t m w v h fresh =
      let added = add_playbook-state content t m w h in
      (
        ap (λ n. has n.mod_time_to_path t) added
            ∙ rw (has-put m.mod_time_to_path t t (file_of env m content), beq_refl t) refl,
        λ j.
            ap (λ n. has (remove_playbook env content n v).1.mod_time_to_path j) added
            ∙ (removed_has content t j m v ∙ fresh_without m.mod_time_to_path t j fresh),
      )

  -- The same content added at two times is removed at the later one only: a removal leaves it
  -- pending at the earlier time, and the path of the content has no time any more.
  pub remove_playbook_stale :
      (content : String) (t u : ℤ) (m : Playbooks) (w v z : W)
      → t ≢ u
      → (env.write_file (file_of env m content) content w).0 ≡ none
      → (env.write_file (file_of env m content) content v).0 ≡ none
      → (is_pending
            (remove_playbook env content
              (add_playbook env content u (add_playbook env content t m w).1 v).1
              z).1
            t
          ≡ true)
        × (get_mod_time
              (remove_playbook env content
                (add_playbook env content u (add_playbook env content t m w).1 v).1
                z).1
              (file_of env m content)
            ≡ pos 0)
  unfolding is_pending
  remove_playbook_stale content t u m w v z apart first second =
      let path = file_of env m content in
      let once = with_playbook env m path t in
      let both =
        ap (λ n. (add_playbook env content u n v).1) (add_playbook-state content t m w first)
        ∙ add_playbook-state content u once v second in
      (
        ap (λ n. has (remove_playbook env content n z).1.mod_time_to_path t) both
            ∙ (removed_has content u t once z
                ∙ ground (
                  arith,
                  has-put m.mod_time_to_path t t path,
                  integer_key.same_iff u t,
                  integer_key.same_iff t t,
                  apart,
                )),
        ap (λ n. get_mod_time (remove_playbook env content n z).1 path) both
            ∙ time_of_removed content (with_playbook env once path u) z,
      )

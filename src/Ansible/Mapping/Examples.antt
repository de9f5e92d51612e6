-- ===== src/Ansible/Mapping/Examples.antt =====
-- Tests of the mapping of playbooks (internal/ansible/mapping), and its theorems at inputs.
use k4e_device_worker.Prelude.{
  ◌≡◌, ◌≢◌, refl, ap, true, none, List, [], ◌∷◌, keys, get, put, remove, has, text_key, integer_key,
  number_key, ℤ, pos, pos_part, arith,
}
use k4e_device_worker.Ansible.Mapping.{
  Env, Playbooks, Entry, sort_keys, insert_key, number_paths, get_all, is_pending, add_playbook,
  remove_playbook, get_mod_time, file_of,
}
use k4e_device_worker.Ansible.Mapping.Pending.{remove_playbook-add_playbook, remove_playbook_stale}

-- A disk on which every write goes well, and a hash that is the text.
abbrev disk : Env (List Entry)
disk = record {
  get_sha256 = λ content. content;
  write_file = λ path content w. (none, w);
  save = λ es w. (none, es);
  remove_all = λ w. (none, []);
}

abbrev two_playbooks : Playbooks
two_playbooks = record {
  mod_time_to_path = (pos 7, "/d/b") ∷ (pos 3, "/d/a") ∷ [];
  path_to_mod_time = ("/d/b", pos 7) ∷ ("/d/a", pos 3) ∷ [];
  config_dir = "/d";
}

in_order : get_all two_playbooks ≡ (1, "/d/b") ∷ (0, "/d/a") ∷ []
unfolding get_all sort_keys insert_key number_paths keys get put remove
in_order = refl

remove_playbook-add_playbook_example :
    (is_pending (add_playbook disk "c" (pos 5) two_playbooks []).1 (pos 5) ≡ true)
    × ((j : ℤ)
        → is_pending
            (remove_playbook disk "c" (add_playbook disk "c" (pos 5) two_playbooks []).1 []).1
            j
          ≡ is_pending two_playbooks j)
unfolding is_pending has get
remove_playbook-add_playbook_example =
    remove_playbook-add_playbook disk "c" (pos 5) two_playbooks [] [] refl refl

apart : ◌≢◌ {A = ℤ} (pos 5) (pos 6)
apart h = let bad = ap pos_part h in absurd (omega (arith, bad))

remove_playbook_stale_example :
    (is_pending
        (remove_playbook disk "c"
          (add_playbook disk "c" (pos 6) (add_playbook disk "c" (pos 5) two_playbooks []).1 []).1
          []).1
        (pos 5)
      ≡ true)
    × (get_mod_time
          (remove_playbook disk "c"
            (add_playbook disk "c" (pos 6) (add_playbook disk "c" (pos 5) two_playbooks []).1 []).1
            []).1
          (file_of disk two_playbooks "c")
        ≡ pos 0)
remove_playbook_stale_example =
    remove_playbook_stale disk "c" (pos 5) (pos 6) two_playbooks [] [] [] apart refl refl

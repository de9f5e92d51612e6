-- ===== src/Configuration/Update.antt =====
-- What an update of the configuration leaves behind, in memory and on disk.
use k4e_device_worker.Prelude.{
  ◌≡◌, refl, sym, ap, ◌∙◌, true, false, Option, none, some, List, [], ◌∷◌, ◌++◌, String, Key,
  Result, ok, err, Err, beq_refl, ◌⧺◌,
}
use k4e_device_worker.Workload.Secrets.Synced.{HasDistinctNames}
use k4e_device_worker.Configuration.{
  Message, Env, Manager, should_update, notify, save, save_told, saved, update,
  new_configuration_manager, from_file, read_config,
}
use k4e_device_worker.Configuration.Secrets.{is_equal_refl}

module _ {C L W : Type 0} ⦃same_c : Key C⦄ ⦃same_l : Key L⦄ (env : Env C L W)
    (fallback : Message C L) where
  abbrev error_text : Option Err → Err
  error_text none = ""
  error_text (some e) = "cannot write device config file: " ⧺ e

  abbrev done : Message C L → Manager C L W → Manager C L W
  done msg m = record m { device_configuration = msg; initial_config = false }

  saved_ok :
      (msg : Message C L) (m : Manager C L W) (errors : List Err) (x : Option Err × W)
      → (saved env fallback msg m errors x).0 ≡ []
      → (x.0 ≡ none) × (saved env fallback msg m errors x ≡ (errors, done msg m, x.1))
  unfolding saved
  saved_ok msg m errors (some e, w) h = cc
  saved_ok msg m errors (none, w) h = (refl, refl)

  some_error : {A : Type 0} (errors : List Err) (e : Err) → errors ++ e ∷ [] ≡ [] → A
  some_error [] e h = cc
  some_error (x ∷ xs) e h = cc

  save_ok :
      (msg : Message C L) (m : Manager C L W) (x : List Err × W) (r : Result String)
      → (save env fallback msg m r x).0 ≡ []
      → (text : String) × (r ≡ ok text)
        × ((env.write_file text x.1).0 ≡ none)
        × (save env fallback msg m r x ≡ (x.0, done msg m, (env.write_file text x.1).1))
  unfolding save
  save_ok msg m (errors, w) (err e) h = some_error errors ("cannot unmarshal message JSON: " ⧺ e) h
  save_ok msg m (errors, w) (ok text) h =
      let (wrote, result) = saved_ok msg m errors (env.write_file text w) h in
      (text, refl, wrote, result)

  not_saved :
      (msg : Message C L) (m : Manager C L W) (errors : List Err) (x : Option Err × W) (e : Err)
      → x.0 ≡ some e
      → ((saved env fallback msg m errors x).0 ≡ ("cannot write device config file: " ⧺ e) ∷ [])
        × ((saved env fallback msg m errors x).1 ≡ m)
  unfolding saved
  not_saved msg m errors (some c, w) e h = (ap (λ o. error_text o ∷ []) h, refl)
  not_saved msg m errors (none, w) e h = cc

  -- The message that came in, after all observers were told
  abbrev pub told_message : Message C L → Manager C L W → W → Message C L
  told_message msg m w = env.in_memory msg (notify env fallback msg m.observers [] w).1

  -- An update without errors that had something to change leaves as the manager's configuration the
  -- message with what the observers wrote into it, and a manager that starts from the file that the
  -- update wrote has the same. The file system reads what it wrote, and the encoding of this
  -- message can be decoded.
  pub update-restart :
      (msg : Message C L) (m : Manager C L W) (w : W)
      → ((text : String) (v : W)
          → (env.write_file text v).0 ≡ none
          → env.read_file (env.write_file text v).1 ≡ ok text)
      → ((text : String)
          → env.marshal (told_message msg m w) ≡ ok text
          → env.unmarshal text ≡ ok (told_message msg m w))
      → should_update env fallback msg m ≡ true
      → (update env fallback msg m w).0 ≡ []
      → ((update env fallback msg m w).1
          ≡ record m { device_configuration = told_message msg m w; initial_config = false })
        × (new_configuration_manager env fallback (update env fallback msg m w).2 ≡ record {
          device_configuration = told_message msg m w;
          observers = [];
          initial_config = false;
        })
  unfolding update save_told new_configuration_manager from_file read_config
  update-restart msg m w reads decodes should h =
      let x = notify env fallback msg m.observers [] w in
      let (text, encoded, wrote, result) =
        save_ok (told_message msg m w) m x (env.marshal (told_message msg m w))
          (sym (rw should) ∙ h) in
      rw (should, result, reads text x.1 wrote, decodes text encoded) (refl, refl)

  -- An update that had nothing to report changes nothing when it is repeated, if the observers wrote
  -- nothing into the message and its secrets have distinct names.
  pub update_again :
      (msg : Message C L) (m : Manager C L W) (w v : W)
      → HasDistinctNames msg.secrets
      → told_message msg m w ≡ msg
      → should_update env fallback msg m ≡ true
      → (update env fallback msg m w).0 ≡ []
      → update env fallback msg (update env fallback msg m w).1 v
        ≡ ([], (update env fallback msg m w).1, v)
  unfolding update should_update save_told
  update_again msg m w v distinct same should h =
      let x = notify env fallback msg m.observers [] w in
      let (text, encoded, wrote, result) =
        save_ok (told_message msg m w) m x (env.marshal (told_message msg m w))
          (sym (rw should) ∙ h) in
      rw (should, result, same)
        (rw
          (beq_refl msg.configuration, beq_refl msg.workloads, is_equal_refl msg.secrets distinct))

  -- Where the file cannot be written, the manager stays as it was, so the next update is made in
  -- full again; the only error left is that of the file, whatever the observers reported.
  pub update_write_failed :
      (msg : Message C L) (m : Manager C L W) (w : W) (text e : String)
      → should_update env fallback msg m ≡ true
      → env.marshal (told_message msg m w) ≡ ok text
      → (env.write_file text (notify env fallback msg m.observers [] w).1).0 ≡ some e
      → ((update env fallback msg m w).0 ≡ ("cannot write device config file: " ⧺ e) ∷ [])
        × ((update env fallback msg m w).1 ≡ m)
  unfolding update save_told save saved
  update_write_failed msg m w text e should encoded failed =
      let x = notify env fallback msg m.observers [] w in
      rw (should, encoded)
        (not_saved (told_message msg m w) m x.0 (env.write_file text x.1) e failed)

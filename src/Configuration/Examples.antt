-- ===== src/Configuration/Examples.antt =====
-- Tests of the configuration manager (internal/configuration), and its theorems at inputs.
use k4e_device_worker.Prelude.{
  ◌≡◌, refl, true, false, none, some, List, [], ◌∷◌, String, text_key, ok, if◌then◌else◌, ◌==◌, get,
  put,
}
use k4e_device_worker.Workload.Secrets.{Secret}
use k4e_device_worker.Workload.Secrets.Synced.{configured}
use k4e_device_worker.Configuration.{
  save_told, Message, Observer, Env, Manager, update, should_update, notify,
  new_configuration_manager, is_equal_unordered_secret_lists, index_secrets, all_indexed,
  same_secret, save, saved,
}
use k4e_device_worker.Configuration.Unordered.{is_equal-configured}
use k4e_device_worker.Configuration.Update.{update-restart}

abbrev token : Secret
token = record { name = "token"; data_text = "t0" }

abbrev login : Secret
login = record { name = "login"; data_text = "admin" }

-- A list with a name twice counts as equal to one without, in one order of the arguments only.
repeated_equal :
    (is_equal_unordered_secret_lists (token ∷ login ∷ []) (token ∷ token ∷ []) ≡ true)
    × (is_equal_unordered_secret_lists (token ∷ token ∷ []) (token ∷ login ∷ []) ≡ false)
unfolding is_equal_unordered_secret_lists index_secrets all_indexed same_secret get put
repeated_equal = (refl, refl)

is_equal-configured_example :
    configured (token ∷ login ∷ []) "login" ≡ configured (login ∷ token ∷ []) "login"
is_equal-configured_example =
    is_equal-configured (token ∷ login ∷ []) (login ∷ token ∷ []) (refl, (refl, tt))
      (refl, (refl, tt))
      (unfold is_equal_unordered_secret_lists index_secrets all_indexed same_secret get put in refl)
      "login"

-- Configurations and workloads are texts here, and the world is the text of the file.
abbrev old_message : Message String String
old_message = record {
  configuration = "period 60";
  workloads = "";
  secrets = [];
  device_id = "d";
  version = "1";
}

abbrev new_message : Message String String
new_message = record {
  configuration = "period 30";
  workloads = "web";
  secrets = token ∷ [];
  device_id = "d";
  version = "2";
}

abbrev disk : Env String String String
disk = record {
  in_memory = λ m w. m;
  marshal = λ m. ok m.version;
  unmarshal = λ text. if text == "2" then ok new_message else ok old_message;
  read_file = λ w. ok w;
  write_file = λ text w. (none, text);
  remove_file = λ w. (none, "");
}

abbrev full_disk : Env String String String
full_disk = record disk { write_file = λ text w. (some "no space left on device", w) }

abbrev failing : Observer String String String
failing = record { init = λ m w. (none, w); update = λ m w. (some "refused", w) }

abbrev manager : List (Observer String String String) → Manager String String String
manager observers = record {
  device_configuration = old_message;
  observers = observers;
  initial_config = false;
}

-- An observer that writes a label into the message, and a host on which this is seen
abbrev labelling : Observer String String String
labelling = record { init = λ m w. (none, w); update = λ m w. (none, "labelled") }

abbrev labelled_message : Message String String
labelled_message = record new_message { workloads = "web, labelled" }

abbrev shared : Env String String String
shared = record disk {
  in_memory = λ m w. if w == "labelled" then record m { workloads = "web, labelled" } else m;
  unmarshal = λ text. ok labelled_message;
}

update-restart_example :
    ((update shared old_message new_message (manager (labelling ∷ [])) "1").1
      ≡ record (manager (labelling ∷ [])) { device_configuration = labelled_message })
    × (new_configuration_manager shared old_message
          (update shared old_message new_message (manager (labelling ∷ [])) "1").2
        ≡ record (manager []) { device_configuration = labelled_message })
unfolding notify
update-restart_example =
    update-restart shared old_message new_message (manager (labelling ∷ [])) "1" (λ text v h. refl)
      (λ text h. refl) (unfold should_update in refl)
      (unfold update should_update notify save_told save saved in refl)

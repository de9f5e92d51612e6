-- ===== src/Ansible/Events/Examples.antt =====
-- Tests of the events of a playbook (internal/ansible/dispatcher), and their theorems at inputs.
use k4e_device_worker.Prelude.{
  split_lines, ◌≡◌, refl, ℕ, true, false, List, [], ◌∷◌, map, ok, Result, text_key, number_key,
}
use k4e_device_worker.Ansible.Records.{JobEvent, no_event, HostItem, Play, Results}
use k4e_device_worker.Ansible.Messages.{create_message}
use k4e_device_worker.Ansible.Events.{Env, event_transformer}
use k4e_device_worker.Ansible.Events.Counted.{
  IsNumbered, play_names, event_of, event_transformer-counted,
}
use k4e_device_worker.Ansible.Messages.Lines.{create_message-split_lines}

abbrev identifiers : Env ℕ
identifiers = record { new_uuid = λ w. ("uuid", w); itoa = λ n. "n" }

abbrev went_well : HostItem
went_well = record {
  failed = false;
  skipped = false;
  changed = true;
  action = "command";
  stdout = "";
  stderr = "";
}

-- A play with one task on two hosts, on one of which it fails.
abbrev one_play : Play
one_play = record {
  id = "p";
  start = "s";
  end_time = "e";
  tasks =
      record {
        id = "t";
        name = "install";
        start = "s";
        hosts = ("a", went_well) ∷ ("b", record went_well { failed = true }) ∷ [];
      }
      ∷ [];
}

abbrev results : Results
results = record { plays = one_play ∷ []; stats = [] }

six_events :
    play_names results.plays
    ≡ "playbook_on_play_start" ∷ "playbook_on_task_start" ∷ "v2_runner_on_ok"
      ∷ "playbook_on_task_start" ∷ "v2_runner_on_failed" ∷ "playbook_on_stats" ∷ []
six_events = refl

event_transformer-counted_example :
    IsNumbered 0 (event_transformer identifiers "device" "play.yml" results 0).0
    × (map event_of (event_transformer identifiers "device" "play.yml" results 0).0
        ≡ play_names results.plays)
event_transformer-counted_example =
    event_transformer-counted identifiers "device" "play.yml" results 0

abbrev two_bytes : JobEvent → Result (List ℕ)
two_bytes e = ok (123 ∷ 125 ∷ [])

create_message-split_lines_example :
    (content : List ℕ) × (create_message two_bytes (no_event ∷ no_event ∷ []) ≡ ok content)
    × (split_lines content ≡ (123 ∷ 125 ∷ []) ∷ (123 ∷ 125 ∷ []) ∷ [])
create_message-split_lines_example =
    create_message-split_lines two_bytes no_event (no_event ∷ [])
      ((123 ∷ 125 ∷ []) ∷ (123 ∷ 125 ∷ []) ∷ []) (refl, refl, (refl, refl, tt))

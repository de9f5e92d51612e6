-- ===== src/Ansible/Messages.antt =====
-- The messages for the playbook dispatcher (internal/ansible/dispatcher/dispatcher_events.go).
-- Encoding an event is a parameter.
pub mod Lines
use k4e_device_worker.Prelude.{
  ℕ, suc, ◌+◌, Bool, true, false, Option, none, some, List, [], ◌∷◌, ◌++◌, String, Map, keys, get,
  put, if◌then◌else◌, text_key, nat_beq, ltb, ℤ, pos, negsuc, Result, ok, err, ◌⧺◌,
}
use k4e_device_worker.Ansible.Records.{
  EventData, JobEvent, no_data, no_event, HostItem, Task, Play, HostStats, Results,
}

-- `CreateMessage`: a text is the list of its bytes.
module _ (marshal : JobEvent → Result (List ℕ)) where
  abbrev pub newline : ℕ
  newline = 10

  -- `idx != len(events)-1`
  abbrev pub separator : List JobEvent → List ℕ
  separator [] = []
  separator (e ∷ rest) = newline ∷ []

  unfoldable pub write_event : List JobEvent → List ℕ → Result (List ℕ) → Result (List ℕ)
  write_event rest b (err e) = err e
  write_event rest b (ok more) = ok (b ++ (separator rest ++ more))

  unfoldable pub then_write : List JobEvent → Result (List ℕ) → Result (List ℕ) → Result (List ℕ)
  unfolding write_event
  then_write rest (err e) more = err e
  then_write rest (ok b) more = write_event rest b more

  unfoldable pub create_message : List JobEvent → Result (List ℕ)
  unfolding then_write
  create_message [] = ok []
  create_message (e ∷ rest) = then_write rest (marshal e) (create_message rest)

-- `pb.Data`
pub record DispatcherMessage : Type 0 where
  pub message_id : String
  pub directive : String
  pub response_to : String
  pub content : List ℕ

composed : String → String → String → Result (List ℕ) → Result DispatcherMessage
composed uuid return_url response_to (err e) = err e
composed uuid return_url response_to (ok content) = ok (record {
  message_id = uuid;
  directive = return_url;
  response_to = response_to;
  content = content;
})

unfoldable pub compose_dispatcher_message :
    (JobEvent → Result (List ℕ))
    → String
    → List JobEvent
    → String
    → String
    → Result DispatcherMessage
unfolding composed create_message
compose_dispatcher_message marshal uuid events return_url response_to =
    composed uuid return_url response_to (create_message marshal events)

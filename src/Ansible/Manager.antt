-- ===== src/Ansible/Manager.antt =====
-- The manager of the playbooks (internal/ansible/ansible_manager.go), but for the two goroutines of
-- `HandlePlaybook`. Running a playbook, files, JSON and the dispatcher's client are parameters.
mod Examples
pub mod Resumed
use k4e_device_worker.Prelude.{
  ℕ, Bool, true, false, Option, none, some, List, [], ◌∷◌, ◌++◌, String, Map, get, if◌then◌else◌,
  ◌==◌, text_key, ℤ, Result, ok, err, Err, Exec, pure, raise, lift, guard, change, collect, ◌>>=◌,
  ◌>>◌, ◌⧺◌,
}
use k4e_device_worker.Ansible.Mapping.{Playbooks, Env as MappingEnv, get_all, remove_playbook}
use k4e_device_worker.Ansible.Records.{JobEvent, Results}
use k4e_device_worker.Ansible.Kinds.{executor_on_start}
use k4e_device_worker.Ansible.Messages.{DispatcherMessage, compose_dispatcher_message}
use k4e_device_worker.Ansible.Events.{Env as EventsEnv, add_event, add_runner_job_event}
use k4e_device_worker.Workload.Netfilter.{contains_text}

-- The parts of `Manager` that change. `EventInfo` has a fixed reason and type here.
pub record Manager : Type 0 where
  pub mapping : Playbooks
  pub msg_list : List JobEvent
  pub events_queue : List String

-- `pb.Data`
pub record Message : Type 0 where
  pub message_id : String
  pub content : String
  pub metadata : Map String String

-- `run` is `AnsiblePlaybookCmd.Run` of the file, with its error and what it wrote to the buffer; it
-- ends by the timeout of its context. `results_of` is `JSONParse`, and `none` results without plays. `playbook_of` is the field of
-- the message that `json.Unmarshal` gives, "" where it is missing.
pub record Env (W : Type 0) : Type 0 where
  pub mapping_env : MappingEnv W
  pub events_env : EventsEnv W
  pub playbook_of : String → Result String
  pub write_file : String → String → W → Option Err × W
  pub remove_file : String → W → Option Err × W
  pub mod_time : String → W → Result ℤ
  pub read_file : String → W → Result String
  pub run : String → W → (Option Err × String) × W
  pub results_of : String → Result (Option Results)
  pub marshal : JobEvent → Result (List ℕ)
  pub dispatch : DispatcherMessage → W → Option Err × W
  pub show_metadata : Map String String → String
  pub join_errors : List Err → String

abbrev pub missing_attribute : {W : Type 0} → Env W → String → Map String String → Err
missing_attribute env attribute metadata =
    "missing attribute " ⧺ (attribute ⧺ (" in message metadata " ⧺ env.show_metadata metadata))

-- parseFailure
unfoldable pub parse_failure : JobEvent → String × String
parse_failure e = (
  if contains_text e.stdout "The command was not found or was not executable: ansible-playbook"
      then "ANSIBLE_NOT_INSTALLED"
      else "UNDEFINED_ERROR",
  e.stdout,
)

-- A message that was accepted: where the playbook is written, and the two required fields.
pub record Accepted : Type 0 where
  pub playbook_file : String
  pub playbook : String
  pub correlation_id : String
  pub return_url : String

module _ {W : Type 0} (env : Env W) where
  -- "Error while converting message content to map" is only logged
  abbrev payload : Result String → String
  payload (err e) = ""
  payload (ok text) = text

  required : Map String String → String → Option String → Result String
  required metadata attribute none = err (missing_attribute env attribute metadata)
  required metadata attribute (some t) = ok t

  -- the tests of `HandlePlaybook` before the playbook's file is written
  unfoldable pub accept : {S : Type 0} → Message → Exec S Accepted
  unfolding required
  accept d = do
    guard (if d.content == "" then false else true) ("empty message. messageID: " ⧺ d.message_id)
    guard (if payload (env.playbook_of d.content) == "" then false else true)
        ("missing playbook string in message with messageID: " ⧺ d.message_id)
    correlation_id ← lift (
        required d.metadata "crc_dispatcher_correlation_id"
          (get d.metadata "crc_dispatcher_correlation_id"))
    return_url ← lift (required d.metadata "return_url" (get d.metadata "return_url"))
    pure (record {
      playbook_file = "/tmp/ansible_playbook_" ⧺ (d.message_id ⧺ ".yml");
      playbook = payload (env.playbook_of d.content);
      correlation_id = correlation_id;
      return_url = return_url;
    })

  -- The manager and the world.
  abbrev pub State : Type 0
  State = Manager × W

  written : String → Option Err × W → Result (Unit {0}) × W
  written file (none, w) = (ok tt, w)
  written file (some e, w) =
      (err ("cannot create ansible playbook yaml file " ⧺ (file ⧺ (". Error: " ⧺ e))), w)

  write_playbook : Accepted → Exec State (Unit {0})
  unfolding written
  write_playbook a (m, w) =
      let (r, w') = written a.playbook_file (env.write_file a.playbook_file a.playbook w) in
      (r, (m, w'))

  add_on_start : String → State → State
  add_on_start correlation_id (m, w) =
      let (uuid, w') = env.events_env.new_uuid w in
      (
        record m {
          msg_list = add_runner_job_event m.msg_list (executor_on_start uuid correlation_id "");
        },
        w',
      )

  -- `HandlePlaybook` up to the two goroutines. A file that cannot be looked at is a panic on a nil
  -- `fileInfo`, which the model makes an error of its own.
  unfoldable pub prepare : Message → Exec State (Accepted × ℤ)
  unfolding accept write_playbook add_on_start
  prepare d = do
    a ← accept d
    write_playbook a
    change (add_on_start a.correlation_id)
    t ← (λ (m, w). (env.mod_time a.playbook_file w, (m, w)))
    pure (a, t)

  sent : DispatcherMessage → Exec State (Unit {0})
  sent message (m, w) =
      let (e, w') = env.dispatch message w in (elim e [ none ↦ ok tt | some c ↦ err c ], (m, w'))

  add_results : String → Results → Exec State (List JobEvent)
  add_results file results (m, w) =
      let (events, w') = add_event env.events_env "" file results m.msg_list w in
      (ok events, (record m { msg_list = events }, w'))

  compose : List JobEvent → String → String → Exec State DispatcherMessage
  compose events return_url response_to (m, w) =
      let (uuid, w') = env.events_env.new_uuid w in
      (compose_dispatcher_message env.marshal uuid events return_url response_to, (m, w'))

  -- `sendEvents`: `none` is a result without plays. The dispatcher's device is "", since
  -- nothing sets the variable that it is made with.
  unfoldable pub send_events : Option Results → String → String → String → Exec State (Unit {0})
  unfolding sent add_results compose
  send_events none return_url response_to file =
      raise ("cannot compose empty message for " ⧺ response_to)
  send_events (some results) return_url response_to file = do
    events ← add_results file results
    message ← compose events return_url response_to
    sent message

  -- The parts of `execPlaybookSync` after the file was read.
  forget_playbook : String → State → State
  forget_playbook content (m, w) =
      let (e, mapping, w') = remove_playbook env.mapping_env content m.mapping w in
      (record m { mapping = mapping }, w')

  -- The results that were parsed, with the error of the run.
  finish_sync :
      String
      → Option Err
      → Result (Option Results)
      → State
      → Result (Option Results × Option Err) × State
  unfolding forget_playbook
  finish_sync content err_run (err e) s = (err e, s)
  finish_sync content err_run (ok results) s = (ok (results, err_run), forget_playbook content s)

  run_read : String → Result String → State → Result (Option Results × Option Err) × State
  unfolding finish_sync
  run_read file (err e) s = (err e, s)
  run_read file (ok content) (m, w) =
      let ((err_run, out), w') = env.run file w in
      finish_sync content err_run (env.results_of out) (m, w')

  -- `execPlaybookSync`: an error alone, or results with the error of the run.
  unfoldable pub exec_playbook_sync : String → Exec State (Option Results × Option Err)
  unfolding run_read
  exec_playbook_sync file (m, w) = run_read file (env.read_file file w) (m, w)

  -- The loop of `ExecutePendingPlaybooks`: an error without results ends it and is returned alone.
  unfoldable pub execute_all : List String → List Err → Exec State (List Err)
  unfolding exec_playbook_sync
  execute_all [] errors = pure errors
  execute_all (file ∷ rest) errors = do
    r ← exec_playbook_sync file
    execute_all rest (collect errors r.1)

  abbrev paths : Map ℕ String → List String
  paths [] = []
  paths ((i, file) ∷ rest) = file ∷ paths rest

  report : List Err → Exec State (List Err)
  report [] s = (ok [], s)
  report (e ∷ es) (m, w) = (
    ok (e ∷ es),
    (record m { events_queue = m.events_queue ++ env.join_errors (e ∷ es) ∷ [] }, w),
  )

  -- `ExecutePendingPlaybooks`, going through the map in the order in which it is iterated
  unfoldable pub execute_pending_playbooks : Exec State (List Err)
  unfolding execute_all report
  execute_pending_playbooks (m, w) =
      (do errors ← execute_all (paths (get_all m.mapping)) []; report errors) (m, w)

abbrev pub add_to_event_queue : Manager → String → Manager
add_to_event_queue m event = record m { events_queue = m.events_queue ++ event ∷ [] }

unfoldable pub pop_events : Manager → List String × Manager
pop_events m = (m.events_queue, record m { events_queue = [] })

-- ===== src/Ansible/Records.antt =====
-- The job events that are sent to the playbook dispatcher
-- (internal/ansible/model/message), and the results of go-ansible that they are made from.
use k4e_device_worker.Prelude.{ℕ, Bool, Option, none, List, [], String, Map, text_key, ℤ, pos}

-- The parts of `AnsibleRunnerJobEventYaml` that are set. Pointers are options, and what a pointer
-- shows when the message is encoded is its value.
pub record EventData : Type 0 where
  pub playbook : Option String
  pub playbook_uuid : Option String
  pub host : Option String
  pub task_uuid : Option String
  pub task : Option String
  pub task_action : Option String
  pub res_changed : Option Bool
  pub uuid : Option String
  pub changed : Map String ℤ
  pub ok_hosts : Map String ℤ
  pub failures : Map String ℤ
  pub correlation_id : Option String
  pub error_code : Option String
  pub error_details : Option String

pub record JobEvent : Type 0 where
  pub event : String
  pub uuid : String
  pub counter : ℤ
  pub stdout : String
  pub stderr : String
  pub start_line : ℕ
  pub end_line : ℕ
  pub runner_ident : Option String
  pub created : Option String
  pub event_data : EventData

abbrev pub no_data : EventData
no_data = record {
  playbook = none;
  playbook_uuid = none;
  host = none;
  task_uuid = none;
  task = none;
  task_action = none;
  res_changed = none;
  uuid = none;
  changed = [];
  ok_hosts = [];
  failures = [];
  correlation_id = none;
  error_code = none;
  error_details = none;
}

abbrev pub no_event : JobEvent
no_event = record {
  event = "";
  uuid = "";
  counter = pos 0;
  stdout = "";
  stderr = "";
  start_line = 0;
  end_line = 0;
  runner_ident = none;
  created = none;
  event_data = no_data;
}

-- The parts of go-ansible's results that are read.
pub record HostItem : Type 0 where
  pub failed : Bool
  pub skipped : Bool
  pub changed : Bool
  pub action : String
  pub stdout : String
  pub stderr : String

pub record Task : Type 0 where
  pub id : String
  pub name : String
  pub start : String
  pub hosts : Map String HostItem

pub record Play : Type 0 where
  pub id : String
  pub start : String
  pub end_time : String
  pub tasks : List Task

pub record HostStats : Type 0 where
  pub changed : ℤ
  pub ok_count : ℤ
  pub failures : ℤ

pub record Results : Type 0 where
  pub plays : List Play
  pub stats : Map String HostStats

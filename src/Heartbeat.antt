-- ===== src/Heartbeat.antt =====
-- The heartbeat of internal/heartbeat/heartbeat.go: what the device reports, and how often. The
-- dispatcher, the encoding and the other managers are parameters.
pub mod Reports
pub mod Ticker
mod Examples
use k4e_device_worker.Prelude.{
  ℕ, Bool, true, false, ◌||◌, Option, none, some, List, [], ◌∷◌, ◌++◌, String, Map, get,
  if◌then◌else◌, ◌==◌, text_key, nat_beq, ℤ, pos, ltb_ℤ, int_beq, Result, ok, err, Err,
}
use k4e_device_worker.Workload.Wrapper.{WorkloadInfo}
use k4e_device_worker.Workload.Manager.{Event}
use k4e_device_worker.DataTransfer.{Times}

-- models.WorkloadStatus
pub record WorkloadStatus : Type 0 where
  pub name : String
  pub status : String
  pub last_data_upload : Option ℕ

-- models.Heartbeat, whose status is always "up"; `H` is the hardware's information, `U` the
-- upgrade status.
pub record HeartbeatInfo (H U : Type 0) : Type 0 where
  pub version : String
  pub workloads : List WorkloadStatus
  pub hardware : Option H
  pub events : List Event
  pub upgrade : U

-- The managers that a heartbeat asks, with the calls that it makes
pub record Env (W H U : Type 0) : Type 0 where
  pub list_workloads : W → Result (List WorkloadInfo) × W
  pub sync_times : W → Times
  pub version : W → String
  pub include_hardware : W → Bool  -- `Heartbeat.HardwareProfile.Include`
  pub hardware_information : W → Result H
  pub upgrade_status : W → U
  pub marshal : HeartbeatInfo H U → Result String
  pub dispatch : String → W → Result ℕ × W  -- the status code of the response, or an error
  pub register_device : W → W

-- The queues of events of the workload manager and of the Ansible manager
pub record Queues : Type 0 where
  pub workload_events : List Event
  pub ansible_events : List Event

unfoldable pub workload_statuses : Times → List WorkloadInfo → List WorkloadStatus
workload_statuses times [] = []
workload_statuses times (i ∷ rest) =
    record { name = i.name; status = i.status; last_data_upload = get times i.name }
    ∷ workload_statuses times rest

-- `getInterval`: the period, an int64, if the configuration has one and it is positive
unfoldable pub get_interval : Option ℤ → ℤ
get_interval none = pos 60
get_interval (some period) = if ltb_ℤ (pos 0) period then period else pos 60

module _ {W H U : Type 0} (env : Env W H U) where
  listed : Result (List WorkloadInfo) → List WorkloadInfo
  listed (ok infos) = infos
  listed (err e) = []

  hardware_or_none : Result H → Option H
  hardware_or_none (ok h) = some h
  hardware_or_none (err e) = none

  -- Whether there is an Ansible manager; both queues are emptied.
  unfoldable pub retrieve_info : Bool → Queues → W → HeartbeatInfo H U × Queues × W
  unfolding workload_statuses listed hardware_or_none
  retrieve_info with_ansible q w =
      let (infos, w') = env.list_workloads w in
      (
        record {
          version = env.version w';
          workloads = workload_statuses (env.sync_times w') (listed infos);
          hardware =
              if env.include_hardware w'
              then hardware_or_none (env.hardware_information w')
              else none;
          events = q.workload_events ++ (if with_ansible then q.ansible_events else []);
          upgrade = env.upgrade_status w';
        },
        record {
          workload_events = [];
          ansible_events = if with_ansible then [] else q.ansible_events;
        },
        w',
      )

  unfoldable pub sent_again : Result ℕ × W → Option Err × W
  sent_again (ok code, w) = (none, w)
  sent_again (err e, w) = (some e, w)

  unfoldable pub answered : String → Result ℕ × W → Option Err × W
  unfolding sent_again
  answered content (err e, w) = (some e, w)
  answered content (ok code, w) =
      let again = sent_again (env.dispatch content (env.register_device w)) in
      if nat_beq code 401 then again else (none, w)

  -- An expired certificate is renewed, and the data sent once more.
  unfoldable pub send : String → W → Option Err × W
  unfolding answered
  send content w = answered content (env.dispatch content w)

  unfoldable pub push_marshalled : Result String → W → Option Err × W
  unfolding send
  push_marshalled (err e) w = (some e, w)
  push_marshalled (ok content) w = send content w

  unfoldable pub push_information : Bool → Queues → W → Option Err × Queues × W
  unfolding retrieve_info push_marshalled
  push_information with_ansible q w =
      let (info, q', w1) = retrieve_info with_ansible q w in
      let (e, w2) = push_marshalled (env.marshal info) w1 in (e, q', w2)

-- ===== src/Server.antt =====
-- `deviceServer` of internal/server/deviceserver.go: what a message of the operator sets off. The
-- goroutines of `Send` and of the updates are one step each; JSON, the Ansible manager and the
-- configuration manager are parameters.
pub mod Playbook
mod Examples
use k4e_device_worker.Prelude.{
  Bool, true, false, ◌&&◌, Option, none, some, List, [], ◌∷◌, String, Map, get, if◌then◌else◌, ◌==◌,
  text_key, ℤ, pos, Result, ok, err, Err,
}

-- pb.Data, as far as it is read
pub record Data : Type 0 where
  pub content : String
  pub metadata : Map String String

-- `M` are configuration messages. `unmarshal` gives the error and what the message is after it.
pub record Env (W M : Type 0) : Type 0 where
  pub unmarshal : String → Option Err × M
  pub atoi : String → Result ℤ
  pub handle_playbook : String → ℤ → W → Option Err × W
  pub update_config : M → W → Option Err × W
  pub deregister : W → Option Err × W

module _ {W M : Type 0} (env : Env W M) where
  unfoldable pub seconds_or : ℤ → Result ℤ → ℤ
  seconds_or default (err e) = default
  seconds_or default (ok n) = n

  unfoldable pub timeout_of : Option String → ℤ
  unfolding seconds_or
  timeout_of none = pos 300
  timeout_of (some text) = seconds_or (pos 300) (env.atoi text)

  -- `getTimeout`, in seconds
  unfoldable pub get_timeout : Map String String → ℤ
  unfolding timeout_of
  get_timeout metadata = timeout_of (get metadata "ansible-playbook-timeout")

  unfoldable pub is_true : Option String → Bool
  is_true none = false
  is_true (some x) = x == "true"

  unfoldable pub run_playbook : Bool → Data → W → W
  unfolding get_timeout is_true
  run_playbook with_ansible d w =
      let (e, w') = env.handle_playbook d.content (get_timeout d.metadata) w in
      if with_ansible && is_true (get d.metadata "ansible-playbook") then w' else w

  -- The goroutine of `Send`, and the one that applies what it passes on: an error of either is only
  -- logged, and the message is passed on whether or not it could be read.
  unfoldable pub send : Bool → Data → W → W
  unfolding run_playbook
  send with_ansible d w =
      let w1 = run_playbook with_ansible d w in
      let (e, message) = env.unmarshal d.content in
      let (e', w2) = env.update_config message w1 in w2

  -- `NotifyEvent`, for whether the event is RECEIVED_DISCONNECT
  unfoldable pub notify_event : Bool → W → W
  notify_event disconnected w = let (e, w') = env.deregister w in if disconnected then w' else w

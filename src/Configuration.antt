-- ===== src/Configuration.antt =====
-- `Manager` of internal/configuration/configuration.go: the device's configuration, its file and
-- the observers that are told of every change. The encoding and the file system are parameters.
pub mod Update
pub mod Secrets
pub mod Unordered
mod Examples
use k4e_device_worker.Prelude.{
  ℕ, Bool, true, false, not, ◌&&◌, ◌||◌, Option, none, some, List, [], ◌∷◌, ◌++◌, String, Map, get,
  put, length, nat_beq, Key, if◌then◌else◌, ◌==◌, text_key, Result, ok, err, Err, collect, ◌⧺◌,
}
use k4e_device_worker.Workload.Secrets.{Secret}

-- models.DeviceConfigurationMessage: `C` are device configurations, `L` are lists of workloads.
pub record Message (C L : Type 0) : Type 0 where
  pub configuration : C
  pub workloads : L
  pub secrets : List Secret
  pub device_id : String
  pub version : String

-- reflect.DeepEqual of two secrets
abbrev pub secret_beq : Secret → Secret → Bool
secret_beq s t = (s.name == t.name) && (s.data_text == t.data_text)

unfoldable pub index_secrets : List Secret → Map String Secret → Map String Secret
index_secrets [] m = m
index_secrets (s ∷ rest) m = index_secrets rest (put m s.name s)

unfoldable pub same_secret : Option Secret → Secret → Bool
same_secret none s = false
same_secret (some t) s = secret_beq s t

unfoldable pub all_indexed : Map String Secret → List Secret → Bool
unfolding same_secret
all_indexed m [] = true
all_indexed m (s ∷ rest) = if same_secret (get m s.name) s then all_indexed m rest else false

unfoldable pub is_equal_unordered_secret_lists : List Secret → List Secret → Bool
unfolding index_secrets all_indexed
is_equal_unordered_secret_lists x y =
    if nat_beq (length x) (length y) then all_indexed (index_secrets x []) y else false

-- `Observer`: the errors of `Init` are only logged.
pub record Observer (C L W : Type 0) : Type 0 where
  pub init : Message C L → W → Option Err × W
  pub update : Message C L → W → Option Err × W

abbrev pub observer_failed : Option Err → Option Err
observer_failed none = none
observer_failed (some e) = some ("running config observer failed: " ⧺ e)

-- The calls of encoding/json and of the file system, on the file "device-config.json". The maps and
-- pointers of a message are shared with the observers, which may write into them: `in_memory` is
-- what the message that came in holds in a world.
pub record Env (C L W : Type 0) : Type 0 where
  pub in_memory : Message C L → W → Message C L
  pub marshal : Message C L → Result String
  pub unmarshal : String → Result (Message C L)
  pub read_file : W → Result String
  pub write_file : String → W → Option Err × W
  pub remove_file : W → Option Err × W

pub record Manager (C L W : Type 0) : Type 0 where
  pub device_configuration : Message C L
  pub observers : List (Observer C L W)
  pub initial_config : Bool

module _ {C L W : Type 0} ⦃same_c : Key C⦄ ⦃same_l : Key L⦄ (env : Env C L W)
    (fallback : Message C L) where
  unfoldable pub read_config : Result (Message C L) → Manager C L W
  read_config (err e) = record {
    device_configuration = fallback;
    observers = [];
    initial_config = false;
  }
  read_config (ok m) = record { device_configuration = m; observers = []; initial_config = false }

  unfoldable pub from_file : Result String → Manager C L W
  unfolding read_config
  from_file (err e) = record {
    device_configuration = fallback;
    observers = [];
    initial_config = true;
  }
  from_file (ok text) = read_config (env.unmarshal text)

  -- A file that cannot be read makes the first update unconditional, one that cannot be parsed
  -- does not. `fallback` is `defaultDeviceConfigurationMessage`.
  unfoldable pub new_configuration_manager : W → Manager C L W
  unfolding from_file
  new_configuration_manager w = from_file (env.read_file w)

  unfoldable pub register_observer : Observer C L W → Manager C L W → W → Manager C L W × W
  register_observer o m w =
      let (e, w') = o.init m.device_configuration w in
      (record m { observers = m.observers ++ o ∷ [] }, w')

  unfoldable pub should_update : Message C L → Manager C L W → Bool
  unfolding is_equal_unordered_secret_lists
  should_update msg m =
      let old = m.device_configuration in
      let unchanged =
        (msg.configuration == old.configuration)
        && ((msg.workloads == old.workloads)
            && is_equal_unordered_secret_lists msg.secrets old.secrets) in
      if m.initial_config then true else not unchanged

  unfoldable pub notify : Message C L → List (Observer C L W) → List Err → W → List Err × W
  notify msg [] errors w = (errors, w)
  notify msg (o ∷ rest) errors w =
      let (e, w') = o.update msg w in notify msg rest (collect errors (observer_failed e)) w'

  -- `multierror.Append(fmt.Errorf(...))`: the errors so far are not among the arguments.
  unfoldable pub saved :
      Message C L → Manager C L W → List Err → Option Err × W → List Err × Manager C L W × W
  saved msg m errors (some e, w) = (("cannot write device config file: " ⧺ e) ∷ [], m, w)
  saved msg m errors (none, w) =
      (errors, record m { device_configuration = msg; initial_config = false }, w)

  unfoldable pub save :
      Message C L → Manager C L W → Result String → List Err × W → List Err × Manager C L W × W
  unfolding saved
  save msg m (err e) (errors, w) = (errors ++ ("cannot unmarshal message JSON: " ⧺ e) ∷ [], m, w)
  save msg m (ok text) (errors, w) = saved msg m errors (env.write_file text w)

  -- What is encoded and kept is the message as the observers left it.
  unfoldable pub save_told :
      Message C L → Manager C L W → List Err × W → List Err × Manager C L W × W
  unfolding save
  save_told msg m (errors, w) =
      let left = env.in_memory msg w in save left m (env.marshal left) (errors, w)

  unfoldable pub update : Message C L → Manager C L W → W → List Err × Manager C L W × W
  unfolding should_update notify save_told
  update msg m w =
      if should_update msg m then save_told msg m (notify msg m.observers [] w) else ([], m, w)

  unfoldable pub deregister : Manager C L W → W → Option Err × Manager C L W × W
  deregister m w = let (e, w') = env.remove_file w in (e, m, w')

-- ===== src/Service.antt =====
-- The systemd units of the pods, and their registry (internal/service/systemd.go). The dbus
-- connection and the file system are parameters.
pub mod Restart
pub mod Registry
mod Examples
use k4e_device_worker.Prelude.{
  ℕ, Bool, true, false, Option, none, some, List, [], ◌∷◌, String, Map, keys, get, remove, put,
  if◌then◌else◌, ◌==◌, text_key, Result, ok, err, Err, Exec, pure, raise, ◌>>=◌, ◌>>◌, ◌⧺◌,
}

-- `systemd`. A connection is there, or the pointer is nil.
pub record Systemd (Conn : Type 0) : Type 0 where
  pub name : String
  pub restart_sec : ℕ
  pub units : List String
  pub units_content : Map String String
  pub service_prefix : String
  pub dbus_connection : Option Conn
  pub suffix : String
  pub pod_suffix : String

abbrev pub default_restart_timeout : ℕ
default_restart_timeout = 15

abbrev pub units_path : String
units_path = "/etc/systemd/system/"

unfoldable pub service_name : {Conn : Type 0} → Systemd Conn → String → String
service_name s name = s.service_prefix ⧺ (name ⧺ (s.pod_suffix ⧺ s.suffix))

unfoldable pub default_service_name : String → String
default_service_name name = "pod-" ⧺ (name ⧺ ("_pod" ⧺ ".service"))

-- `path.Join(DefaultUnitsPath, unit+s.suffix)` for a unit name without separators
unfoldable pub unit_file : {Conn : Type 0} → Systemd Conn → String → String
unit_file s unit = units_path ⧺ (unit ⧺ s.suffix)

-- `NewSystemdWithSuffix`, once there is a connection
unfoldable pub new_systemd_with_suffix :
    {Conn : Type 0} → Conn → String → String → String → String → Map String String → Systemd Conn
new_systemd_with_suffix conn name prefix name_suffix service_suffix units = record {
  name = name;
  restart_sec = default_restart_timeout;
  units = keys units;
  units_content = units;
  service_prefix = prefix;
  dbus_connection = some conn;
  suffix = service_suffix;
  pod_suffix = name_suffix;
}

unfoldable pub new_systemd :
    {Conn : Type 0} → Conn → String → String → Map String String → Systemd Conn
unfolding new_systemd_with_suffix
new_systemd conn name prefix units =
    new_systemd_with_suffix conn name prefix "_pod" ".service" units

-- What a method comes back with: its error result, or a panic on a nil connection.
pub data Ran (W : Type 0) : Type 0 where
  returned : Option Err → W → Ran W
  panicked : W → Ran W

-- The calls of go-systemd and of the file system. A job ends with a text, "done" if all went well.
pub record Env (W Conn : Type 0) : Type 0 where
  pub reload : Conn → W → Option Err × W
  pub start_unit : Conn → String → W → Result String × W
  pub stop_unit : Conn → String → W → Result String × W
  pub enable_unit : Conn → String → W → Option Err × W
  pub disable_unit : Conn → String → W → Option Err × W
  pub write_file : String → String → W → Option Err × W
  pub remove_file : String → W → Option Err × W

module _ {W Conn : Type 0} (env : Env W Conn) where
  with_connection : Option Conn → (Conn → W → Option Err × W) → W → Ran W
  with_connection none call w = panicked w
  with_connection (some conn) call w = let (e, w') = call conn w in returned e w'

  job_result : String → String → Result String × W → Option Err × W
  job_result verb name (err e, w) = (some e, w)
  job_result verb name (ok text, w) =
      if text == "done"
      then (none, w)
      else (some ("Failed to " ⧺ (verb ⧺ (" systemd service " ⧺ name))), w)

  unfoldable pub start : Systemd Conn → W → Ran W
  unfolding with_connection job_result service_name
  start s w =
      with_connection s.dbus_connection
        (λ conn v.
          job_result "start" (service_name s s.name)
            (env.start_unit conn (service_name s s.name) v))
        w

  unfoldable pub stop : Systemd Conn → W → Ran W
  unfolding with_connection job_result service_name
  stop s w =
      with_connection s.dbus_connection
        (λ conn v.
          job_result "stop" (service_name s s.name) (env.stop_unit conn (service_name s s.name) v))
        w

  unfoldable pub enable : Systemd Conn → W → Ran W
  unfolding with_connection service_name
  enable s w =
      with_connection s.dbus_connection (λ conn v. env.enable_unit conn (service_name s s.name) v) w

  unfoldable pub disable : Systemd Conn → W → Ran W
  unfolding with_connection service_name
  disable s w =
      with_connection s.dbus_connection (λ conn v. env.disable_unit conn (service_name s s.name) v)
        w

  write_units : Systemd Conn → Map String String → W → Option Err × W
  unfolding unit_file
  write_units s [] w = (none, w)
  write_units s ((unit, content) ∷ rest) w =
      let (e, w') = env.write_file (unit_file s unit) content w in
      let next = write_units s rest w' in elim e [ none ↦ next | some c ↦ (some c, w') ]

  remove_units : Systemd Conn → List String → W → Option Err × W
  unfolding unit_file
  remove_units s [] w = (none, w)
  remove_units s (unit ∷ rest) w =
      let (e, w') = env.remove_file (unit_file s unit) w in
      let next = remove_units s rest w' in elim e [ none ↦ next | some c ↦ (some c, w') ]

  then_reload : Systemd Conn → Option Err × W → Ran W
  unfolding with_connection
  then_reload s (some c, w) = returned (some c) w
  then_reload s (none, w) = with_connection s.dbus_connection env.reload w

  unfoldable pub add_units : Systemd Conn → W → Ran W
  unfolding write_units then_reload
  add_units s w = then_reload s (write_units s s.units_content w)

  unfoldable pub delete_units : Systemd Conn → W → Ran W
  unfolding remove_units then_reload
  delete_units s w = then_reload s (remove_units s s.units w)

-- What `json` writes of a service: the three fields with a tag.
pub record Saved : Type 0 where
  pub name : String
  pub restart_sec : ℕ
  pub units : List String

unfoldable pub to_json : {Conn : Type 0} → Systemd Conn → Saved
to_json s = record { name = s.name; restart_sec = s.restart_sec; units = s.units }

unfoldable pub from_json : {Conn : Type 0} → Saved → Systemd Conn
from_json v = record {
  name = v.name;
  restart_sec = v.restart_sec;
  units = v.units;
  units_content = [];
  service_prefix = "";
  dbus_connection = none;
  suffix = "";
  pod_suffix = "";
}

-- ===== src/Service/Restart.antt =====
-- The units of a service by name, and what is left of a service when the agent restarts.
use k4e_device_worker.Prelude.{◌≡◌, refl, String, Map, text_key}
use k4e_device_worker.Service.{
  Systemd, Env, panicked, service_name, default_service_name, new_systemd, start, stop, to_json,
  from_json,
}

-- The name in the label that `toPod` sets is the name under which systemd knows the pod's service.
pub default_service_name-service_name :
    {Conn : Type 0} (conn : Conn) (name : String) (units : Map String String)
    → service_name (new_systemd conn name "pod-" units) name ≡ default_service_name name
unfolding service_name new_systemd default_service_name
default_service_name-service_name conn name units = refl

module _ {W Conn : Type 0} (env : Env W Conn) where
  -- A service that was read back from `services.json` has no connection: to stop it, as every
  -- removal of a workload does first, is a panic, whatever service was saved.
  pub stop-from_json_panics :
      (s : Systemd Conn) (w : W)
      → (stop env (from_json (to_json s)) w ≡ panicked w)
        × (start env (from_json (to_json s)) w ≡ panicked w)
  unfolding stop start from_json
  stop-from_json_panics s w = (refl, refl)

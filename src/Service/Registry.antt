-- ===== src/Service/Registry.antt =====
-- `systemdManager`: the services by name, in a map and in a file.
pub mod Restarted
use k4e_device_worker.Prelude.{
  ◌≡◌, Option, none, some, [], ◌∷◌, String, Map, get, remove, put, if◌then◌else◌, ◌==◌, text_key,
  Err, Result, ok, err, ◌⧺◌, get-put, get-remove,
}
use k4e_device_worker.Service.{Systemd, Saved, to_json, from_json}

-- `Get`; `none` is a nil service.
unfoldable pub get_service : {S : Type 0} → Map String S → String → Option S
get_service services name = get services name

-- `services` holds values of the interface `Service`, of which the name is asked.
module _ {W S : Type 0} (name_of : S → String) (write : Map String S → W → Option Err × W) where
  unfoldable pub register : S → Map String S → W → Option Err × Map String S × W
  register svc services w =
      let services' = put services (name_of svc) svc in
      let (e, w') = write services' w in (e, services', w')

  unfoldable pub unregister : S → Map String S → W → Option Err × Map String S × W
  unregister svc services w =
      let services' = remove services (name_of svc) in
      let (e, w') = write services' w in (e, services', w')

  -- A registered service is found under its name, an unregistered one is not, and every other
  -- name keeps its service, whether or not the file could be written.
  pub get-register :
      (svc : S) (services : Map String S) (w : W) (j : String)
      → (get (register svc services w).1 j
          ≡ (if name_of svc == j then some svc else get services j))
        × (get (unregister svc services w).1 j
            ≡ (if name_of svc == j then none else get services j))
  unfolding register unregister
  get-register svc services w j =
      (get-put services (name_of svc) j svc, get-remove services (name_of svc) j)

-- The file "services.json", by its encoding and the calls of the file system
module _ {W : Type 0} (marshal : Map String Saved → Result String)
    (write_file : String → W → Option Err × W) where
  unfoldable pub write_json : Result String → W → Option Err × W
  write_json (err e) w = (some e, w)
  write_json (ok json) w = write_file json w

  unfoldable pub saved_services : {Conn : Type 0} → Map String (Systemd Conn) → Map String Saved
  saved_services [] = []
  saved_services ((k, s) ∷ rest) = (k, to_json s) ∷ saved_services rest

  -- `write`
  unfoldable pub write_services : {Conn : Type 0} → Map String (Systemd Conn) → W → Option Err × W
  unfolding write_json saved_services
  write_services services w = write_json (marshal (saved_services services)) w

unfoldable pub read_services : {Conn : Type 0} → Map String Saved → Map String (Systemd Conn)
read_services [] = []
read_services ((k, v) ∷ rest) = (k, from_json v) ∷ read_services rest

unfoldable pub parsed_services :
    {Conn : Type 0} → String → Result (Map String Saved) → Result (Map String (Systemd Conn))
unfolding read_services
parsed_services service_path (err e) = err ("cannot unmarshal " ⧺ service_path ⧺ ": " ⧺ e)
parsed_services service_path (ok saved) = ok (read_services saved)

-- `NewSystemdManager`, by the path of the file and what reading it gives: a file that cannot be
-- read gives no services.
unfoldable pub new_systemd_manager :
    {Conn : Type 0}
    → String
    → (String → Result (Map String Saved))
    → Result String
    → Result (Map String (Systemd Conn))
unfolding parsed_services
new_systemd_manager service_path unmarshal (err e) = ok []
new_systemd_manager service_path unmarshal (ok json) = parsed_services service_path (unmarshal json)

-- `RemoveServicesFile`, by `os.RemoveAll` and the path: the services stay registered.
unfoldable pub remove_services_file :
    {W S : Type 0}
    → (String → W → Option Err × W)
    → String
    → Map String S
    → W
    → Option Err × Map String S × W
remove_services_file remove_all path services w =
    let (e, w') = remove_all path w in (e, services, w')

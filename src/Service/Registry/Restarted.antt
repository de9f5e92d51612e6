-- ===== src/Service/Registry/Restarted.antt =====
-- The registry of the services after the agent was started again.
use k4e_device_worker.Prelude.{
  ◌≡◌, refl, ap, ◌∙◌, Option, none, some, [], ◌∷◌, String, Map, get, text_key, Err, Result, ok, err,
  ◌==◌, Bool-cases, inl, inr,
}
use k4e_device_worker.Service.{Systemd, Saved, Env, to_json, from_json, stop, panicked}
use k4e_device_worker.Service.Restart.{stop-from_json_panics}
use k4e_device_worker.Service.Registry.{
  write_json, saved_services, write_services, read_services, parsed_services, new_systemd_manager,
  get_service,
}

module _ {W V Conn : Type 0} (env : Env V Conn) (marshal : Map String Saved → Result String)
    (unmarshal : String → Result (Map String Saved)) (write_file : String → W → Option Err × W)
    (service_path : String) (read_file : W → Result String) where
  get-read_services :
      (services : Map String (Systemd Conn)) (name : String) (s : Systemd Conn)
      → get services name ≡ some s
      → get (read_services {Conn = Conn} (saved_services marshal write_file services)) name
        ≡ some (from_json (to_json s))
  unfolding get read_services saved_services
  get-read_services [] name s h = cc
  get-read_services ((k, t) ∷ rest) name s h = elim (Bool-cases (k == name)) [
    | inl same ↦ (let found = rw same at h in rw same (ap (λ o. json_or o) found))
    | inr other ↦ (let later = rw other at h in rw other (get-read_services rest name s later))
  ]
    where
      json_or : Option (Systemd Conn) → Option (Systemd Conn)
      json_or none = none
      json_or (some x) = some (from_json (to_json x))

  write_json_ok :
      (r : Result String) (w : W)
      → (write_json marshal write_file r w).0 ≡ none
      → (json : String) × (r ≡ ok json)
        × ((write_file json w).0 ≡ none)
        × ((write_json marshal write_file r w).1 ≡ (write_file json w).1)
  unfolding write_json
  write_json_ok (err e) w h = cc
  write_json_ok (ok json) w h = (json, refl, h, refl)

  -- The services that were written to the file without an error are all there after a start of the
  -- agent, if the file reads what was written and the encoding can be decoded; but to stop one of
  -- them, which the removal of its workload does first, is a panic, since it has no connection.
  pub new_systemd_manager-stop :
      (services : Map String (Systemd Conn)) (name : String) (s : Systemd Conn) (w : W) (v : V)
      → ((saved : Map String Saved) (json : String)
          → marshal saved ≡ ok json
          → unmarshal json ≡ ok saved)
      → ((json : String) (u : W)
          → (write_file json u).0 ≡ none
          → read_file (write_file json u).1 ≡ ok json)
      → (write_services marshal write_file services w).0 ≡ none
      → get services name ≡ some s
      → (restored : Map String (Systemd Conn)) × (new_systemd_manager service_path unmarshal
            (read_file (write_services marshal write_file services w).1)
          ≡ ok restored)
        × (t : Systemd Conn) × (get_service restored name ≡ some t)
        × (stop env t v ≡ panicked v)
  unfolding write_services new_systemd_manager get_service
  new_systemd_manager-stop services name s w v decodes reads wrote found =
      let saved = saved_services marshal write_file services in
      let (json, encoded, clean, state) = write_json_ok (marshal saved) w wrote in
      let text = ap read_file state ∙ reads json w clean in
      (
        read_services saved,
        ap (λ r. new_systemd_manager {Conn = Conn} service_path unmarshal r) text
            ∙ (ap (λ r. parsed_services service_path r) (decodes saved json encoded)),
        from_json (to_json s),
        get-read_services services name s found,
        (stop-from_json_panics env s v).0,
      )

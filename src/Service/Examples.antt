-- ===== src/Service/Examples.antt =====
-- Tests of the services (internal/service), and their theorems at inputs.
use native.Mathlib.Decide.{ℕ_discrete}
use k4e_device_worker.Prelude.{
  ◌≡◌, refl, sym, ap, Option, none, some, [], ◌∷◌, String, Map, get, text_key, text-discrete,
  Result, ok, err, Err,
}
use k4e_device_worker.Service.{
  Systemd, Saved, Env, panicked, new_systemd, stop, to_json, returned, add_units,
}
use k4e_device_worker.Service.Registry.{
  write_json, saved_services, write_services, new_systemd_manager, get_service,
}
use k4e_device_worker.Service.Registry.Restarted.{new_systemd_manager-stop}

-- A host whose calls all go well, and that keeps the files it was told to write.
abbrev files : Env (Map String String) Unit
files = record {
  reload = λ c w. (none, w);
  start_unit = λ c unit w. (ok "done", w);
  stop_unit = λ c unit w. (ok "done", w);
  enable_unit = λ c unit w. (none, w);
  disable_unit = λ c unit w. (none, w);
  write_file = λ name text w. (none, (name, text) ∷ w);
  remove_file = λ name w. (none, w);
}

abbrev web : Systemd Unit
web = new_systemd tt "web" "pod-" (("pod-web_pod", "[Unit]") ∷ [])

add_web :
    add_units files web []
    ≡ returned none (("/etc/systemd/system/pod-web_pod.service", "[Unit]") ∷ [])
unfolding add_units new_systemd
add_web = refl

-- A file that holds either nothing or the text of `web_saved`
abbrev web_services : Map String (Systemd Unit)
web_services = ("web", web) ∷ []

abbrev web_saved : Map String Saved
web_saved = ("web", to_json web) ∷ []

saved-discrete : Discrete (Map String Saved)
saved-discrete = hlevel (ℕ_discrete, text-discrete)

abbrev encoded : {m : Map String Saved} → Dec (m ≡ web_saved) → Result String
encoded (yes e) = ok "web"
encoded (no n) = err "unsupported"

abbrev marshal : Map String Saved → Result String
marshal m = encoded (saved-discrete m web_saved)

abbrev unmarshal : String → Result (Map String Saved)
unmarshal json = ok web_saved

abbrev write_text : String → Option String → Option Err × Option String
write_text json w = (none, some json)

abbrev read_text : Option String → Result String
read_text none = err "no such file"
read_text (some json) = ok json

encoded_ok :
    {m : Map String Saved} {json : String} (d : Dec (m ≡ web_saved))
    → encoded d ≡ ok json
    → unmarshal json ≡ ok m
encoded_ok (yes e) h = ap ok (sym e)
encoded_ok (no n) h = cc

encoded_web : (d : Dec (web_saved ≡ web_saved)) → encoded d ≡ ok "web"
encoded_web (yes e) = refl
encoded_web (no n) = absurd (n refl)

web_written : (write_services marshal write_text web_services none).0 ≡ none
unfolding write_services write_json saved_services
web_written =
    ap (λ r. (write_json marshal write_text r none).0)
      (encoded_web (saved-discrete web_saved web_saved))

web_found : get web_services "web" ≡ some web
unfolding get
web_found = refl

new_systemd_manager-stop_example :
    (restored : Map String (Systemd Unit)) × (new_systemd_manager "services.json" unmarshal
        (read_text (write_services marshal write_text web_services none).1)
      ≡ ok restored)
    × (t : Systemd Unit) × (get_service restored "web" ≡ some t)
    × (stop files t [] ≡ panicked [])
new_systemd_manager-stop_example =
    new_systemd_manager-stop files marshal unmarshal write_text "services.json" read_text
      web_services "web" web none [] (λ saved json h. encoded_ok (saved-discrete saved web_saved) h)
      (λ json u h. refl) web_written web_found

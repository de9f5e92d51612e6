-- ===== src/Metrics/Daemon/Examples.antt =====
-- Tests of the daemon (internal/metrics/daemon.go), and its theorems at inputs.
use k4e_device_worker.Prelude.{
  ◌≡◌, refl, ℕ, true, none, [], ◌∷◌, String, text_key, number_key, pos, ok, ◌==◌, not,
}
use k4e_device_worker.Metrics.Allowed.{permissive}
use k4e_device_worker.Metrics.Daemon.{Env, new_metrics_daemon, add_target, delete_target}
use k4e_device_worker.Metrics.Daemon.Tracked.{
  IsTracked, new_metrics_daemon-IsTracked, Moves, none_yet, adds, deletes, Moves-IsTracked,
}
use k4e_device_worker.Metrics.Daemon.Lost.{IsLost, add_target-IsLost}
use k4e_device_worker.Metrics.Daemon.Collected.{has_bad}

abbrev web_url : String
web_url = "http://10.88.0.2:8080/metrics"

-- A target is added, and one of another name is deleted.
adds-Moves :
    Moves new_metrics_daemon
      (delete_target "db" (add_target "web" (web_url ∷ []) (pos 60) permissive new_metrics_daemon))
adds-Moves = deletes (adds none_yet "web" (web_url ∷ []) (pos 60) permissive) "db"

Moves-IsTracked_example :
    IsTracked
      (delete_target "db" (add_target "web" (web_url ∷ []) (pos 60) permissive new_metrics_daemon))
Moves-IsTracked_example =
    Moves-IsTracked new_metrics_daemon
      (delete_target "db" (add_target "web" (web_url ∷ []) (pos 60) permissive new_metrics_daemon))
      adds-Moves new_metrics_daemon-IsTracked

add_target-IsLost_example :
    IsLost
      (delete_target "web" (add_target "web" (web_url ∷ []) (pos 60) permissive new_metrics_daemon))
      "web"
      0
      0
add_target-IsLost_example =
    add_target-IsLost "web" (web_url ∷ []) (pos 60) permissive new_metrics_daemon
      new_metrics_daemon-IsTracked

-- Requests that bring nothing; the address without a slash after the port is not one.
abbrev network : Env ℕ ℕ
network = record {
  make_scraper = λ url. not (url == "http://10.88.0.2:8080metrics");
  scrape = λ url w. (ok [], w);
  add_vector = λ samples labels w. (none, w);
}

is_bad : has_bad network ("http://10.88.0.2:8080metrics" ∷ []) ≡ true
is_bad = refl

-- ===== src/Heartbeat/Examples.antt =====
-- Tests of the heartbeat (internal/heartbeat), and its theorems at inputs.
use k4e_device_worker.Prelude.{
  ◌≡◌, refl, true, false, none, some, [], ◌∷◌, String, ok, err, pos, suc, ◌*◌, ◌≤◌, arith,
}
use k4e_device_worker.Workload.Manager.{Event}
use k4e_device_worker.Heartbeat.{Env, Queues, push_information, push_marshalled, send, answered}
use k4e_device_worker.Heartbeat.Ticker.{
  Ticking, new_heartbeat_service, init_ticker, stop_ticker, period_duration, update_heartbeat,
  update_heartbeat-wraps,
}
use k4e_device_worker.Heartbeat.{get_interval}

-- A device whose dispatcher cannot be reached.
abbrev offline : Env (Unit {0}) String String
offline = record {
  list_workloads = λ w. (ok [], w);
  sync_times = λ w. [];
  version = λ w. "1";
  include_hardware = λ w. false;
  hardware_information = λ w. ok "";
  upgrade_status = λ w. "";
  marshal = λ info. ok "{}";
  dispatch = λ content w. (err "connection refused", w);
  register_device = λ w. w;
}

abbrev failed : Event
failed = record { message = "no such image"; reason = "Failed"; is_warning = true }

abbrev queues : Queues
queues = record { workload_events = failed ∷ []; ansible_events = [] }

not_sent : (push_information offline true queues tt).0 ≡ some "connection refused"
unfolding push_information push_marshalled send answered
not_sent = refl

unset_period :
    (update_heartbeat none new_heartbeat_service)
    ≡ some (record { ticker = some (pos 60000000000); ticks = true; goroutines = 1 })
unfolding update_heartbeat init_ticker stop_ticker period_duration get_interval
    new_heartbeat_service
unset_period = refl

update_heartbeat-wraps_example :
    (9223372036 ≤ 9223372036
      → update_heartbeat (some (pos 9223372036)) new_heartbeat_service
        ≡ some (record {
          ticker = some (pos (9223372036 * 1000000000));
          ticks = true;
          goroutines = suc new_heartbeat_service.goroutines;
        }))
    × (9223372037 ≤ 9223372036
        → 9223372036 ≤ 18446744073
        → update_heartbeat (some (pos 9223372036)) new_heartbeat_service ≡ none)
update_heartbeat-wraps_example =
    update_heartbeat-wraps 9223372036 new_heartbeat_service (omega arith)

abbrev updated_thrice : Ticking
updated_thrice = record { ticker = some (pos 60000000000); ticks = true; goroutines = 3 }

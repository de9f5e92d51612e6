-- ===== src/Reboot/Examples.antt =====
-- Tests of the graceful reboot (cmd/device-worker/main.go), and its theorems at inputs.
use k4e_device_worker.Prelude.{◌≡◌, ◌≢◌, refl, ℕ, suc, true, false, none, some, pos}
use k4e_device_worker.Metrics.Database
use k4e_device_worker.Metrics.Database.{
  Tsdb, deregister_tsdb, close_tsdb, directory_removed, default_retention_duration,
  default_max_bytes,
}
use k4e_device_worker.Metrics.System
use k4e_device_worker.Metrics.Daemon.{new_metrics_daemon}
use k4e_device_worker.Heartbeat.Ticker.{deregister_heartbeat, stop_ticker}
use k4e_device_worker.Reboot.{
  Device, workloads_stopped, store_stopped, stop_device, outside, signalling, listening, stopping,
  completing, Turn, begins, signals, stops, Reboots, reboot_step, Turns, done, then_step,
}
use k4e_device_worker.Reboot.Emptied.{IsEmptied, stop_device-IsEmptied}
use k4e_device_worker.Reboot.Stuck.{Turns_timed_out}

-- The world counts the files of the metrics.
abbrev files : Database.Env ℕ ℕ
files = record {
  close_db = λ w. (none, w);
  open_db = λ o w. (none, w);
  append_metric = λ value labels w. (none, suc w);
  remove_all = λ w. (none, 0);
}

abbrev exporter : System.Env ℕ
exporter = record {
  stop_exporter = λ w. (none, w);
  disable_exporter = λ w. (none, w);
  enable_exporter = λ w. (none, w);
  start_exporter = λ w. (none, w);
}

abbrev store : Tsdb
store = record {
  applied_options = record {
    retention_duration = default_retention_duration;
    max_bytes = default_max_bytes;
  };
  is_open = true;
}

abbrev device : Device
device = record {
  system = record { latest_config = none; daemon = new_metrics_daemon };
  metrics_store = store;
  heartbeat = record { ticker = some (pos 60000000000); ticks = true; goroutines = 1 };
}

abbrev stopped : Device
stopped = record {
  system = System.deregister_system exporter device.system;
  metrics_store = record store { is_open = false };
  heartbeat = record { ticker = some (pos 60000000000); ticks = false; goroutines = 1 };
}

stops_here : stop_device files exporter (λ w. (none, w)) (λ w. w) device 12 ≡ some (stopped, 0)
unfolding stop_device workloads_stopped store_stopped deregister_tsdb close_tsdb directory_removed
    deregister_heartbeat stop_ticker
stops_here = refl

stop_device-IsEmptied_example : IsEmptied files exporter (λ w. (none, w)) (λ w. w) stopped 0
stop_device-IsEmptied_example =
    stop_device-IsEmptied files exporter (λ w. (none, w)) (λ w. w) device stopped 12 0 stops_here

stopping_busy : stopping ≢ listening
stopping_busy h = cc

abbrev late : Reboots
late = record { flow = outside; listener = stopping }

abbrev stuck : Reboots
stuck = record { flow = signalling; listener = completing }

next_reboot : Turns 2 late stuck
unfolding reboot_step
next_reboot = then_step (then_step done begins refl) stops refl

Turns_timed_out_example :
    (reboot_step signals signalling completing ≡ none)
    × ((t : Turn)
        → signalling ≡ signalling
        → completing ≡ completing
        → reboot_step t signalling completing ≡ none)
Turns_timed_out_example =
    Turns_timed_out 2 stopping late stuck stopping_busy (unfold reboot_step in refl) next_reboot

-- ===== src/Reboot.antt =====
-- The graceful reboot for an upgrade: the listener of cmd/device-worker/main.go
-- (`listenStartGracefulRebootChannel`) and `gracefulRebootFlow` of internal/os/os.go, two
-- goroutines that signal to each other.
pub mod Emptied
pub mod Stuck
mod Examples
use k4e_device_worker.Prelude.{ℕ, zero, suc, ◌≡◌, Option, none, some, Err}
use k4e_device_worker.Metrics.Database.{Tsdb, deregister_tsdb}
use k4e_device_worker.Metrics.Database
use k4e_device_worker.Metrics.System
use k4e_device_worker.Metrics.System.{SystemMetrics, deregister_system}
use k4e_device_worker.Heartbeat.Ticker.{Ticking, deregister_heartbeat}

-- The parts that are stopped
pub record Device : Type 0 where
  pub system : SystemMetrics
  pub metrics_store : Tsdb
  pub heartbeat : Ticking

module _ {W F : Type 0} (db : Database.Env W F) (exporter : System.Env W)
    (stop_workloads : W → Option Err × W) (wait_playbook_completion : W → W) where
  unfoldable pub store_stopped :
      SystemMetrics → Ticking → Option Err × Tsdb × W → Option (Device × W)
  store_stopped system heartbeat (some e, t, w) = none
  store_stopped system heartbeat (none, t, w) = some (
    record { system = system; metrics_store = t; heartbeat = deregister_heartbeat heartbeat },
    wait_playbook_completion w,
  )

  unfoldable pub workloads_stopped : Device → Option Err × W → Option (Device × W)
  unfolding store_stopped
  workloads_stopped d (some e, w) = none
  workloads_stopped d (none, w) =
      store_stopped (deregister_system exporter d.system) d.heartbeat
        (deregister_tsdb db d.metrics_store w)

  -- What is done on a signal, with a manager of playbooks; `none` is log.Fatal, the end of the
  -- process. The other `Deregister` only stop a ticker or give no error.
  unfoldable pub stop_device : Device → W → Option (Device × W)
  unfolding workloads_stopped
  stop_device d w = workloads_stopped d (stop_workloads w)

-- Where `gracefulRebootFlow` is: outside of it, waiting to send its signal, or waiting for the answer
-- or the time.
pub data Flow : Type 0 where
  outside : Flow
  signalling : Flow
  awaiting : Flow

-- Where the listener is: waiting for a signal, stopping the parts, waiting to send that it is done,
-- or ended with the process.
pub data Listener : Type 0 where
  listening : Listener
  stopping : Listener
  completing : Listener
  ended : Listener

pub record Reboots : Type 0 where
  pub flow : Flow
  pub listener : Listener

pub data Turn : Type 0 where
  begins : Turn  -- an upgrade comes to its reboot
  signals : Turn
  stops : Turn
  fails : Turn  -- log.Fatal
  completes : Turn
  times_out : Turn

-- A step of the two; `none` is a turn that there is not.
unfoldable pub reboot_step : Turn → Flow → Listener → Option Reboots
reboot_step begins outside listening = some (record { flow = signalling; listener = listening })
reboot_step begins outside stopping = some (record { flow = signalling; listener = stopping })
reboot_step begins outside completing = some (record { flow = signalling; listener = completing })
reboot_step begins outside ended = none
reboot_step begins signalling l = none
reboot_step begins awaiting l = none
reboot_step signals signalling listening = some (record { flow = awaiting; listener = stopping })
reboot_step signals signalling stopping = none
reboot_step signals signalling completing = none
reboot_step signals signalling ended = none
reboot_step signals outside l = none
reboot_step signals awaiting l = none
reboot_step stops f stopping = some (record { flow = f; listener = completing })
reboot_step stops f listening = none
reboot_step stops f completing = none
reboot_step stops f ended = none
reboot_step fails f stopping = some (record { flow = f; listener = ended })
reboot_step fails f listening = none
reboot_step fails f completing = none
reboot_step fails f ended = none
reboot_step completes awaiting completing = some (record { flow = outside; listener = listening })
reboot_step completes awaiting listening = none
reboot_step completes awaiting stopping = none
reboot_step completes awaiting ended = none
reboot_step completes outside l = none
reboot_step completes signalling l = none
reboot_step times_out awaiting listening = some (record { flow = outside; listener = listening })
reboot_step times_out awaiting stopping = some (record { flow = outside; listener = stopping })
reboot_step times_out awaiting completing = some (record { flow = outside; listener = completing })
reboot_step times_out awaiting ended = none
reboot_step times_out outside l = none
reboot_step times_out signalling l = none

-- As many steps from one state to another
pub data Turns : ℕ → Reboots → Reboots → Type 0 where
  done : {s : Reboots} → Turns zero s s
  then_step :
      {n : ℕ} {s u v : Reboots}
      → Turns n s u
      → (c : Turn) → reboot_step c u.flow u.listener ≡ some v
      → Turns (suc n) s v

-- ===== src/Reboot/Emptied.antt =====
-- What is left of the metrics after a graceful reboot.
use mathlib.Core.Path.{subst}
use k4e_device_worker.Prelude.{◌≡◌, refl, ap, false, Option, none, some, Err, text_key}
use k4e_device_worker.Metrics.Database.{Tsdb, deregister_tsdb, directory_removed, close_tsdb, shut}
use k4e_device_worker.Metrics.Database
use k4e_device_worker.Metrics.System
use k4e_device_worker.Metrics.System.{SystemMetrics, deregister_system}
use k4e_device_worker.Heartbeat.Ticker.{Ticking, deregister_heartbeat, stop_ticker}
use k4e_device_worker.Reboot.{Device, store_stopped, workloads_stopped, stop_device}

module _ {W F : Type 0} (db : Database.Env W F) (exporter : System.Env W)
    (stop_workloads : W → Option Err × W) (wait : W → W) where
  -- The directory was removed without an error in some world, and the playbooks have ended since.
  abbrev pub IsEmptied : Device → W → Type 0
  IsEmptied d w =
      (v : W) × ((db.remove_all v).0 ≡ none)
      × (w ≡ wait (db.remove_all v).1)
      × (d.metrics_store.is_open ≡ false)
      × (d.heartbeat.ticks ≡ false)

  abbrev IsRemoved : Option Err × Tsdb × W → Type 0
  IsRemoved (e, t, w) =
      e ≡ none
      → (v : W) × ((db.remove_all v).0 ≡ none) × (w ≡ (db.remove_all v).1) × (t.is_open ≡ false)

  directory_removed-IsRemoved :
      (x : Option Err × Tsdb × W)
      → (x.0 ≡ none → x.1.is_open ≡ false)
      → IsRemoved (directory_removed db x)
  unfolding directory_removed
  directory_removed-IsRemoved (some e, t, w) closed h = cc
  directory_removed-IsRemoved (none, t, w) closed h = (w, h, refl, closed refl)

  closed_open : (e : Option Err) (t : Tsdb) → e ≡ none → (shut e t).is_open ≡ false
  closed_open none t h = refl
  closed_open (some c) t h = cc

  deregister_tsdb-IsRemoved : (t : Tsdb) (w : W) → IsRemoved (deregister_tsdb db t w)
  unfolding deregister_tsdb close_tsdb
  deregister_tsdb-IsRemoved t w =
      directory_removed-IsRemoved (close_tsdb db t w) (closed_open (db.close_db w).0 t)

  abbrev EmptiedOr : Option (Device × W) → Type 0
  EmptiedOr none = Unit {0}
  EmptiedOr (some (d, w)) = IsEmptied d w

  store_stopped-EmptiedOr :
      (system : SystemMetrics) (h : Ticking) (x : Option Err × Tsdb × W)
      → IsRemoved x
      → EmptiedOr (store_stopped db exporter stop_workloads wait system h x)
  unfolding store_stopped deregister_heartbeat stop_ticker
  store_stopped-EmptiedOr system h (some e, t, w) removed = tt
  store_stopped-EmptiedOr system h (none, t, w) removed =
      let (v, good, same, shut) = removed refl in (v, good, ap wait same, shut, refl)

  workloads_stopped-EmptiedOr :
      (d : Device) (x : Option Err × W)
      → EmptiedOr (workloads_stopped db exporter stop_workloads wait d x)
  unfolding workloads_stopped
  workloads_stopped-EmptiedOr d (some e, w) = tt
  workloads_stopped-EmptiedOr d (none, w) =
      store_stopped-EmptiedOr (deregister_system exporter d.system) d.heartbeat
        (deregister_tsdb db d.metrics_store w) (deregister_tsdb-IsRemoved d.metrics_store w)

  -- A graceful reboot that comes to its end has deleted the directory of the metrics, which holds
  -- those that were not sent yet too. The database is closed, and the heartbeat stopped.
  pub stop_device-IsEmptied :
      (d u : Device) (w v : W)
      → stop_device db exporter stop_workloads wait d w ≡ some (u, v)
      → IsEmptied u v
  unfolding stop_device
  stop_device-IsEmptied d u w v h =
      subst (λ o. EmptiedOr o) h (workloads_stopped-EmptiedOr d (stop_workloads w))

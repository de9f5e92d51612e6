-- ===== src/Heartbeat/Reports.antt =====
-- How often a heartbeat is sent, and what becomes of the events of one that is not.
use k4e_device_worker.Prelude.{
  ◌≡◌, refl, true, Option, none, some, [], ◌++◌, ℤ, pos, ltb_ℤ, Bool-cases, inl, inr,
}
use k4e_device_worker.Heartbeat.{Env, Queues, get_interval, retrieve_info, push_information}

-- The period in seconds is positive, whatever the configuration says.
pub get_interval-positive : (period : Option ℤ) → ltb_ℤ (pos 0) (get_interval period) ≡ true
unfolding get_interval
get_interval-positive none = refl
get_interval-positive (some p) = elim (Bool-cases (ltb_ℤ (pos 0) p)) [
  | inl positive ↦ rw (positive, positive)
  | inr other ↦ rw other
]

module _ {W H U : Type 0} (env : Env W H U) where
  -- A heartbeat holds the events that both managers had queued, those of the workloads first, and
  -- the queues are empty after it, even where it could not be sent: the next one has none of them.
  pub push_information_drops :
      (q : Queues) (w : W)
      → ((retrieve_info env true q w).0.events ≡ q.workload_events ++ q.ansible_events)
        × ((push_information env true q w).1 ≡ record { workload_events = []; ansible_events = [] })
        × ((retrieve_info env true
              (push_information env true q w).1
              (push_information env true q w).2).0.events
            ≡ [])
  unfolding push_information retrieve_info
  push_information_drops q w = (refl, refl, refl)

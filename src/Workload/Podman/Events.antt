-- ===== src/Workload/Podman/Events.antt =====
-- The events of podman (`Events` of internal/workload/podman/podman.go), and the goroutine of
-- internal/workload/wrapper.go that passes them on to the observers.
pub mod Observed
use k4e_device_worker.Prelude.{
  Bool, true, false, Option, none, some, List, [], ◌∷◌, ◌++◌, String, Map, get, if◌then◌else◌, ◌==◌,
  ◌||◌, text_key, Result, ok, err, Err, Exec,
}
use k4e_device_worker.Workload.Wrapper.{WorkloadInfo}
use k4e_device_worker.Workload.Podman.{
  Bindings, PodReport, PodmanEvent, Message, list, get_pod_report_for_id, stopped_container,
  started_container, podman_start, podman_remove, podman_stop,
}

-- A value of Go's map, "" where the key is missing
abbrev text_or_empty : Option String → String
text_or_empty none = ""
text_or_empty (some t) = t

module _ {W : Type 0} (bindings : Bindings W) where
  abbrev pub started_event : String → PodReport → PodmanEvent
  started_event name report = record {
    event = started_container;
    workload_name = name;
    report = some report;
  }

  -- "Cannot get pod report" and "cannot get current pod information" are only logged
  unfoldable pub started_events : String → Result PodReport → List PodmanEvent
  started_events name (err e) = []
  started_events name (ok report) = started_event name report ∷ []

  -- the loop over the pods that run when the worker starts
  unfoldable pub initial_events : List WorkloadInfo → W → List PodmanEvent × W
  unfolding started_events
  initial_events [] w = ([], w)
  initial_events (wrk ∷ rest) w =
      let (report, w1) = get_pod_report_for_id bindings wrk.id w in
      let (more, w2) = initial_events rest w1 in (started_events wrk.name report ++ more, w2)

  listed_events : Result (List WorkloadInfo) × W → List PodmanEvent × W
  unfolding initial_events
  listed_events (err e, w) = ([], w)
  listed_events (ok workloads, w) = initial_events workloads w

  unfoldable pub first_events : W → List PodmanEvent × W
  unfolding listed_events
  first_events w = listed_events (list bindings w)

  -- the body of the goroutine that reads podman's events
  unfoldable pub translate : Message → W → List PodmanEvent × W
  unfolding started_events
  translate msg w =
      let name = text_or_empty (get msg.attributes "name") in
      let (report, w1) = get_pod_report_for_id bindings msg.id w in
      if msg.action == podman_start
      then (started_events name report, w1)
      else if (msg.action == podman_remove) || (msg.action == podman_stop)
      then (record { event = stopped_container; workload_name = name; report = none } ∷ [], w)
      else ([], w)

  -- what the goroutine sends for the events that it reads, in their order
  unfoldable pub translate_all : List Message → W → List PodmanEvent × W
  unfolding translate
  translate_all [] w = ([], w)
  translate_all (msg ∷ rest) w =
      let (events, w1) = translate msg w in
      let (more, w2) = translate_all rest w1 in (events ++ more, w2)

-- `Observer`; its calls change the world that the observers live in.
pub record Observer (V : Type 0) : Type 0 where
  pub workload_started : String → List (Option PodReport) → V → V
  pub workload_removed : String → V → V

abbrev pub register_observer : {V : Type 0} → List (Observer V) → Observer V → List (Observer V)
register_observer observers observer = observers ++ observer ∷ []

module _ {V : Type 0} where
  -- the call of one observer for an event
  unfoldable pub observe : PodmanEvent → Observer V → V → V
  observe msg o v =
      if msg.event == started_container
      then o.workload_started msg.workload_name (msg.report ∷ []) v
      else if msg.event == stopped_container
      then o.workload_removed msg.workload_name v
      else v

  -- the loops over the observers
  unfoldable pub dispatch : PodmanEvent → List (Observer V) → V → V
  unfolding observe
  dispatch msg [] v = v
  dispatch msg (o ∷ rest) v = dispatch msg rest (observe msg o v)

  -- the goroutine of `newWorkloadInstance`, for the events that come in and the observers of then
  unfoldable pub dispatch_all : List PodmanEvent → List (Observer V) → V → V
  unfolding dispatch
  dispatch_all [] observers v = v
  dispatch_all (msg ∷ rest) observers v = dispatch_all rest observers (dispatch msg observers v)

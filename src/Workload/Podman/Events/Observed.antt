-- ===== src/Workload/Podman/Events/Observed.antt =====
-- What an observer sees of the events of podman.
use k4e_device_worker.Prelude.{
  ◌≡◌, refl, ap, ◌∙◌, Option, List, [], ◌∷◌, ◌++◌, String, All, text_key, arith, ◌==◌,
  if◌then◌else◌, Bool-cases, inl, inr,
}
use k4e_device_worker.Workload.Podman.{PodReport, PodmanEvent, started_container, stopped_container}
use k4e_device_worker.Workload.Podman.Events.{Observer, observe, dispatch, dispatch_all}

-- A call of an observer
pub data Call : Type 0 where
  call_started : String → List (Option PodReport) → Call
  call_removed : String → Call

-- What an observer is to be told of the events: of a pod that runs with its report, of one that was
-- stopped without, and of nothing else.
abbrev pub calls_for : List PodmanEvent → List Call
calls_for [] = []
calls_for (msg ∷ rest) =
    if msg.event == started_container
    then call_started msg.workload_name (msg.report ∷ []) ∷ calls_for rest
    else if msg.event == stopped_container
    then call_removed msg.workload_name ∷ calls_for rest
    else calls_for rest

abbrev pub called : {S : Type 0} → Observer S → Call → S → S
called own (call_started name reports) s = own.workload_started name reports s
called own (call_removed name) s = own.workload_removed name s

abbrev pub called_all : {S : Type 0} → Observer S → List Call → S → S
called_all own [] s = s
called_all own (c ∷ rest) s = called_all own rest (called own c s)

called_first :
    {S : Type 0} (own : Observer S) (msg : PodmanEvent) (rest : List PodmanEvent) (s : S)
    → called_all own (calls_for rest) (observe msg own s)
      ≡ called_all own (calls_for (msg ∷ rest)) s
unfolding observe
called_first own msg rest s = elim (Bool-cases (msg.event == started_container)) [
  | inl started ↦ rw started
  | inr other ↦ elim (Bool-cases (msg.event == stopped_container)) [
    | inl stopped ↦ rw (other, stopped)
    | inr neither ↦ rw (other, neither)
  ]
]

-- The calls that an observer gets for the events, as one function on its own state.
module _ {V S : Type 0} (mine : V → S) (me : Observer V) (own : Observer S) where
  -- The observer `me` changes its state as `own` says.
  abbrev pub ActsAs : Type 0
  ActsAs =
      ((name : String) (reports : List (Option PodReport)) (v : V)
        → mine (me.workload_started name reports v) ≡ own.workload_started name reports (mine v))
      × ((name : String) (v : V)
          → mine (me.workload_removed name v) ≡ own.workload_removed name (mine v))

  observe-mine :
      ActsAs → (msg : PodmanEvent) (v : V) → mine (observe msg me v) ≡ observe msg own (mine v)
  unfolding observe
  observe-mine (starts, removes) msg v =
      ground (arith, starts msg.workload_name (msg.report ∷ []) v, removes msg.workload_name v)

-- The state of one observer does not change by a call of another one.
abbrev pub LeavesAlone : {V S : Type 0} → (V → S) → Observer V → Type 0
LeavesAlone {V} mine o =
    ((name : String) (reports : List (Option PodReport)) (v : V)
      → mine (o.workload_started name reports v) ≡ mine v)
    × ((name : String) (v : V) → mine (o.workload_removed name v) ≡ mine v)

module _ {V S : Type 0} (mine : V → S) where
  observe_other :
      (o : Observer V)
      → LeavesAlone mine o
      → (msg : PodmanEvent) (v : V) → mine (observe msg o v) ≡ mine v
  unfolding observe
  observe_other o (starts, removes) msg v =
      ground (arith, starts msg.workload_name (msg.report ∷ []) v, removes msg.workload_name v)

  dispatch_others :
      (os : List (Observer V))
      → All (LeavesAlone mine) os
      → (msg : PodmanEvent) (v : V) → mine (dispatch msg os v) ≡ mine v
  unfolding dispatch
  dispatch_others [] alone msg v = refl
  dispatch_others (o ∷ rest) (first, others) msg v =
      dispatch_others rest others msg (observe msg o v) ∙ observe_other o first msg v

  dispatch-append :
      (before after : List (Observer V)) (msg : PodmanEvent) (v : V)
      → dispatch msg (before ++ after) v ≡ dispatch msg after (dispatch msg before v)
  unfolding dispatch
  dispatch-append [] after msg v = refl
  dispatch-append (o ∷ rest) after msg v = dispatch-append rest after msg (observe msg o v)

  module _ (before after : List (Observer V)) (me : Observer V) (own : Observer S) where
    dispatch-mine :
        ActsAs mine me own
        → All (LeavesAlone mine) before
        → All (LeavesAlone mine) after
        → (msg : PodmanEvent) (v : V)
        → mine (dispatch msg (before ++ me ∷ after) v) ≡ observe msg own (mine v)
    unfolding dispatch
    dispatch-mine acts earlier later msg v =
        let w = dispatch msg before v in
        ap mine (dispatch-append before (me ∷ after) msg v)
        ∙ (dispatch_others after later msg (observe msg me w)
            ∙ (observe-mine mine me own acts msg w
                ∙ ap (observe msg own) (dispatch_others before earlier msg v)))

    -- An observer that is registered once, whose state the other observers leave alone, gets one
    -- call for each event of a pod that was started or stopped, in the order of the events: of a
    -- start with the report of the pod, of a stop as a removal; and none for other events.
    pub dispatch_all-mine :
        ActsAs mine me own
        → All (LeavesAlone mine) before
        → All (LeavesAlone mine) after
        → (events : List PodmanEvent) (v : V)
        → mine (dispatch_all events (before ++ me ∷ after) v)
          ≡ called_all own (calls_for events) (mine v)
    unfolding dispatch_all dispatch
    dispatch_all-mine acts earlier later [] v = refl
    dispatch_all-mine acts earlier later (msg ∷ rest) v =
        dispatch_all-mine acts earlier later rest (dispatch msg (before ++ me ∷ after) v)
        ∙ (ap (called_all own (calls_for rest)) (dispatch-mine acts earlier later msg v)
            ∙ called_first own msg rest (mine v))

-- ===== src/Logs/Targets.antt =====
-- `WorkloadsLogsTarget` of internal/logs/workload.go with the writers of
-- internal/logs/workload_writer.go: which workload writes to the buffer of which transport.
-- Connections and the workload manager's `Logs` are parameters.
pub mod Follow
pub mod Stale
use k4e_device_worker.Prelude.{
  ℕ, ◌+◌, Bool, true, false, Option, none, some, List, [], ◌∷◌, String, Map, keys, get, remove, put,
  has, if◌then◌else◌, ◌==◌, text_key, ℤ, Result, ok, err, Err,
}
use k4e_device_worker.Logs.Fifo.{buffer_bytes}
use k4e_device_worker.Logs.Transport.{protocol_or_default}

-- `transportLog`: its connection and the identity of its `FIFOLog`
pub record TransportLog (T : Type 0) : Type 0 where
  pub transport : T
  pub log : ℕ
  pub maxlen : ℤ

-- `WorkloadWriter`: `target` is the identity of the `FIFOLog` that it writes to.
pub record Writer (C : Type 0) : Type 0 where
  pub target_name : String
  pub target : ℕ
  pub cancel : Option C

-- models.LogsCollectionInformation, with the address and protocol of its syslog configuration
pub record LogCollection : Type 0 where
  pub kind : String
  pub buffer_size : ℕ
  pub address : String
  pub protocol : String

-- The part of models.DeviceConfigurationMessage that is read here: the log collections, and of
-- each workload its name and its log collection.
pub record Config : Type 0 where
  pub device_id : String
  pub log_collection : Map String LogCollection
  pub workloads : List (String × String)

-- `next_log` makes the identities of new buffers, `started` lists the buffers whose goroutine was
-- started. Nothing in the program stops one.
pub record Targets (T C : Type 0) : Type 0 where
  pub device_id : String
  pub transports : Map String (TransportLog T)
  pub wwriter : Map String (Writer C)
  pub workloads_config : Map String String
  pub next_log : ℕ
  pub started : List ℕ

pub record Env (W T C : Type 0) : Type 0 where
  pub new_syslog_server : String → String → String → W → Result T × W
  pub logs : String → W → Option C × W  -- the cancel function, nil on some errors
  pub cancel : C → W → W
  pub list_workloads : W → Result (List String) × W

module _ {W T C : Type 0} (env : Env W T C) where
  stop_writer : Option C → W → W
  stop_writer none w = w
  stop_writer (some c) w = env.cancel c w

  stop_found : Option (Writer C) → W → W
  unfolding stop_writer
  stop_found none w = w
  stop_found (some writer) w = stop_writer writer.cancel w

  unfoldable pub delete_workload : String → Targets T C → W → Targets T C × W
  unfolding stop_found
  delete_workload name t w =
      (record t { wwriter = remove t.wwriter name }, stop_found (get t.wwriter name) w)

  -- the loop of `deleteTargetTransport` over the writers, which deletes while it ranges
  unfoldable pub delete_writers :
      String → Map String (Writer C) → Map String (Writer C) → W → Map String (Writer C) × W
  unfolding stop_writer
  delete_writers name [] left w = (left, w)
  delete_writers name ((key, writer) ∷ rest) left w =
      let hit = writer.target_name == name in
      delete_writers name rest (if hit then remove left key else left)
        (if hit then stop_writer writer.cancel w else w)

  unfoldable pub delete_target_transport : String → Targets T C → W → Targets T C × W
  unfolding delete_writers
  delete_target_transport name t w =
      let (left, w') = delete_writers name t.wwriter t.wwriter w in
      (record t { transports = remove t.transports name; wwriter = left }, w')

  -- The new transports of `Update`, with the object whose buffers they start.
  abbrev Started : Type 0
  Started = Map String (TransportLog T) × Targets T C × W

  add_transport :
      String → LogCollection → Map String (TransportLog T) → Targets T C → Result T × W → Started
  add_transport key info transports t (err e, w) = (transports, t, w)
  add_transport key info transports t (ok server, w) = (
    put transports key
        (record { transport = server; log = t.next_log; maxlen = buffer_bytes info.buffer_size }),
    record t { next_log = t.next_log + 1; started = t.next_log ∷ t.started },
    w,
  )

  unfoldable pub start_transports :
      Map String LogCollection → Map String (TransportLog T) → Targets T C → W → Started
  unfolding add_transport protocol_or_default
  start_transports [] transports t w = (transports, t, w)
  start_transports ((key, info) ∷ rest) transports t w =
      let (transports', t', w') =
        if info.kind == "syslog"
        then add_transport key info transports t
            (env.new_syslog_server info.address (protocol_or_default info.protocol) t.device_id w)
        else (transports, t, w) in
      start_transports rest transports' t' w'

  -- "Delete leftovers": the transports that were there and are not any more
  unfoldable pub delete_leftovers :
      List String → Map String (TransportLog T) → Targets T C → W → Targets T C × W
  unfolding delete_target_transport
  delete_leftovers [] transports t w = (t, w)
  delete_leftovers (key ∷ rest) transports t w =
      let (t', w') = if has transports key then (t, w) else delete_target_transport key t w in
      delete_leftovers rest transports t' w'

  unfoldable pub index_workloads : List (String × String) → Map String String → Map String String
  index_workloads [] m = m
  index_workloads ((name, collection) ∷ rest) m =
      index_workloads rest (if collection == "" then m else put m name collection)

  unfoldable pub update : Config → Targets T C → W → Targets T C × W
  unfolding start_transports delete_leftovers index_workloads
  update config t w =
      let (transports, t', w') = start_transports config.log_collection [] t w in
      let (t'', w'') = delete_leftovers (keys t.transports) transports t' w' in
      (
        record t'' {
          transports = transports;
          workloads_config = index_workloads config.workloads [];
        },
        w'',
      )

  start_writer : String → String → Option (TransportLog T) → Targets T C → W → Targets T C × W
  start_writer workload target none t w = (t, w)
  start_writer workload target (some transport) t w =
      let (c, w') = env.logs workload w in
      (
        record t {
          wwriter =
              put t.wwriter workload
                (record { target_name = target; target = transport.log; cancel = c });
        },
        w',
      )

  start_for : String → Option String → Targets T C → W → Targets T C × W
  unfolding start_writer
  start_for workload none t w = (t, w)
  start_for workload (some target) t w = start_writer workload target (get t.transports target) t w

  unfoldable pub workload_started : String → Targets T C → W → Targets T C × W
  unfolding delete_workload start_for
  workload_started name t w =
      let (t', w') = delete_workload name t w in start_for name (get t'.workloads_config name) t' w'

  unfoldable pub start_all : List String → Targets T C → W → Targets T C × W
  unfolding workload_started
  start_all [] t w = (t, w)
  start_all (name ∷ rest) t w = let (t', w') = workload_started name t w in start_all rest t' w'

  start_listed : Targets T C → Result (List String) × W → Option Err × Targets T C × W
  unfolding start_all
  start_listed t (err e, w) = (some e, t, w)
  start_listed t (ok names, w) = let (t', w') = start_all names t w in (none, t', w')

  unfoldable pub init : Config → Targets T C → W → Option Err × Targets T C × W
  unfolding update start_listed
  init config t w =
      let (t', w') = update config (record t { device_id = config.device_id }) w in
      start_listed t' (env.list_workloads w')

-- ===== src/Lib.antt =====
-- The flotta device worker: a daemon on an edge device that takes the configuration which the
-- flotta operator sends, runs the workloads that it lists as pods of podman, and reports and ships
-- metrics, logs and data.
--
-- Parts and how they interact. A message of the operator reaches the device server
-- (internal/server), which passes it on to `Manager.Update` of internal/configuration. That tells
-- its observers one after the other, writes the message to a file and keeps it. The observers are
-- the workload manager (internal/workload/manager.go), the targets of the logs (internal/logs), the
-- remote write of the metrics (internal/metrics/remote_write.go), the upgrades of the operating
-- system (internal/os), the data transfer (internal/datatransfer) and the heartbeat. The workload
-- manager turns each workload into a pod and runs it by way of the wrapper
-- (internal/workload/wrapper.go), which opens ports with nft, asks podman to play the pod, keeps
-- the pod's identifier in the mapping repository and registers a systemd service for the pod. The
-- events of podman reach the observers of the workloads, which are the logs, the data transfer and
-- the metrics, by way of the wrapper's goroutine. A message with a playbook goes to the manager of
-- the playbooks (internal/ansible), and the registration (internal/registration) renews the
-- certificate with which the device talks to the operator.
--
-- Which file models what. Paths are from the repository's root; a definition has the name of the Go
-- function that it models, in lower case with underscores.
--   Configuration (Update, Secrets, Unordered): internal/configuration/configuration.go
--   Workload/Mapping: internal/workload/mapping/mapping.go
--   Workload/Netfilter: internal/workload/network/netfilter.go
--   Workload/Wrapper (Ports, Network, Lifecycle): internal/workload/wrapper.go
--   Workload/Podman (Kept), Workload/Podman/Lines (Joined): internal/workload/podman/podman.go, with
--     the copying of the containers' lines in Lines
--   Workload/Podman/Events (Observed): its `Events`, and the goroutine of `newWorkloadInstance` in
--     internal/workload/wrapper.go
--   Workload/Secrets, Workload/Pods, Workload/Manager, Workload/Reconcile:
--     internal/workload/manager.go, with internal/volumes/volumes.go in Pods. `deploy` is the body
--     of the first loop of `Update`, `remove_stale` its second loop, `update` the whole.
--   Service (Restart), Service/Registry (Restarted): internal/service/systemd.go
--   Logs/Fifo, Logs/Transport, Logs/Targets: internal/logs/log_container.go, the goroutine of
--     `transportLog.Start` with internal/logs/syslog_transport.go, and internal/logs/workload.go
--     with internal/logs/workload_writer.go
--   Logs/Writing (Entries): the rest of internal/logs/workload_writer.go; its theorem leads from the
--     lines of a container to the queue
--   Metrics/Series, Metrics/RemoteWrite: the data of internal/metrics/metrics.go, and
--     internal/metrics/remote_write.go: `Range` is `writeRange`, `Request` is `writeRequest`,
--     `Writer` is `Write`, `Settings` (Made, Routine) is `Update` with `applyConfig` and the
--     routine's state.
--   Metrics/Database (Times, Retention, Reading): the storage of internal/metrics/metrics.go
--   Metrics/Scraper (Whole): internal/metrics/scraper.go
--   Metrics/Allowed, Metrics/Daemon (Entries, Tracked, Lost, Collected):
--     internal/metrics/allow-list.go and daemon.go. A goroutine that was started waits until it
--     begins; `begin_target` is `TargetMetric.Start` up to its loop, `get_data` a round of the loop.
--   Metrics/Workloads (Started), Metrics/System (Settled): internal/metrics/workload.go and
--     system.go
--   DataTransfer (Stamps), DataTransfer/Storage (Kept): internal/datatransfer/monitor.go, and its
--     storage with internal/datatransfer/s3/sync.go
--   Heartbeat (Reports, Ticker): internal/heartbeat/heartbeat.go
--   Os (Upgrade, Status): internal/os/os.go
--   Os/Commands (Remote, Scripts): internal/os/os_exec_commands.go
--   Registration (Registered), Registration/Certificates (Pair), Registration/Composed:
--     internal/registration/registration.go and certs.go, and the two together
--   Server (Playbook): internal/server/deviceserver.go
--   Ansible/Mapping (Sorted, Pending): internal/ansible/mapping/mapping.go; a name that other parts
--     have as well has `playbook` in it
--   Ansible/Records, Ansible/Kinds, Ansible/Events (Counted), Ansible/Messages (Lines):
--     internal/ansible/dispatcher/dispatcher_events.go
--   Ansible/Manager (Resumed): internal/ansible/ansible_manager.go
--   Ansible/Handover (Bounded, Finished, Stuck): its `HandlePlaybook` from the `select` on, and
--     `execPlaybook`: two goroutines as a step relation
--   Reboot (Emptied, Stuck): `listenStartGracefulRebootChannel` of cmd/device-worker/main.go and
--     `gracefulRebootFlow` of internal/os/os.go, two goroutines as a step relation
--   Agent (Told, Ended, Clean, Kept, Applied, Updated): the registration of the parts in
--     cmd/device-worker/main.go, and what a message does to all of them by way of the configuration
--     manager and the server
--   Prelude: names that all share, maps, lists, the lines of a text, and results with the state
--     beside them
-- The modules below a part prove what they are named for; each part's Examples module runs its
-- definitions and applies its theorems to concrete inputs.
--
-- How the code is read. A method that changes a struct is a function from the struct to the new
-- one; what lies outside it is a type `W` of worlds that is passed on. An error is its text, and it
-- does not undo what was done before it: the state comes back beside it (`Exec`). A multierror is
-- the list of its texts. Podman, systemd, nft, the file system, the encodings (JSON, yaml,
-- protobuf, snappy) and the network are parameters; a theorem that relies on what they document has
-- that as a hypothesis, and an example shows that it can hold. A Go map is an association list, and
-- the order of its entries stands for the order in which the runtime iterates. A panic is `none`
-- where a part of the agent can come to it, and the process is over. Locks are not
-- modelled: a method that holds one is one step. A goroutine is a counter of those that run, or the
-- steps that it makes; a send on a channel without a buffer is one step with its receive; times are
-- natural numbers of nanoseconds since Go's zero time, and the times of data points are
-- milliseconds. Sizes of int32 wrap around where the code multiplies them. Floats are a parameter,
-- since no code modelled here computes with them.
--
-- A message of the operator is shared with the observers, and `toPod` of internal/workload/manager.go
-- writes labels into its maps: the configuration manager encodes and keeps what `in_memory` says that
-- the message holds after the observers were told, and for the agent this is a parameter, `labelled`.
-- No observer that is told later reads these labels.
--
-- Bounds and fuel. `write_range` runs on as many rounds as there are samples and series, and one
-- more; `write_range_delivers` shows that this is enough. `write_loop` of
-- Metrics/RemoteWrite/Writer runs on fuel, and `write_loop_ends` shows how much is enough. A
-- request is tried three times, a line is sent at most eleven times to a syslog server; both counts
-- are the code's. A scrape runs on fuel, and `scrape_whole` shows how much is enough. All
-- other loops go through a list. The two goroutines of a playbook make at most six steps.
-- `write_range` is given a positive number of samples for a request.
--
-- Not modelled: the goroutines that fill the buffers of the containers' logs, which are calls of
-- podman's bindings; the texts of the greenboot scripts; hardware information, which the inventory of
-- the assisted installer collects; the wire format of yggdrasil; the set-up of the process in main.go;
-- constructors that only fill structs; and the tickers that call what is modelled.
mod Prelude
pub mod Metrics
pub mod Logs
pub mod Workload
pub mod Service
pub mod Configuration
pub mod DataTransfer
pub mod Heartbeat
pub mod Os
pub mod Registration
pub mod Server
pub mod Ansible
pub mod Reboot
pub mod Agent

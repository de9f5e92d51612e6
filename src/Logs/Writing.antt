-- ===== src/Logs/Writing.antt =====
-- The writer between podman's client and the queue of a target
-- (internal/logs/workload_writer.go), with `NewLogEntry` of internal/logs/log_container.go.
pub mod Entries
use k4e_device_worker.Prelude.{
  ℕ, Option, none, some, List, String, Result, ok, err, Err, ◌⧺◌, length,
}
use k4e_device_worker.Logs.Fifo.{LogEntry, FifoLog, write}

unfoldable pub new_log_entry : ℕ → List ℕ → String → LogEntry
new_log_entry now bytes workload = record { time = now; content = bytes; workload = workload }

write_result : List ℕ → FifoLog × Option Err → Result ℕ × Option FifoLog
write_result bytes (f, none) = (ok (length bytes), some f)
write_result bytes (f, some e) = (err ("cannot write to target: " ⧺ e), some f)

-- `Write`, with the queue of the writer's target, if one was set
unfoldable pub write_bytes : ℕ → String → List ℕ → Option FifoLog → Result ℕ × Option FifoLog
unfolding new_log_entry write_result
write_bytes now workload bytes none = (err "cannot write to target, no buffer is defined", none)
write_bytes now workload bytes (some f) =
    write_result bytes (write f (some (new_log_entry now bytes workload)))

-- What a turn of podman's client writes, if anything; an error is only logged.
unfoldable pub write_turn : ℕ → String → Option (List ℕ) → Option FifoLog → Option FifoLog
unfolding write_bytes
write_turn now workload none target = target
write_turn now workload (some bytes) target = (write_bytes now workload bytes target).1

-- ===== src/Logs/Writing/Entries.antt =====
-- From the lines of a container to the queue.
use k4e_device_worker.Prelude.{ℕ, ◌+◌, Option, none, some, List, [], ◌∷◌, ◌++◌, String, length}
use k4e_device_worker.Logs.Fifo.{LogEntry, FifoLog}
use k4e_device_worker.Logs.Writing.{write_turn}
use k4e_device_worker.Workload.Podman.Lines.Joined.{joined}

-- The queue after a turn of podman's client for a container
abbrev pub after_turn : ℕ → String → Option (Option (List ℕ) × List ℕ) → FifoLog → Option FifoLog
after_turn now workload none f = none
after_turn now workload (some (line, left)) f = write_turn now workload line (some f)

-- "id: line"
abbrev pub log_line : List ℕ → List (List ℕ) → List ℕ
log_line id ls = id ++ 58 ∷ 32 ∷ joined ls ++ 10 ∷ []

abbrev pub with_entry : FifoLog → LogEntry → FifoLog
with_entry f e = record f {
  entries = f.entries ++ e ∷ [];
  current_size = f.current_size + length e.content;
}

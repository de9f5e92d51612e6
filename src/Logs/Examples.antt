-- ===== src/Logs/Examples.antt =====
-- Tests of the log collection (internal/logs), and its theorems at inputs.
use k4e_device_worker.Prelude.{
  ℕ, ◌+◌, ◌≡◌, ◌≢◌, refl, Option, none, some, List, [], ◌∷◌, ◌++◌, String, arith, pos, ok, get, put,
  keys, has, text_key,
}
use k4e_device_worker.Logs.Fifo.{LogEntry, FifoLog, buffer_bytes, write, read_line}
use k4e_device_worker.Logs.Fifo.Queue.{
  total, read_line-queue, write-queue, perform_all, Op, take, fresh, perform_all-fifo,
  buffer_bytes_wrapped,
}
use k4e_device_worker.Logs.Fifo.Queue
use k4e_device_worker.Logs.Transport.{transport_round, dropped}
use k4e_device_worker.Logs.Targets.{Targets, Config, Env, update}
use k4e_device_worker.Logs.Targets.Follow.{IsFollowing, update-IsFollowing}
use k4e_device_worker.Logs.Targets.Stale.{update_stale}
use k4e_device_worker.Workload.Podman.Lines.{
  read_slice, of_slice, next_line, read_lines, copy_container,
}
use k4e_device_worker.Workload.Podman.Lines

abbrev short : LogEntry
short = record { time = 1; content = 65 ∷ []; workload = "w" }

abbrev long : LogEntry
long = record { time = 2; content = 66 ∷ 66 ∷ 66 ∷ []; workload = "w" }

abbrev holding : FifoLog
holding = record { maxlen = pos 2; entries = short ∷ long ∷ []; current_size = 4 }

abbrev script : List Op
script = Queue.put short ∷ Queue.put long ∷ take ∷ Queue.put short ∷ take ∷ []

perform_all-fifo_example :
    (perform_all (fresh (pos 10)) script).accepted
    ≡ (perform_all (fresh (pos 10)) script).read
      ++ (perform_all (fresh (pos 10)) script).log.entries
perform_all-fifo_example = perform_all-fifo (pos 10) script

abbrev huge : FifoLog
huge = record { maxlen = buffer_bytes 2_097_152; entries = []; current_size = 0 }

buffer_bytes_wrapped_example :
    ((write huge (some short)).0 ≡ huge) × ((write huge (some short)).1 ≢ none)
buffer_bytes_wrapped_example =
    buffer_bytes_wrapped 2_097_152 huge short (omega arith) (omega arith) refl

abbrev broken : LogEntry → ℕ → Option String × ℕ
broken e calls = (some "broken pipe", calls + 1)

-- The line is lost: the one behind it fills the buffer.
short_line_is_lost : (transport_round broken holding 0).1 ≡ dropped short
unfolding transport_round read_line write
short_line_is_lost = refl

abbrev net : Env ℕ String ℕ
net = record {
  new_syslog_server = λ address protocol device w. (ok address, w);
  logs = λ workload w. (some w, w + 1);
  cancel = λ c w. w;
  list_workloads = λ w. (ok ("app" ∷ []), w);
}

abbrev before : Targets String ℕ
before = record {
  device_id = "d";
  transports = ("syslog", record { transport = "old:514"; log = 0; maxlen = pos 1024 }) ∷ [];
  wwriter = ("app", record { target_name = "syslog"; target = 0; cancel = none }) ∷ [];
  workloads_config = ("app", "syslog") ∷ [];
  next_log = 1;
  started = 0 ∷ [];
}

abbrev moved : Config
moved = record {
  device_id = "d";
  log_collection =
      ("syslog", record { kind = "syslog"; buffer_size = 1; address = "new:514"; protocol = "" })
      ∷ [];
  workloads = ("app", "syslog") ∷ [];
}

before-IsFollowing : IsFollowing before
unfolding get has
before-IsFollowing = record {
  at = λ name writer h. let same : writer.target_name ≡ "syslog" = ground arith in rw (same, has);
}

update-IsFollowing_example : IsFollowing (update net moved before 0).0
update-IsFollowing_example = update-IsFollowing net moved before 0 before-IsFollowing

-- The writer of `app` goes on writing to the buffer of the connection to `old:514`.
update_stale_example :
    (get before.wwriter "app" ≡ some (record { target_name = "syslog"; target = 0; cancel = none }))
    × (◌≢◌ {A = ℕ} 0 1)
unfolding has put buffer_bytes
update_stale_example =
    update_stale net moved before 0 "app"
      (record { target_name = "syslog"; target = 0; cancel = none })
      (record { transport = "new:514"; log = 1; maxlen = pos 1024 }) (omega arith)
      (unfold update get keys in refl) (unfold update get keys in refl)

abbrev empty_queue : FifoLog
empty_queue = record { maxlen = pos 100; entries = []; current_size = 0 }

-- A buffer of four bytes: "abcdef\ng\n" is written as "c: efg\n".
abcd :
    copy_container 9 4 (99 ∷ []) (97 ∷ 98 ∷ 99 ∷ 100 ∷ 101 ∷ 102 ∷ 10 ∷ 103 ∷ 10 ∷ [])
    ≡ some (some (99 ∷ 58 ∷ 32 ∷ 101 ∷ 102 ∷ 103 ∷ 10 ∷ []), [])
unfolding copy_container read_lines Lines.read_line read_slice of_slice next_line
abcd = refl

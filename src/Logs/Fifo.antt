-- ===== src/Logs/Fifo.antt =====
-- `FIFOLog` of internal/logs/log_container.go: the buffer between the workloads and a transport.
pub mod Queue
use k4e_device_worker.Prelude.{
  ℕ, zero, suc, ◌+◌, ◌-◌, ◌*◌, ◌%◌, ◌≡◌, Bool, true, false, Option, none, some, List, [], ◌∷◌, ◌++◌,
  String, if◌then◌else◌, ℤ, pos, negsuc, ltb_ℤ, ltb, Err, length, nat_beq, leb,
}

pub record LogEntry : Type 0 where
  pub time : ℕ
  pub content : List ℕ  -- the bytes of the line
  pub workload : String

abbrev pub size : LogEntry → ℕ
size e = length e.content

pub record FifoLog : Type 0 where
  pub maxlen : ℤ
  pub entries : List LogEntry
  pub current_size : ℕ

-- The product of two `int32`, `buffer_size * 1024`, as the two's complement wraps it.
unfoldable pub buffer_bytes : ℕ → ℤ
buffer_bytes buffer_size =
    let bits = buffer_size * 1024 % 4_294_967_296 in
    if ltb bits 2_147_483_648 then pos bits else negsuc (4_294_967_296 - bits - 1)

unfoldable pub new_fifo_log : ℤ → FifoLog
new_fifo_log max_size = record { maxlen = max_size; entries = []; current_size = 0 }

unfoldable pub write : FifoLog → Option LogEntry → FifoLog × Option Err
write f none = (f, some "No log entry added")
write f (some entry) =
    if ltb_ℤ f.maxlen (pos f.current_size) then (f, some "Buffer is already full") else (
      record f { entries = f.entries ++ entry ∷ []; current_size = f.current_size + size entry },
      none,
    )

-- What `ReadLine` returns: nil, a line, or the panic of `f.data[0]` on an empty slice.
pub data Line : Type 0 where
  nothing panic : Line
  line : LogEntry → Line

take_first : List LogEntry → FifoLog → FifoLog × Line
take_first [] f = (f, panic)
take_first (res ∷ rest) f =
    (record f { entries = rest; current_size = f.current_size - size res }, line res)

unfoldable pub read_line : FifoLog → FifoLog × Line
unfolding take_first
read_line f = if nat_beq f.current_size 0 then (f, nothing) else take_first f.entries f

-- ===== src/Logs/Transport.antt =====
-- A log transport: one round of `transportLog.Start` (internal/logs/workload.go) and the syslog
-- server's retries (internal/logs/syslog_transport.go).
pub mod Delivery
use k4e_device_worker.Prelude.{
  ℕ, zero, suc, ◌+◌, Bool, true, false, Option, none, some, String, if◌then◌else◌, Err, ◌==◌,
  text_key,
}
use k4e_device_worker.Logs.Fifo.{LogEntry, FifoLog, Line, nothing, panic, line, write, read_line}

-- What one round came to. `dropped` is the line that was neither sent nor put back.
pub data Round : Type 0 where
  idle crashed : Round
  sent returned dropped : LogEntry → Round

put_back : LogEntry → FifoLog → FifoLog × Round
put_back e f =
    let (f', refused) = write f (some e) in
    elim refused [ none ↦ (f', returned e) | some c ↦ (f', dropped e) ]

module _ {W : Type 0} (write_log : LogEntry → W → Option Err × W) where
  after_write : LogEntry → FifoLog → Option Err × W → FifoLog × Round × W
  unfolding put_back
  after_write e f (none, w) = (f, sent e, w)
  after_write e f (some c, w) = let (f', r) = put_back e f in (f', r, w)

  handle_line : FifoLog × Line → W → FifoLog × Round × W
  unfolding after_write
  handle_line (f, nothing) w = (f, idle, w)
  handle_line (f, panic) w = (f, crashed, w)
  handle_line (f, line e) w = after_write e f (write_log e w)

  -- One pass of the loop, while the transport is not cancelled.
  unfoldable pub transport_round : FifoLog → W → FifoLog × Round × W
  unfolding handle_line
  transport_round f w = handle_line (read_line f) w

-- `NewSyslogServer`'s choice of the protocol
unfoldable pub protocol_or_default : String → String
protocol_or_default protocol = if protocol == "" then "tcp" else protocol

-- `writeAndRetry`: `tries` is `retryTimes + 1`, the calls that are left. `send` is the write to the
-- connection; without a connection every try is spent and nothing is written.
module _ {W : Type 0} (send : String → W → Option Err × W) where
  unfoldable pub write_and_retry : Bool → String → ℕ → W → Option Err × W
  write_and_retry connected text zero w = (some "cannot send message", w)
  write_and_retry connected text (suc tries) w =
      let (failed, w') = send text w in
      let again = write_and_retry connected text tries w' in
      let spent = write_and_retry connected text tries w in
      if connected then elim failed [ none ↦ (none, w') | some c ↦ again ] else spent

  abbrev pub retry_times : ℕ
  retry_times = 10

  -- `WriteLog`, on the line as it was formatted
  unfoldable pub write_log : Bool → String → W → Option Err × W
  unfolding write_and_retry
  write_log connected text w = write_and_retry connected text (retry_times + 1) w

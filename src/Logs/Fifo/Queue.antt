-- ===== src/Logs/Fifo/Queue.antt =====
-- The buffer is a queue with a soft limit.
use k4e_device_worker.Prelude.{
  ℕ, ◌+◌, ◌≤◌, ◌<◌, ◌≡◌, ◌≢◌, refl, Option, none, some, List, [], ◌∷◌, ◌++◌, ℤ, pos, ltb_ℤ, Err,
  arith, append_assoc, ◌⊎◌, inl, inr, Bool-cases, nat_beq, ltb, append-nil,
}
use k4e_device_worker.Logs.Fifo.{
  LogEntry, size, FifoLog, buffer_bytes, new_fifo_log, write, read_line, Line, nothing, line,
}

abbrev pub total : List LogEntry → ℕ
total [] = 0
total (e ∷ rest) = size e + total rest

total-append : (xs ys : List LogEntry) → total (xs ++ ys) ≡ total xs + total ys
total-append [] ys = omega arith
total-append (x ∷ xs) ys = omega (arith, total-append xs ys)

-- The counter is the number of bytes in the buffer.
abbrev pub IsCounted : FifoLog → Type 0
IsCounted f = f.current_size ≡ total f.entries

pub new_fifo_log-IsCounted : (m : ℤ) → IsCounted (new_fifo_log m)
unfolding new_fifo_log
new_fifo_log-IsCounted m = refl

pub write-IsCounted : (f : FifoLog) (e : Option LogEntry) → IsCounted f → IsCounted (write f e).0
unfolding write
write-IsCounted f none h = h
write-IsCounted f (some e) h = ground (arith, total-append f.entries (e ∷ []))

pub read_line-IsCounted : (f : FifoLog) → IsCounted f → IsCounted (read_line f).0
unfolding read_line
read_line-IsCounted f h = ground arith

read_line-cases :
    (f : FifoLog) (es : List LogEntry)
    → f.entries ≡ es
    → IsCounted f
    → ((e : LogEntry) × (rest : List LogEntry) × (f.entries ≡ e ∷ rest)
        × ((read_line f).1 ≡ line e)
        × ((read_line f).0.entries ≡ rest)
        × (0 < total f.entries))
      ⊎ (((read_line f).1 ≡ nothing) × ((read_line f).0 ≡ f) × (total f.entries ≡ 0))
unfolding read_line
read_line-cases f [] e h = inr (ground arith)
read_line-cases f (x ∷ rest) e h = elim (Bool-cases (nat_beq f.current_size 0)) [
  | inl none_left ↦ inr (ground arith)
  | inr some_left ↦ inl (x, rest, e, rw (some_left, e) refl, rw (some_left, e) refl, ground arith)
]

-- A buffer that counts its bytes never makes `ReadLine` panic. It gives the oldest line and keeps
-- the others in order, and gives nothing exactly when no byte is left.
pub read_line-queue :
    (f : FifoLog)
    → IsCounted f
    → ((e : LogEntry) × (rest : List LogEntry) × (f.entries ≡ e ∷ rest)
        × ((read_line f).1 ≡ line e)
        × ((read_line f).0.entries ≡ rest)
        × (0 < total f.entries))
      ⊎ (((read_line f).1 ≡ nothing) × ((read_line f).0 ≡ f) × (total f.entries ≡ 0))
read_line-queue f h = read_line-cases f f.entries refl h

-- A line is refused exactly when the buffer holds more bytes than its limit, and the buffer is
-- then unchanged. An accepted line is the newest, and what the buffer then holds passes the limit
-- by that line at most.
pub write-queue :
    (f : FifoLog) (e : LogEntry) (m : ℕ)
    → f.maxlen ≡ pos m
    → (((write f (some e)).1 ≡ none)
        × (f.current_size ≤ m)
        × ((write f (some e)).0.entries ≡ f.entries ++ e ∷ [])
        × ((write f (some e)).0.current_size ≤ m + size e))
      ⊎ (((write f (some e)).1 ≢ none) × (m < f.current_size) × ((write f (some e)).0 ≡ f))
unfolding write
write-queue f e m h = elim (Bool-cases (ltb m f.current_size)) [
  | inl full ↦ inr (ground arith)
  | inr room ↦ inl (ground arith)
]

-- What the workloads and the transport do to a buffer, in the order of the lock.
pub data Op : Type 0 where
  put : LogEntry → Op
  take : Op

-- The buffer with the lines that it accepted and those that were read from it.
pub record History : Type 0 where
  pub log : FifoLog
  pub accepted : List LogEntry
  pub read : List LogEntry

abbrev lines_of : Line → List LogEntry
lines_of (line e) = e ∷ []
lines_of _ = []

abbrev accepted_by : Option Err → LogEntry → List LogEntry
accepted_by none e = e ∷ []
accepted_by (some c) e = []

pub perform : History → Op → History
perform h (put e) =
    let (f, refused) = write h.log (some e) in
    record h { log = f; accepted = h.accepted ++ accepted_by refused e }
perform h take = let (f, l) = read_line h.log in record h { log = f; read = h.read ++ lines_of l }

pub perform_all : History → List Op → History
perform_all h [] = h
perform_all h (op ∷ ops) = perform_all (perform h op) ops

record InOrder (h : History) : Type 0 where
  counted : IsCounted h.log
  order : h.accepted ≡ h.read ++ h.log.entries

perform-put : (h : History) (e : LogEntry) → InOrder h → InOrder (perform h (put e))
unfolding perform write
perform-put h e i = elim (Bool-cases (ltb_ℤ h.log.maxlen (pos h.log.current_size))) [
  | inl full ↦ rw full (record { counted = i.counted; order = rw append-nil i.order })
  | inr room ↦ rw room (record {
    counted = omega (arith, i, total-append h.log.entries (e ∷ []));
    order = rw (i.order, append_assoc);
  })
]

perform-take : (h : History) → InOrder h → InOrder (perform h take)
unfolding perform
perform-take h i = elim (read_line-queue h.log i.counted) [
  | inl (e, rest, held, got, kept, some_left) ↦ record {
    counted = read_line-IsCounted h.log i.counted;
    order = rw (got, kept, i.order, held) (rw append_assoc);
  }
  | inr (got, same, none_left) ↦ record {
    counted = read_line-IsCounted h.log i.counted;
    order = rw (got, same, append-nil) i.order;
  }
]

perform-InOrder : (h : History) (op : Op) → InOrder h → InOrder (perform h op)
perform-InOrder h (put e) i = perform-put h e i
perform-InOrder h take i = perform-take h i

perform_all-InOrder : (h : History) (ops : List Op) → InOrder h → InOrder (perform_all h ops)
unfolding perform_all
perform_all-InOrder h [] i = i
perform_all-InOrder h (op ∷ ops) i = perform_all-InOrder (perform h op) ops (perform-InOrder h op i)

abbrev pub fresh : ℤ → History
fresh m = record { log = new_fifo_log m; accepted = []; read = [] }

-- First in, first out: however writes and reads of a new buffer interleave, the accepted lines
-- are those read so far followed by those still held, each once and in the order of acceptance.
pub perform_all-fifo :
    (m : ℤ) (ops : List Op)
    → let h = perform_all (fresh m) ops in h.accepted ≡ h.read ++ h.log.entries
perform_all-fifo m ops =
    (perform_all-InOrder (fresh m) ops
      (record { counted = new_fifo_log-IsCounted m; order = unfold new_fifo_log in refl })).order

-- A configured size of 2 GiB or more, but less than 4, wraps to a negative limit, and the buffer
-- refuses every line, whatever it holds.
pub buffer_bytes_wrapped :
    (buffer_size : ℕ) (f : FifoLog) (e : LogEntry)
    → 2_097_152 ≤ buffer_size
    → buffer_size < 4_194_304
    → f.maxlen ≡ buffer_bytes buffer_size
    → ((write f (some e)).0 ≡ f) × ((write f (some e)).1 ≢ none)
unfolding write buffer_bytes
buffer_bytes_wrapped b f e low high h = ground arith

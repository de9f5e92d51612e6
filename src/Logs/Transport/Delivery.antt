-- ===== src/Logs/Transport/Delivery.antt =====
-- What becomes of a line that a transport takes from the buffer.
use k4e_device_worker.Prelude.{
  ℕ, ◌-◌, ◌≤◌, ◌<◌, ◌≡◌, ◌≢◌, refl, false, Option, none, some, List, [], ◌∷◌, ◌++◌, pos, Err, arith,
  ◌⊎◌, inl, inr, Bool-cases, ltb, nat_beq, ap, ◌∙◌,
}
use k4e_device_worker.Logs.Fifo.{LogEntry, size, FifoLog, write, read_line, line}
use k4e_device_worker.Logs.Fifo.Queue.{total, IsCounted}
use k4e_device_worker.Logs.Transport.{
  returned, dropped, put_back, after_write, handle_line, transport_round,
}

read_line-cons :
    (f : FifoLog) (e : LogEntry) (rest : List LogEntry)
    → IsCounted f
    → f.entries ≡ e ∷ rest
    → 0 < total f.entries
    → read_line f ≡ (record f { entries = rest; current_size = total rest }, line e)
unfolding read_line
read_line-cons f e rest c held some_left =
    let some_size : nat_beq f.current_size 0 ≡ false = ground arith in
    let left : f.current_size - size e ≡ total rest =
      omega (arith, ap (λ (es : List LogEntry). total es) held) in
    rw (some_size, held) (rw left)

put_back_cases :
    (f : FifoLog) (e : LogEntry) (m : ℕ)
    → f.maxlen ≡ pos m
    → ((f.current_size ≤ m)
        × ((put_back e f).1 ≡ returned e)
        × ((put_back e f).0.entries ≡ f.entries ++ e ∷ []))
      ⊎ ((m < f.current_size) × ((put_back e f).1 ≡ dropped e) × ((put_back e f).0 ≡ f))
unfolding put_back write
put_back_cases f e m lim = elim (Bool-cases (ltb m f.current_size)) [
  | inl full ↦ inr (ground arith)
  | inr room ↦ inl (ground arith)
]

module _ {W : Type 0} (write_log : LogEntry → W → Option Err × W) where
  after_write-failed :
      (e : LogEntry) (f : FifoLog) (r : Option Err × W)
      → r.0 ≢ none
      → after_write write_log e f r ≡ ((put_back e f).0, (put_back e f).1, r.1)
  unfolding after_write
  after_write-failed e f (none, w) h = absurd (h refl)
  after_write-failed e f (some c, w) h = refl

  round_of_failure :
      (f : FifoLog) (w : W) (e : LogEntry) (rest : List LogEntry)
      → IsCounted f
      → f.entries ≡ e ∷ rest
      → 0 < total f.entries
      → (write_log e w).0 ≢ none
      → let back = put_back e (record f { entries = rest; current_size = total rest }) in
        transport_round write_log f w ≡ (back.0, back.1, (write_log e w).1)
  unfolding transport_round handle_line
  round_of_failure f w e rest c held some_left fails =
      ap (λ r. handle_line write_log r w) (read_line-cons f e rest c held some_left)
      ∙ after_write-failed e (record f { entries = rest; current_size = total rest })
          (write_log e w) fails

  -- A line that cannot be sent goes to the back of the buffer if the lines behind it keep within
  -- the limit; otherwise it is lost.
  pub transport_round_failed :
      (f : FifoLog) (w : W) (e : LogEntry) (rest : List LogEntry) (m : ℕ)
      → IsCounted f
      → f.maxlen ≡ pos m
      → f.entries ≡ e ∷ rest
      → 0 < total f.entries
      → (write_log e w).0 ≢ none
      → ((total rest ≤ m)
          × ((transport_round write_log f w).1 ≡ returned e)
          × ((transport_round write_log f w).0.entries ≡ rest ++ e ∷ []))
        ⊎ ((m < total rest)
            × ((transport_round write_log f w).1 ≡ dropped e)
            × ((transport_round write_log f w).0.entries ≡ rest))
  transport_round_failed f w e rest m c lim held some_left fails =
      rw (round_of_failure f w e rest c held some_left fails)
        (elim (put_back_cases (record f { entries = rest; current_size = total rest }) e m lim) [
          | inl (room, got, back) ↦ inl (room, got, back)
          | inr (full, got, same) ↦ inr (full, got, ap (λ (g : FifoLog). g.entries) same)
        ])

-- ===== src/Metrics/RemoteWrite/Writer/Progress.antt =====
-- How `LastWrite` moves while `Write` runs.
use k4e_device_worker.Prelude.{
  ℕ, zero, suc, ◌+◌, ◌-◌, ◌≤◌, ◌<◌, ◌≡◌, ◌≢◌, refl, Bool, true, false, Option, none, some, List,
  ltb, String, arith, Bool-cases, inl, inr,
}
use k4e_device_worker.Metrics.Series.{Series}
use k4e_device_worker.Metrics.RemoteWrite.Writer.{
  Store, Ending, caught_up, out_of_fuel, millisecond, range_start, range_end, deliver, finish_range,
  write_series, write_from, resume, write_round, write_loop, add_device_label,
}

-- A range starts at least a millisecond after the last write, at the oldest sample at the
-- earliest, spans at most the duration, and moves the last write on, no further than the maximum.
pub range_bounds :
    (last_write min_tsdb max_tsdb range_duration : ℕ)
    → last_write < max_tsdb
    → let start = range_start last_write min_tsdb in
      let stop = range_end start range_duration max_tsdb in
      (last_write + millisecond ≤ start)
      × (min_tsdb ≤ start)
      × (stop ≤ start + range_duration)
      × (last_write < stop)
      × (stop ≤ max_tsdb)
unfolding range_start range_end
range_bounds last_write min_tsdb max_tsdb range_duration h = ground arith

module _ {W F : Type 0} (store : Store W F) (device_id : String) (range_duration : ℕ)
    (write_range : List (Series F) → W → Bool × W) where
  finish_range-eq :
      (stop new : ℕ) (r : Bool × W)
      → (finish_range store device_id range_duration write_range stop r).0 ≡ some new
      → new ≡ stop
  unfolding finish_range
  finish_range-eq stop new (true, w) h = ground arith
  finish_range-eq stop new (false, w) h = cc

  write_series-eq :
      (stop new : ℕ) (r : Option (List (Series F)) × W)
      → (write_series store device_id range_duration write_range stop r).0 ≡ some new
      → new ≡ stop
  unfolding write_series
  write_series-eq stop new (none, w) h = cc
  write_series-eq stop new (some series, w) h =
      finish_range-eq stop new
        (deliver store device_id range_duration write_range (add_device_label device_id series) w) h

  write_from_moves :
      (last_write max_tsdb new : ℕ) (r : Option ℕ × W)
      → (write_from store device_id range_duration write_range last_write max_tsdb r).0 ≡ some new
      → last_write < max_tsdb
      → (last_write < new) × (new ≤ max_tsdb)
  unfolding write_from
  write_from_moves last_write max_tsdb new (none, w) h low = cc
  write_from_moves last_write max_tsdb new (some min_tsdb, w) h low = omega (
    arith,
    write_series-eq _ new _ h,
    range_bounds last_write min_tsdb max_tsdb range_duration low,
  )

  -- A round that ends with a new last write moves it forward, to the maximum at most.
  pub write_round_moves :
      (last_write max_tsdb new : ℕ) (w : W)
      → (write_round store device_id range_duration write_range last_write max_tsdb w).0 ≡ some new
      → last_write < max_tsdb
      → (last_write < new) × (new ≤ max_tsdb)
  unfolding write_round
  write_round_moves last_write max_tsdb new w h low =
      write_from_moves last_write max_tsdb new (store.min_time w) h low

  -- A loop that started at `last`, while the newest sample stays `newest`, has ended as it should.
  abbrev pub EndsWell : ℕ → ℕ → Ending × ℕ × W → Type 0
  EndsWell newest last r =
      (r.0 ≢ out_of_fuel) × (last ≤ r.1) × (r.1 ≤ newest) × (r.0 ≡ caught_up → r.1 ≡ newest)

  resume_ends :
      (newest last : ℕ) (loop : ℕ → W → Ending × ℕ × W) (r : Option ℕ × W)
      → last ≤ newest
      → ((new : ℕ) → r.0 ≡ some new → EndsWell newest new (loop new r.1) × (last ≤ new))
      → EndsWell newest last (resume loop last r)
  unfolding resume
  resume_ends newest last loop (none, w) low next = ground arith
  resume_ends newest last loop (some new, w) low next =
      let (h, le) = next new refl in (h.0, omega arith, h.2, h.3)

  -- While the newest sample of the TSDB stays the same, the loop ends within the time that is
  -- left, `LastWrite` never goes back nor past the newest sample, and a loop that did not give up
  -- on an error has reached the newest sample.
  pub write_loop_ends :
      (newest : ℕ) (fuel last_write : ℕ) (w : W)
      → ((v : W) → (store.max_time v).0 ≡ newest)
      → newest - last_write < fuel
      → last_write ≤ newest
      → EndsWell newest last_write
          (write_loop store device_id range_duration write_range fuel last_write w)
  unfolding write_loop
  write_loop_ends newest zero last_write w frozen enough low = elim enough [ ]
  write_loop_ends newest (suc fuel) last_write w frozen enough low =
      let w' : W = (store.max_time w).1 in
      let round : Option ℕ × W =
        write_round store device_id range_duration write_range last_write newest w' in
      let loop : ℕ → W → Ending × ℕ × W =
        write_loop store device_id range_duration write_range fuel in
      let ahead : (new : ℕ)
          → ltb last_write newest ≡ true
          → round.0 ≡ some new
          → (last_write < new) × (new ≤ newest) =
        λ new more moved. write_round_moves last_write newest new w' moved (ground arith) in
      rw (frozen w) (elim (Bool-cases (ltb last_write newest)) [
        | inr done ↦ rw done (ground arith)
        | inl more ↦ rw more (
            resume_ends newest last_write loop round low (λ new moved.
              let fwd : (last_write < new) × (new ≤ newest) = ahead new more moved in
              (
                write_loop_ends newest fuel new round.1 frozen (omega arith) (omega arith),
                omega arith,
              )))
      ])

-- ===== src/Metrics/RemoteWrite/Request.antt =====
-- `writeRequest` and `toTimeSeries` of internal/metrics/remote_write.go. The encoding
-- (prompb's `Marshal` and snappy) and the client are parameters.
use k4e_device_worker.Prelude.{
  ℕ, zero, suc, ◌≡◌, ◌↔◌, Bool, true, false, Option, none, some, List, [], ◌∷◌, String, arith,
}
use k4e_device_worker.Metrics.Series.{DataPoint, Series}

-- What a call of `client.Write` comes back with: nil, a `RemoteRecoverableError`, another error.
pub data Outcome : Type 0 where
  written recoverable permanent : Outcome

pub record TimeSeries (F : Type 0) : Type 0 where
  pub labels : List (String × String)
  pub samples : List (DataPoint F)

module _ {F : Type 0} where
  -- the labels of a map, in the order in which it is iterated
  unfoldable pub to_time_series : List (Series F) → List (TimeSeries F)
  to_time_series [] = []
  to_time_series (s ∷ rest) =
      record { labels = s.labels; samples = s.data_points } ∷ to_time_series rest

module _ {W B : Type 0} (client_write : B → W → Outcome × W) where
  -- The tries that are left, of `numTries`. A recoverable error on the last try gives up.
  unfoldable pub write_tries : ℕ → B → W → Bool × W
  write_tries zero bytes w = (true, w)
  write_tries (suc left) bytes w =
      let (outcome, w') = client_write bytes w in
      let again = write_tries left bytes w' in
      elim outcome [
        | written ↦ (true, w')
        | recoverable ↦ elim left [ zero ↦ (false, w') | suc more ↦ again ]
        | permanent ↦ (true, w')
      ]

  abbrev pub num_tries : ℕ
  num_tries = 3

  module _ {F : Type 0} (marshal : List (TimeSeries F) → Option B) where
    send_marshalled : Option B → W → Bool × W
    send_marshalled none w = (false, w)
    send_marshalled (some bytes) w = write_tries num_tries bytes w

    unfoldable pub write_request : List (Series F) → W → Bool × W
    unfolding send_marshalled write_tries to_time_series
    write_request series w = send_marshalled (marshal (to_time_series series)) w

-- The client's answers to the tries of one request, each made in the world that the last one left.
module _ {W B : Type 0} (client_write : B → W → Outcome × W) (bytes : B) where
  pub world_after : ℕ → W → W
  world_after zero w = w
  world_after (suc k) w = world_after k (client_write bytes w).1

  -- All of the next `k` answers are recoverable errors.
  abbrev pub AllRecoverable : ℕ → W → Type 0
  AllRecoverable zero w = Unit {0}
  AllRecoverable (suc k) w =
      ((client_write bytes w).0 ≡ recoverable) × AllRecoverable k (client_write bytes w).1

  pub write_tries-false :
      (k : ℕ) (w : W)
      → (write_tries client_write (suc k) bytes w).0 ≡ false
      → AllRecoverable (suc k) w
  unfolding write_tries
  write_tries-false zero w h = ground arith
  write_tries-false (suc k) w h = ground (arith, write_tries-false k (client_write bytes w).1)

  pub write_tries_give_up :
      (k : ℕ) (w : W)
      → AllRecoverable (suc k) w
      → write_tries client_write (suc k) bytes w ≡ (false, world_after (suc k) w)
  unfolding write_tries world_after
  write_tries_give_up zero w h = rw (h.0, write_tries)
  write_tries_give_up (suc k) w h = rw (h.0, write_tries) (write_tries_give_up k _ h.1)

module _ {W B F : Type 0} (client_write : B → W → Outcome × W)
    (marshal : List (TimeSeries F) → Option B) where
  -- A request that can be encoded stops the range exactly when all three tries meet a recoverable
  -- error, and then the client was called three times.
  pub write_request_gives_up :
      (series : List (Series F)) (bytes : B) (w : W)
      → marshal (to_time_series series) ≡ some bytes
      → ((write_request client_write marshal series w).0 ≡ false)
        ↔ AllRecoverable client_write bytes 3 w
  unfolding write_request send_marshalled
  write_request_gives_up series bytes w e = rw e (
    write_tries-false client_write bytes 2 w,
    λ h. rw (write_tries_give_up client_write bytes 2 w h),
  )

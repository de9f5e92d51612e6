-- ===== src/Metrics/RemoteWrite/Examples.antt =====
-- Tests of the remote write (internal/metrics/remote_write.go), and its theorems at inputs.
use k4e_device_worker.Prelude.{
  ℕ, ◌+◌, ◌≡◌, refl, Bool, true, false, Option, some, List, [], ◌∷◌, ◌++◌, String, arith, pos, ok,
}
use k4e_device_worker.Metrics.Series.{DataPoint, Series, samples}
use k4e_device_worker.Metrics.RemoteWrite.Range.{write_range}
use k4e_device_worker.Metrics.RemoteWrite.Range.Delivery.{Plan, write_range_delivers}
use k4e_device_worker.Metrics.RemoteWrite.Request.{Outcome, recoverable, TimeSeries, write_request}
use k4e_device_worker.Metrics.RemoteWrite.Writer.{Store, write_loop}
use k4e_device_worker.Metrics.RemoteWrite.Writer.Progress.{EndsWell, write_loop_ends}
use k4e_device_worker.Metrics.RemoteWrite.Settings.{Receiver, Env, update, new_remote_write}
use k4e_device_worker.Metrics.RemoteWrite.Settings.Made.{IsMade}
use k4e_device_worker.Metrics.RemoteWrite.Settings.Routine.{
  IsSettled, Reach-IsSettled, start, after, updated,
}

abbrev point : ℕ → DataPoint ℕ
point t = record { time = t; value = t }

abbrev cpu : Series ℕ
cpu = record { labels = ("name", "cpu") ∷ []; data_points = point 1 ∷ point 2 ∷ point 3 ∷ [] }

abbrev disk : Series ℕ
disk = record { labels = ("name", "disk") ∷ []; data_points = point 4 ∷ point 5 ∷ [] }

abbrev two_series : List (Series ℕ)
two_series = cpu ∷ disk ∷ []

-- A client that keeps what it was sent.
abbrev keep : List (Series ℕ) → List (List (Series ℕ)) → Bool × List (List (Series ℕ))
keep q log = (true, log ++ q ∷ [])

two_requests : write_range keep 3 two_series [] ≡ (some true, (cpu ∷ []) ∷ (disk ∷ []) ∷ [])
unfolding write_range
two_requests = refl

split_series : write_range keep 4 two_series [] ≡ (
  some true,
  (cpu ∷ record disk { data_points = point 4 ∷ [] } ∷ [])
      ∷ (record disk { data_points = point 5 ∷ [] } ∷ [])
      ∷ [],
)
unfolding write_range
split_series = refl

write_range_delivers_example :
    Plan 4 (λ W send w. write_range send 4 two_series w) (samples two_series)
write_range_delivers_example = write_range_delivers 4 two_series (omega arith)

-- A server that is never there.
abbrev down : ℕ → ℕ → Outcome × ℕ
down bytes calls = (recoverable, calls + 1)

abbrev encode : List (TimeSeries ℕ) → Option ℕ
encode series = some 7

gave_up : write_request down encode two_series 0 ≡ (false, 3)
unfolding write_request
gave_up = refl

-- A TSDB with samples at 5 ms and at most 1000 ns more.
abbrev still : Store ℕ ℕ
still = record {
  max_time = λ w. (5_001_000, w);
  min_time = λ w. (some 5_000_000, w);
  metrics_for_range = λ a b w. (some two_series, w);
  save_last_write = λ t w. t;
}

abbrev accept : List (Series ℕ) → ℕ → Bool × ℕ
accept q w = (true, w)

write_loop_ends_example :
    EndsWell still "dev" 3_600 accept 5_001_000 5_000_999
      (write_loop still "dev" 3_600 accept 2 5_000_999 0)
write_loop_ends_example =
    write_loop_ends still "dev" 3_600 accept 5_001_000 2 5_000_999 0 (λ v. refl) (omega arith)
      (omega arith)

-- An operator's server that wants no timeout.
abbrev no_timeout : Receiver
no_timeout = record {
  ca_cert = "";
  request_num_samples = pos 100;
  timeout_seconds = pos 0;
  url = "https://metrics";
}

abbrev with_timeout : Receiver
with_timeout = record no_timeout { timeout_seconds = pos 10 }

abbrev quiet : Env ℕ ℕ String
quiet = record {
  parse_url = λ s. ok 1;
  temp_file = λ w. (ok "ca", w);
  write_ca = λ p c w. (ok tt, w);
  new_write_client = λ u t ca w. (ok "client", w);
  remove_file = λ p w. (ok tt, w);
  read_dir = λ w. (ok [], w);
  is_ca_file = λ n. false;
}

Reach-IsSettled_example :
    IsSettled (update quiet (some with_timeout) new_remote_write 0).1
    × IsMade quiet (update quiet (some with_timeout) new_remote_write 0).1
Reach-IsSettled_example =
    Reach-IsSettled quiet (after start (updated (some with_timeout) new_remote_write 0))

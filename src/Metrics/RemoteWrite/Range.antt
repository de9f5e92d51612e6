-- ===== src/Metrics/RemoteWrite/Range.antt =====
-- `writeRange` of internal/metrics/remote_write.go: the samples of a range of series go out in
-- requests of `requestNumSamples` samples. Sending one request is the parameter `send`.
pub mod Filling
pub mod Round
pub mod Delivery
use k4e_device_worker.Prelude.{
  ℕ, zero, suc, ◌+◌, ◌-◌, Bool, true, false, not, ◌&&◌, ◌||◌, Option, none, some, List, [], ◌∷◌,
  ◌++◌, ltb, nat_beq, if◌then◌else◌, length, take, drop,
}
use k4e_device_worker.Metrics.Series.{DataPoint, Series, sample_count}

-- The loop's variables after the block that moves samples into the request.
pub record Filled (F : Type 0) : Type 0 where
  pub sample_index : ℕ
  pub num_samples : ℕ
  pub requests : List (Series F)

-- How a request is sent: whether to go on, and the world after it.
abbrev pub Send : Type 0 → Type 0 → Type 0
Send W F = List (Series F) → W → Bool × W

abbrev pub is_empty {ℓ} : {A : Type ℓ} → List A → Bool
is_empty [] = true
is_empty (x ∷ xs) = false

module _ {F : Type 0} where
  -- `currReqSeries.DataPoints = append(...)` for the last series of the request
  unfoldable pub append_to_last : List (Series F) → List (DataPoint F) → List (Series F)
  append_to_last [] ps = []
  append_to_last (s ∷ []) ps = record s { data_points = s.data_points ++ ps } ∷ []
  append_to_last (s ∷ t ∷ rest) ps = s ∷ append_to_last (t ∷ rest) ps

  -- "first time we're using this series or requestSeries was reset"
  unfoldable pub open_series : Series F → ℕ → List (Series F) → List (Series F)
  open_series current sample_index requests =
      if nat_beq sample_index 0 || is_empty requests
      then requests ++ record { labels = current.labels; data_points = [] } ∷ []
      else requests

  unfoldable pub num_to_use : ℕ → Series F → ℕ → ℕ → ℕ
  num_to_use request_num_samples current sample_index num_samples =
      let missing = request_num_samples - num_samples in
      let remainder = length current.data_points - sample_index in
      if ltb remainder missing then remainder else missing

  unfoldable pub fill : ℕ → Series F → ℕ → ℕ → List (Series F) → Filled F
  unfolding append_to_last open_series num_to_use
  fill request_num_samples current sample_index num_samples requests =
      if nat_beq (length current.data_points) 0
      then record { sample_index = sample_index; num_samples = num_samples; requests = requests }
      else let used = num_to_use request_num_samples current sample_index num_samples in
        record {
          sample_index = sample_index + used;
          num_samples = num_samples + used;
          requests =
              append_to_last (open_series current sample_index requests)
                (take used (drop sample_index current.data_points));
        }

  -- "advance to next series"
  unfoldable pub advance : Series F → List (Series F) → ℕ → List (Series F) × ℕ
  advance current more sample_index =
      if nat_beq sample_index (length current.data_points)
      then (more, 0)
      else (current ∷ more, sample_index)

module _ {W F : Type 0} where
  -- The loop from `series[i:]`. `none` means that the fuel ran out.
  unfoldable pub write_loop :
      ℕ → Send W F → ℕ → List (Series F) → ℕ → ℕ → List (Series F) → W → Option Bool × W
  unfolding fill advance
  write_loop zero send n series sample_index num_samples requests w = (none, w)
  write_loop (suc fuel) send n [] sample_index num_samples requests w = (some true, w)
  write_loop (suc fuel) send n (current ∷ more) sample_index num_samples requests w =
      let filled = fill n current sample_index num_samples requests in
      let (rest, index) = advance current more filled.sample_index in
      let continued = write_loop fuel send n rest index filled.num_samples filled.requests w in
      let (going_on, w') = send filled.requests w in
      let next = write_loop fuel send n rest index 0 [] w' in
      if not (nat_beq filled.num_samples n) && not (is_empty rest)
      then continued
      else if going_on
      then next
      else (some false, w')

  -- The fuel covers one round for each sample and one for each series.
  unfoldable pub write_range : Send W F → ℕ → List (Series F) → W → Option Bool × W
  unfolding write_loop sample_count
  write_range send n series w =
      write_loop (suc (sample_count series + length series)) send n series 0 0 [] w

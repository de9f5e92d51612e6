-- ===== src/Metrics/RemoteWrite/Writer.antt =====
-- `Write` of internal/metrics/remote_write.go: the ranges of the TSDB that go out, one after the
-- other. Times are nanoseconds since Go's zero time. The TSDB and the file are parameters.
pub mod Progress
use k4e_device_worker.Prelude.{
  ℕ, zero, suc, ◌+◌, ◌-◌, ◌*◌, ◌≤◌, ◌<◌, ◌≡◌, refl, ◌↔◌, Bool, true, false, Option, none, some,
  List, [], ◌∷◌, ltb, if◌then◌else◌, String, Map, arith, length, put, nat_beq, Bool-cases, inl, inr,
  ◌⊎◌, Key, ◌==◌, text_key,
}
use k4e_device_worker.Metrics.Series.{DataPoint, Series}

-- The TSDB of internal/metrics/metrics.go and the file of the last write, as `Write` uses them.
-- `none` stands for an error.
pub record Store (W F : Type 0) : Type 0 where
  pub max_time : W → ℕ × W
  pub min_time : W → Option ℕ × W
  pub metrics_for_range : ℕ → ℕ → W → Option (List (Series F)) × W
  pub save_last_write : ℕ → W → W

pub data Ending : Type 0 where
  caught_up gave_up out_of_fuel : Ending

abbrev pub millisecond : ℕ
millisecond = 1_000_000

abbrev pub device_label : String
device_label = "edgedeviceid"

module _ {F : Type 0} where
  unfoldable pub add_device_label : String → List (Series F) → List (Series F)
  add_device_label device_id [] = []
  add_device_label device_id (s ∷ rest) =
      record s { labels = put s.labels device_label device_id } ∷ add_device_label device_id rest

unfoldable pub range_start : ℕ → ℕ → ℕ
range_start last_write min_tsdb =
    if ltb (last_write + millisecond) min_tsdb then min_tsdb else last_write + millisecond

unfoldable pub range_end : ℕ → ℕ → ℕ → ℕ
range_end start range_duration max_tsdb =
    if ltb max_tsdb (start + range_duration) then max_tsdb else start + range_duration

-- A round that returned ends the loop; any other is followed by the next.
unfoldable pub resume {ℓ} :
    {W : Type ℓ} → (ℕ → W → Ending × ℕ × W) → ℕ → Option ℕ × W → Ending × ℕ × W
resume loop last_write (none, w) = (gave_up, last_write, w)
resume loop last_write (some stop, w) = loop stop w

module _ {W F : Type 0} (store : Store W F) (device_id : String) (range_duration : ℕ)
    (write_range : List (Series F) → W → Bool × W) where
  -- `if len(series) != 0`: whether the range is done with
  unfoldable pub deliver : List (Series F) → W → Bool × W
  deliver [] w = (true, w)
  deliver (s ∷ rest) w = write_range (s ∷ rest) w

  unfoldable pub finish_range : ℕ → Bool × W → Option ℕ × W
  finish_range stop (true, w) = (some stop, store.save_last_write stop w)
  finish_range stop (false, w) = (none, w)

  unfoldable pub write_series : ℕ → Option (List (Series F)) × W → Option ℕ × W
  unfolding deliver finish_range add_device_label
  write_series stop (none, w) = (none, w)
  write_series stop (some series, w) =
      finish_range stop (deliver (add_device_label device_id series) w)

  unfoldable pub write_from : ℕ → ℕ → Option ℕ × W → Option ℕ × W
  unfolding write_series range_start range_end
  write_from last_write max_tsdb (none, w) = (none, w)
  write_from last_write max_tsdb (some min_tsdb, w) =
      let start = range_start last_write min_tsdb in
      let stop = range_end start range_duration max_tsdb in
      write_series stop (store.metrics_for_range start stop w)

  -- The body of the loop: the new `LastWrite`, or `none` where it returns.
  unfoldable pub write_round : ℕ → ℕ → W → Option ℕ × W
  unfolding write_from
  write_round last_write max_tsdb w = write_from last_write max_tsdb (store.min_time w)

  -- The loop, with how it ended and `LastWrite` after it.
  unfoldable pub write_loop : ℕ → ℕ → W → Ending × ℕ × W
  unfolding resume
  write_loop zero last_write w = (out_of_fuel, last_write, w)
  write_loop (suc fuel) last_write w =
      let (max_tsdb, w') = store.max_time w in
      let next = resume (write_loop fuel) last_write (write_round last_write max_tsdb w') in
      if ltb last_write max_tsdb then next else (caught_up, last_write, w')

-- ===== src/Metrics/RemoteWrite/Range/Filling.antt =====
-- What one round of the loop of `writeRange` does to the request that is being filled.
use k4e_device_worker.Prelude.{
  ℕ, ◌+◌, ◌≤◌, ◌<◌, String, ◌≡◌, ◌≢◌, ◌⊎◌, inl, inr, refl, false, List, [], ◌∷◌, ◌++◌, append-nil,
  append_assoc, arith, Map, nat_beq, Bool-cases, ◌||◌, length, drop, length-append,
}
use k4e_device_worker.Metrics.Series.{
  DataPoint, Series, Sample, label_all, samples, sample_count, label_all-append, samples-append,
}
use k4e_device_worker.Metrics.RemoteWrite.Range.{is_empty, append_to_last, open_series, num_to_use}

module _ {F : Type 0} where
  -- The last series of a request has these labels, if there is one.
  abbrev pub LastLabels : Map String String → List (Series F) → Type 0
  LastLabels l [] = Unit {0}
  LastLabels l (s ∷ []) = s.labels ≡ l
  LastLabels l (s ∷ t ∷ rest) = LastLabels l (t ∷ rest)

  -- The samples that the loop has still to move, from index `i` of the first series on.
  unfoldable pub remaining : List (Series F) → ℕ → List (Sample F)
  remaining [] i = []
  remaining (s ∷ rest) i = label_all s.labels (drop i s.data_points) ++ samples rest

  pub samples-append_to_last :
      (l : Map String String) (reqs : List (Series F)) (ps : List (DataPoint F))
      → LastLabels l reqs
      → is_empty reqs ≡ false
      → samples (append_to_last reqs ps) ≡ samples reqs ++ label_all l ps
  unfolding samples append_to_last
  samples-append_to_last l [] ps h e = cc
  samples-append_to_last l (s ∷ []) ps h e = simp (label_all-append, append-nil) (rw h refl)
  samples-append_to_last l (s ∷ t ∷ rest) ps h e =
      simp (samples-append_to_last l (t ∷ rest) ps h refl, append_assoc)

  pub count-append_to_last :
      (reqs : List (Series F)) (ps : List (DataPoint F))
      → is_empty reqs ≡ false
      → sample_count (append_to_last reqs ps) ≡ sample_count reqs + length ps
  unfolding sample_count append_to_last
  count-append_to_last [] ps e = cc
  count-append_to_last (s ∷ []) ps e = omega (arith, length-append s.data_points ps)
  count-append_to_last (s ∷ t ∷ rest) ps e = omega (arith, count-append_to_last (t ∷ rest) ps refl)

  pub LastLabels-append_to_last :
      (l : Map String String) (reqs : List (Series F)) (ps : List (DataPoint F))
      → LastLabels l reqs
      → LastLabels l (append_to_last reqs ps)
  unfolding append_to_last
  LastLabels-append_to_last l [] ps h = tt
  LastLabels-append_to_last l (s ∷ []) ps h = h
  LastLabels-append_to_last l (s ∷ t ∷ []) ps h = h
  LastLabels-append_to_last l (s ∷ t ∷ u ∷ rest) ps h =
      LastLabels-append_to_last l (t ∷ u ∷ rest) ps h

  LastLabels-append :
      (l : Map String String) (reqs : List (Series F)) (s : Series F)
      → s.labels ≡ l
      → LastLabels l (reqs ++ s ∷ [])
  LastLabels-append l [] s h = h
  LastLabels-append l (t ∷ []) s h = h
  LastLabels-append l (t ∷ u ∷ rest) s h = LastLabels-append l (u ∷ rest) s h

  is_empty-append : (reqs : List (Series F)) (s : Series F) → is_empty (reqs ++ s ∷ []) ≡ false
  is_empty-append [] s = refl
  is_empty-append (t ∷ rest) s = refl

  count-append :
      (xs ys : List (Series F)) → sample_count (xs ++ ys) ≡ sample_count xs + sample_count ys
  unfolding sample_count
  count-append [] ys = omega arith
  count-append (x ∷ xs) ys = omega (arith, count-append xs ys)

  -- Opening a series in the request adds no sample, and makes it the last one.
  pub record Opened (current : Series F) (reqs opened : List (Series F)) : Type 0 where
    pub last : LastLabels current.labels opened
    pub present : is_empty opened ≡ false
    pub same_samples : samples opened ≡ samples reqs
    pub same_count : sample_count opened ≡ sample_count reqs

  open_new :
      (current : Series F) (reqs : List (Series F))
      → Opened current reqs (reqs ++ record { labels = current.labels; data_points = [] } ∷ [])
  unfolding samples sample_count
  open_new current reqs = record {
    last = LastLabels-append _ reqs _ refl;
    present = is_empty-append reqs _;
    same_samples = simp (samples-append, append-nil);
    same_count =
        omega
          (arith, count-append reqs (record { labels = current.labels; data_points = [] } ∷ []));
  }

  pub open_series-Opened :
      (current : Series F) (i : ℕ) (reqs : List (Series F))
      → (i ≢ 0 → LastLabels current.labels reqs)
      → Opened current reqs (open_series current i reqs)
  unfolding open_series
  open_series-Opened current i reqs h = elim (Bool-cases (nat_beq i 0 || is_empty reqs)) [
    | inl e ↦ rw e (open_new current reqs)
    | inr e ↦ rw e (record {
      last = h (ground arith);
      present = ground arith;
      same_samples = refl;
      same_count = refl;
    })
  ]

  module _ (n : ℕ) (current : Series F) (i num : ℕ) where
    -- What is taken fits the request and the series, and fills one of them.
    pub num_to_use_bounds :
        num < n
        → i < length current.data_points
        → let used = num_to_use n current i num in
          (0 < used)
          × (num + used ≤ n)
          × (i + used ≤ length current.data_points)
          × ((num + used ≡ n) ⊎ (i + used ≡ length current.data_points))
    unfolding num_to_use
    num_to_use_bounds room inside = ground arith

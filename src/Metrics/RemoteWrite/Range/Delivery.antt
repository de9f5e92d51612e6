-- ===== src/Metrics/RemoteWrite/Range/Delivery.antt =====
-- What `writeRange` sends, and that it ends.
use k4e_device_worker.Prelude.{
  ℕ, zero, suc, ◌+◌, ◌≤◌, ◌<◌, ◌≡◌, inl, inr, refl, ◌∙◌, Bool, true, false, not, ◌&&◌, Option, some,
  List, [], ◌∷◌, ◌++◌, arith, nat_beq, Bool-cases, length, if◌then◌else◌, nat_beq_iff,
}
use k4e_device_worker.Metrics.Series.{Series, Sample, samples, sample_count}
use k4e_device_worker.Metrics.RemoteWrite.Range.{
  Send, Filled, is_empty, fill, write_loop, write_range,
}
use k4e_device_worker.Metrics.RemoteWrite.Range.Filling.{remaining}
use k4e_device_worker.Metrics.RemoteWrite.Range.Round.{
  HeadOf, HeadOf-zero, measure, remaining-zero, Round, round,
}

module _ {F : Type 0} where
  -- The samples of a sequence of requests.
  abbrev pub all_samples : List (List (Series F)) → List (Sample F)
  all_samples [] = []
  all_samples (q ∷ qs) = samples q ++ all_samples qs

  -- Every request is full but the last, and that one is not too large.
  abbrev pub Packed : ℕ → List (List (Series F)) → Type 0
  Packed n [] = Unit {0}
  Packed n (q ∷ []) = sample_count q ≤ n
  Packed n (q ∷ r ∷ rest) = (sample_count q ≡ n) × Packed n (r ∷ rest)

  Packed-cons :
      (n : ℕ) (q : List (Series F)) (qs : List (List (Series F)))
      → sample_count q ≡ n
      → Packed n qs
      → Packed n (q ∷ qs)
  Packed-cons n q [] e h = omega arith
  Packed-cons n q (r ∷ rest) e h = (e, h)

module _ {W F : Type 0} (send : Send W F) where
  -- The specification: the requests go out in order, up to the first one that is given up.
  unfoldable pub send_all : List (List (Series F)) → W → Option Bool × W
  send_all [] w = (some true, w)
  send_all (q ∷ qs) w =
      let (going_on, w') = send q w in
      let next = send_all qs w' in if going_on then next else (some false, w')

module _ {F : Type 0} (n : ℕ) where
  -- One sequence of requests is what a run sends, whatever becomes of each of them.
  abbrev pub Sends :
      ((W : Type 0) → Send W F → W → Option Bool × W) → List (List (Series F)) → Type 1
  Sends run qs = (W : Type 0) (send : Send W F) (w : W) → run W send w ≡ send_all send qs w

  abbrev pub Plan : ((W : Type 0) → Send W F → W → Option Bool × W) → List (Sample F) → Type 1
  Plan run wanted =
      (qs : List (List (Series F))) × Sends run qs × (all_samples qs ≡ wanted) × Packed n qs

  abbrev loop_from :
      ℕ → List (Series F) → ℕ → ℕ → List (Series F) → (W : Type 0) → Send W F → W → Option Bool × W
  loop_from fuel series i num reqs W send w = write_loop fuel send n series i num reqs w

  -- The rest of a round, once the request has been filled.
  abbrev rest_of_round :
      ℕ → List (Series F) → ℕ → Filled F → (W : Type 0) → Send W F → W → Option Bool × W
  rest_of_round fuel rest j f W send w =
      let (going_on, w') = send f.requests w in
      if not (nat_beq f.num_samples n) && not (is_empty rest)
      then write_loop fuel send n rest j f.num_samples f.requests w
      else if going_on
      then write_loop fuel send n rest j 0 [] w'
      else (some false, w')

  abbrev Ended : List (Series F) → List (Series F) → Type 0
  Ended [] reqs = reqs ≡ []
  Ended (s ∷ rest) reqs = Unit {0}

  Ended-nil : (rest : List (Series F)) → Ended rest []
  Ended-nil [] = refl
  Ended-nil (s ∷ rest) = tt

  HeadOf-reset :
      (rest : List (Series F)) (j : ℕ) (reqs : List (Series F))
      → HeadOf rest j reqs
      → HeadOf rest j []
  HeadOf-reset [] j reqs h = tt
  HeadOf-reset (s ∷ rest) j reqs h = (h.0, λ _. tt)

  -- What the loop does from its head, for the series and the index that a round leaves.
  abbrev Continues : ℕ → List (Series F) → ℕ → Type 1
  Continues fuel rest j =
      (num : ℕ) (reqs : List (Series F))
      → num < n
      → sample_count reqs ≡ num
      → HeadOf rest j reqs
      → Ended rest reqs
      → Plan (loop_from fuel rest j num reqs) (samples reqs ++ remaining rest j)

  loop_from_nil :
      (fuel j num : ℕ) (reqs : List (Series F)) (W : Type 0) (send : Send W F) (w : W)
      → 0 < fuel
      → loop_from fuel [] j num reqs W send w ≡ (some true, w)
  unfolding write_loop
  loop_from_nil zero j num reqs W send w h = elim h [ ]
  loop_from_nil (suc fuel) j num reqs W send w h = refl

  send_full :
      (fuel : ℕ) (rest : List (Series F)) (j : ℕ) (f : Filled F)
      → 0 < n
      → sample_count f.requests ≡ f.num_samples
      → f.num_samples ≡ n
      → HeadOf rest j f.requests
      → Continues fuel rest j
      → Plan (rest_of_round fuel rest j f) (samples f.requests ++ remaining rest j)
  unfolding send_all samples sample_count
  send_full fuel rest j f pos counted full head next =
      let (qs, same, got, packed) =
        next 0 [] pos refl (HeadOf-reset rest j f.requests head) (Ended-nil rest) in
      (
        f.requests ∷ qs,
        λ W send w.
            rw ((nat_beq_iff f.num_samples n).1 full) (rw (same W send (send f.requests w).1)),
        rw got,
        Packed-cons n f.requests qs (omega arith) packed,
      )

  round-Plan :
      (fuel : ℕ) (rest : List (Series F)) (j : ℕ) (f : Filled F)
      → 0 < n
      → 0 < fuel
      → f.num_samples ≤ n
      → sample_count f.requests ≡ f.num_samples
      → HeadOf rest j f.requests
      → Continues fuel rest j
      → Plan (rest_of_round fuel rest j f) (samples f.requests ++ remaining rest j)
  unfolding send_all remaining
  round-Plan fuel [] j f pos some_fuel bounded counted head next = (
    f.requests ∷ [],
    λ W send w.
        let last : loop_from fuel [] j 0 [] W send (send f.requests w).1
            ≡ (some true, (send f.requests w).1) =
          loop_from_nil fuel j 0 [] W send (send f.requests w).1 some_fuel in
        elim (Bool-cases (nat_beq f.num_samples n)) [
          | inl full ↦ rw (full, last)
          | inr less ↦ rw (less, last)
        ],
    refl,
    omega arith,
  )
  round-Plan fuel (s ∷ rest) j f pos some_fuel bounded counted head next =
      elim (Bool-cases (nat_beq f.num_samples n)) [
        | inl full ↦ send_full fuel (s ∷ rest) j f pos counted ((nat_beq_iff _ _).0 full) head next
        | inr more ↦
            let (qs, same, got, packed) =
              next f.num_samples f.requests (ground arith) counted head tt in
            (qs, (λ W send w. rw more (same W send w)), got, packed)
      ]

  loop-Plan :
      (fuel : ℕ) (series : List (Series F)) (i num : ℕ) (reqs : List (Series F))
      → num < n
      → sample_count reqs ≡ num
      → HeadOf series i reqs
      → Ended series reqs
      → measure series i < fuel
      → Plan (loop_from fuel series i num reqs) (samples reqs ++ remaining series i)
  unfolding write_loop send_all remaining samples
  loop-Plan zero series i num reqs room count head ended enough = elim enough [ ]
  loop-Plan (suc fuel) [] i num reqs room count head ended enough =
      ([], (λ W send w. refl), rw ended, tt)
  loop-Plan (suc fuel) (s ∷ more) i num reqs room count head ended enough =
      let r : Round n s.labels s.data_points more i num reqs =
        round n s.labels s.data_points more i num reqs room head in
      let (qs, same, got, packed) =
        round-Plan fuel _ _ (fill n s i num reqs) (omega arith) (omega (arith, r)) r.bounded
          (r.counted count) r.next
          (λ num' reqs' a b c d.
            loop-Plan fuel _ _ num' reqs' a b c d (omega (arith, r.smaller))) in
      (qs, same, got ∙ r.kept, packed)

  -- With a positive request size, `writeRange` ends, on every world and with every way to send: it
  -- sends the requests of one sequence in order up to the first that is given up. Together they
  -- carry exactly the samples of the range, in order, and each but the last is full.
  pub write_range_delivers :
      (series : List (Series F))
      → 0 < n
      → Plan (λ W send w. write_range send n series w) (samples series)
  unfolding write_range sample_count remaining samples
  write_range_delivers series pos =
      let (qs, same, got, packed) =
        loop-Plan (suc (sample_count series + length series)) series 0 0 [] pos refl
          (HeadOf-zero series []) (Ended-nil series) (omega arith) in
      (qs, same, got ∙ remaining-zero series, packed)

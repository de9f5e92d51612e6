-- ===== src/Metrics/RemoteWrite/Range/Round.antt =====
-- One round of the loop of `writeRange`: no sample is lost, doubled or moved, the request stays
-- within its size, and the loop comes nearer to its end.
use k4e_device_worker.Prelude.{
  ℕ, ◌+◌, ◌-◌, ◌≤◌, ◌<◌, String, ◌≡◌, ◌≢◌, ◌⊎◌, inl, inr, refl, ap, sym, ◌∙◌, true, false, List, [],
  ◌∷◌, ◌++◌, append_assoc, arith, Map, nat_beq, Bool-cases, length, take, drop, length-take,
  length-drop, take-append-drop, drop-drop, drop_all, nat_beq_iff,
}
use k4e_device_worker.Metrics.Series.{
  DataPoint, Series, Sample, label_all, samples, sample_count, label_all-append,
}
use k4e_device_worker.Metrics.RemoteWrite.Range.{
  Filled, append_to_last, open_series, num_to_use, fill, advance,
}
use k4e_device_worker.Metrics.RemoteWrite.Range.Filling.{
  LastLabels, remaining, samples-append_to_last, count-append_to_last, LastLabels-append_to_last,
  Opened, open_series-Opened, num_to_use_bounds,
}

module _ {F : Type 0} where
  -- Where the loop stands at its head: in front of a series or inside it, and inside it the request
  -- either was reset or ends with that series.
  abbrev pub HeadOf : List (Series F) → ℕ → List (Series F) → Type 0
  HeadOf [] i reqs = Unit {0}
  HeadOf (s ∷ rest) i reqs =
      ((i ≡ 0) ⊎ (i < length s.data_points)) × (i ≢ 0 → LastLabels s.labels reqs)

  abbrev pub measure : List (Series F) → ℕ → ℕ
  measure xs i = sample_count xs + length xs - i

  pub remaining-zero : (xs : List (Series F)) → remaining xs 0 ≡ samples xs
  unfolding remaining samples
  remaining-zero [] = refl
  remaining-zero (s ∷ rest) = refl

  pub HeadOf-zero : (xs reqs : List (Series F)) → HeadOf xs 0 reqs
  HeadOf-zero [] reqs = tt
  HeadOf-zero (s ∷ rest) reqs = (inl refl, λ h. absurd (h refl))

  label_all_split :
      (l : Map String String) (ps : List (DataPoint F)) (i used : ℕ)
      → label_all l (drop i ps)
        ≡ label_all l (take used (drop i ps)) ++ label_all l (drop (i + used) ps)
  label_all_split l ps i used = rw (← drop-drop i used ps, ← label_all-append, take-append-drop)

  module _ (n : ℕ) (l : Map String String) (ps : List (DataPoint F)) (more : List (Series F))
      (i num : ℕ) (reqs : List (Series F)) where
    abbrev current : Series F
    current = record { labels = l; data_points = ps }

    pub record RoundTo (after : Filled F) (rest : List (Series F)) (index : ℕ) : Type 0 where
      pub kept :
          samples after.requests ++ remaining rest index
          ≡ samples reqs ++ remaining (current ∷ more) i
      pub counted : sample_count reqs ≡ num → sample_count after.requests ≡ after.num_samples
      pub bounded : after.num_samples ≤ n
      pub next : HeadOf rest index after.requests
      pub smaller : measure rest index < measure (current ∷ more) i

    abbrev pub after : Filled F
    after = fill n current i num reqs

    abbrev pub Round : Type 0
    Round =
        RoundTo after (advance current more after.sample_index).0
          (advance current more after.sample_index).1

    module _ (room : num < n) (head : HeadOf (current ∷ more) i reqs) where
      round_empty : length ps ≡ 0 → Round
      unfolding fill advance sample_count remaining label_all samples
      round_empty e =
          let at_end : i ≡ length ps = omega (arith, head.0) in
          let test : nat_beq (length ps) 0 ≡ true = ground arith in
          let done : nat_beq i (length ps) ≡ true = ground arith in
          let gone : drop i ps ≡ [] = rw at_end (drop_all ps) in
          rw (test, done)
            (record {
              kept = rw gone (rw remaining-zero refl);
              counted = λ c. c;
              bounded = omega arith;
              next = HeadOf-zero more reqs;
              smaller = omega arith;
            })

      abbrev used : ℕ
      used = num_to_use n current i num

      module _ (inside : i < length ps) where
        opened : Opened current reqs (open_series current i reqs)
        opened = open_series-Opened current i reqs head.1

        bounds :
            (0 < used)
            × (num + used ≤ n)
            × (i + used ≤ length ps)
            × ((num + used ≡ n) ⊎ (i + used ≡ length ps))
        bounds = num_to_use_bounds n current i num room inside

        moved : List (Series F)
        moved = append_to_last (open_series current i reqs) (take used (drop i ps))

        samples-moved : samples moved ≡ samples reqs ++ label_all l (take used (drop i ps))
        unfolding moved
        samples-moved =
            rw
              (samples-append_to_last l (open_series current i reqs) (take used (drop i ps))
                opened.last opened.present)
              (rw opened.same_samples)

        kept_used :
            (xs : List (Sample F))
            → samples moved ++ (label_all l (drop (i + used) ps) ++ xs)
              ≡ samples reqs ++ (label_all l (drop i ps) ++ xs)
        kept_used xs = rw (samples-moved, label_all_split l ps i used) (simp append_assoc)

        kept_done :
            i + used ≡ length ps
            → (xs : List (Sample F))
            → samples moved ++ xs ≡ samples reqs ++ (label_all l (drop i ps) ++ xs)
        unfolding label_all
        kept_done e xs =
            let gone : drop (i + used) ps ≡ [] = rw e (drop_all ps) in
            sym (ap (λ (ys : List (DataPoint F)). samples moved ++ (label_all l ys ++ xs)) gone)
            ∙ kept_used xs

        count-moved : sample_count moved ≡ sample_count reqs + used
        unfolding moved
        count-moved = omega (
          arith,
          count-append_to_last (open_series current i reqs) (take used (drop i ps)) opened.present,
          opened.same_count,
          length-take used (drop i ps),
          length-drop i ps,
          bounds,
        )

        last-moved : LastLabels l moved
        unfolding moved
        last-moved = LastLabels-append_to_last l (open_series current i reqs) _ opened.last

        round_used : Round
        unfolding fill advance sample_count remaining moved
        round_used =
            let test : nat_beq (length ps) 0 ≡ false = ground arith in
            rw test (elim (Bool-cases (nat_beq (i + used) (length ps))) [
              | inl done ↦ rw done (record {
                kept =
                    rw remaining-zero
                      (kept_done ((nat_beq_iff (i + used) (length ps)).0 done) (samples more));
                counted = λ c. omega (arith, count-moved);
                bounded = bounds.1;
                next = HeadOf-zero more _;
                smaller = omega (arith, bounds);
              })
              | inr more_left ↦ rw more_left (record {
                kept = kept_used (samples more);
                counted = λ c. omega (arith, count-moved);
                bounded = bounds.1;
                next = (inr (ground (arith, bounds)), λ _. last-moved);
                smaller = omega (arith, bounds);
              })
            ])

      pub round : Round
      round = elim (Bool-cases (nat_beq (length ps) 0)) [
        | inl e ↦ round_empty ((nat_beq_iff _ _).0 e)
        | inr e ↦ round_used (ground arith)
      ]

-- ===== src/Metrics/Database/Retention.antt =====
-- The retention of the metrics after an update.
use k4e_device_worker.Prelude.{
  ◌≡◌, refl, ap, ◌∙◌, true, false, Option, none, some, integer_key, Err, Bool-cases, inl, inr,
  beq_refl,
}
use k4e_device_worker.Metrics.Database.{
  Env, Tsdb, Options, MetricsRetention, wanted_options, same_options, reopened, closed,
  update_retention,
}

same_options_refl : (o : Options) → same_options o o ≡ true
same_options_refl o = rw (beq_refl o.retention_duration, beq_refl o.max_bytes) refl

module _ {W F : Type 0} (env : Env W F) where
  reopened-ok :
      (t : Tsdb) (x : Option Err × W)
      → (reopened env t x).0 ≡ none
      → ((reopened env t x).1.is_open ≡ true)
        × ((reopened env t x).1.applied_options ≡ t.applied_options)
  unfolding reopened
  reopened-ok t (some e, w) h = cc
  reopened-ok t (none, w) h = (refl, refl)

  closed-ok :
      (o : Options) (t : Tsdb) (x : Option Err × W)
      → (closed env o t x).0 ≡ none
      → ((closed env o t x).1.is_open ≡ true) × ((closed env o t x).1.applied_options ≡ o)
  unfolding closed
  closed-ok o t (some e, w) h = cc
  closed-ok o t (none, w) h =
      reopened-ok (record { applied_options = o; is_open = false }) (env.open_db o w) h

  -- An update without an error leaves the options that the configuration asks for applied, and an
  -- open database open.
  pub update_retention-ok :
      (r : Option MetricsRetention) (t : Tsdb) (w : W)
      → (update_retention env r t w).0 ≡ none
      → t.is_open ≡ true
      → ((update_retention env r t w).1.is_open ≡ true)
        × (same_options (wanted_options r) (update_retention env r t w).1.applied_options ≡ true)
  unfolding update_retention
  update_retention-ok r t w h opened =
      elim (Bool-cases (same_options (wanted_options r) t.applied_options)) [
        | inl same ↦ rw same (opened, same)
        | inr changed ↦
            let went = rw changed at h in
            let (opens, applied) = closed-ok (wanted_options r) t (env.close_db w) went in
            rw changed (
              opens,
              ap (same_options (wanted_options r)) applied ∙ same_options_refl (wanted_options r),
            )
      ]

  reopened_failed :
      (t : Tsdb) (x : Option Err × W) (e : Err)
      → x.0 ≡ some e
      → ((reopened env t x).0 ≡ some e) × ((reopened env t x).1 ≡ t)
  unfolding reopened
  reopened_failed t (none, w) e h = cc
  reopened_failed t (some d, w) e h = (h, refl)

  closed_failed :
      (o : Options) (t : Tsdb) (x : Option Err × W) (e : Err)
      → x.0 ≡ none
      → (env.open_db o x.1).0 ≡ some e
      → ((closed env o t x).0 ≡ some e)
        × ((closed env o t x).1 ≡ record { applied_options = o; is_open = false })
  unfolding closed
  closed_failed o t (some d, w) e h fails = cc
  closed_failed o t (none, w) e h fails =
      reopened_failed (record { applied_options = o; is_open = false }) (env.open_db o w) e fails

  again :
      (r : Option MetricsRetention) (v : W)
      → update_retention env r (record { applied_options = wanted_options r; is_open = false }) v
        ≡ (none, record { applied_options = wanted_options r; is_open = false }, v)
  unfolding update_retention
  again r v = rw (same_options_refl (wanted_options r)) refl

  -- Where the options change and the database can be closed but not opened again, the update reports
  -- the error; the same configuration is then taken for one that is applied: it is accepted without
  -- an error, and the database stays closed.
  pub update_retention_not_retried :
      (r : Option MetricsRetention) (t : Tsdb) (w : W) (e : Err)
      → same_options (wanted_options r) t.applied_options ≡ false
      → (env.close_db w).0 ≡ none
      → (env.open_db (wanted_options r) (env.close_db w).1).0 ≡ some e
      → ((update_retention env r t w).0 ≡ some e)
        × ((v : W) → (update_retention env r (update_retention env r t w).1 v).0 ≡ none)
        × ((v : W) → (update_retention env r (update_retention env r t w).1 v).1.is_open ≡ false)
  unfolding update_retention
  update_retention_not_retried r t w e changed closes fails =
      let (error, left) = closed_failed (wanted_options r) t (env.close_db w) e closes fails in
      rw changed (
        error,
        (λ v. ap (λ u. (update_retention env r u v).0) left ∙ ap (λ x. x.0) (again r v)),
        (λ v.
            ap (λ u. (update_retention env r u v).1.is_open) left
            ∙ ap (λ x. x.1.is_open) (again r v)),
      )

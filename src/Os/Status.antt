-- ===== src/Os/Status.antt =====
-- What the status of an upgrade says of the deployments.
use k4e_device_worker.Prelude.{
  ◌≡◌, refl, ap, ◌∙◌, false, List, [], ◌∷◌, String, if◌then◌else◌, ◌==◌, text_key, Bool-cases, inl,
  inr,
}
use k4e_device_worker.Os.{
  Os, Deployment, Env, note_deployments, note_booted, note_requested, unknown_os_image_id,
}

-- The checksum of the last deployment that is booted, or what was known before.
abbrev pub last_booted : List Deployment → String → String
last_booted [] known = known
last_booted (d ∷ rest) known = last_booted rest (if d.booted then d.checksum else known)

-- The status by the last deployment of the requested commit, or what was known before.
abbrev pub status_of : String → List Deployment → String → String
status_of commit [] known = known
status_of commit (d ∷ rest) known =
    status_of commit rest
      (if d.checksum == commit then (if d.booted then "succeeded" else "failed") else known)

module _ {W : Type 0} (env : Env W) where
  abbrev note_one : Deployment → Os → Os
  note_one d o = note_requested env d (note_booted env d o)

  -- One deployment, for an operating system with a requested commit.
  note_one-status :
      (d : Deployment) (o : Os)
      → (o.requested_os_commit == unknown_os_image_id) ≡ false
      → ((note_one d o).os_commit ≡ (if d.booted then d.checksum else o.os_commit))
        × ((note_one d o).requested_os_commit ≡ o.requested_os_commit)
        × ((note_one d o).last_upgrade_status ≡ (
            if d.checksum == o.requested_os_commit
            then (if d.booted then "succeeded" else "failed")
            else o.last_upgrade_status))
  unfolding note_requested note_booted
  note_one-status d o known = elim (Bool-cases d.booted) [
    | inl booted ↦ elim (Bool-cases (d.checksum == o.requested_os_commit)) [
      | inl wanted ↦ rw (booted, known, wanted) (refl, refl, refl)
      | inr other ↦ rw (booted, known, other) (refl, refl, refl)
    ]
    | inr idle ↦ elim (Bool-cases (d.checksum == o.requested_os_commit)) [
      | inl wanted ↦ rw (idle, wanted) (refl, refl, refl)
      | inr other ↦ rw (idle, other) (refl, refl, refl)
    ]
  ]

  -- Once a commit was requested, the status is read off the deployments: the current commit is that
  -- of the last one that is booted, and the upgrade succeeded or failed as the last one of the
  -- requested commit is booted or not; where there is none, what was known before stays.
  pub note_deployments-status :
      (deployments : List Deployment) (o : Os)
      → (o.requested_os_commit == unknown_os_image_id) ≡ false
      → ((note_deployments env deployments o).os_commit ≡ last_booted deployments o.os_commit)
        × ((note_deployments env deployments o).last_upgrade_status
            ≡ status_of o.requested_os_commit deployments o.last_upgrade_status)
  unfolding note_deployments
  note_deployments-status [] o known = (refl, refl)
  note_deployments-status (d ∷ rest) o known =
      let (commit, requested, status) = note_one-status d o known in
      let (commits, statuses) =
        note_deployments-status rest (note_one d o)
          (ap (λ r. r == unknown_os_image_id) requested ∙ known) in
      (
        commits ∙ ap (last_booted rest) commit,
        statuses
            ∙ (ap (λ r. status_of r rest (note_one d o).last_upgrade_status) requested
                ∙ ap (status_of o.requested_os_commit rest) status),
      )

-- ===== src/Os/Upgrade.antt =====
-- What becomes of an upgrade that failed.
use k4e_device_worker.Prelude.{
  ◌≡◌, refl, sym, ap, ◌∙◌, true, false, Option, none, some, String, ◌==◌, text_key, Err, Bool-cases,
  inl, inr, beq_refl,
}
use mathlib.Core.Bool.{true≢false}
use k4e_device_worker.Os.{
  Os, OsInformation, Env, update, update_enabled, url_updated, request_commit,
}

module _ {W : Type 0} (env : Env W) where
  -- Nothing of the information is new.
  abbrev IsRequested : OsInformation → Os → Type 0
  IsRequested info o =
      (o.enabled ≡ true)
      × ((info.hosted_objects_url == o.hosted_objects_url) ≡ true)
      × ((info.commit_id == o.requested_os_commit) ≡ true)

  requested_update :
      (info : OsInformation) (o : Os) (w : W)
      → IsRequested info o
      → update env (some info) o w ≡ (none, o, w)
  unfolding update update_enabled request_commit
  requested_update info o w (on, url, commit) = rw (on, url, commit)

  request_commit-kept :
      (commit : String) (o : Os) (w : W)
      → ((request_commit env commit o w).1.enabled ≡ o.enabled)
        × ((request_commit env commit o w).1.hosted_objects_url ≡ o.hosted_objects_url)
        × ((commit == (request_commit env commit o w).1.requested_os_commit) ≡ true)
  unfolding request_commit
  request_commit-kept commit o w = elim (Bool-cases (commit == o.requested_os_commit)) [
    | inl same ↦ rw (same, same) (refl, refl, refl)
    | inr new ↦ elim (Bool-cases o.automatically_upgrade) [
      | inl automatic ↦ rw (new, automatic) (refl, refl, beq_refl commit)
      | inr manual ↦ rw (new, manual) (refl, refl, beq_refl commit)
    ]
  ]

  request_commit-IsRequested :
      (info : OsInformation) (o : Os) (w : W)
      → o.enabled ≡ true
      → (info.hosted_objects_url == o.hosted_objects_url) ≡ true
      → IsRequested info (request_commit env info.commit_id o w).1
  request_commit-IsRequested info o w on url =
      let (enabled, kept, commit) = request_commit-kept info.commit_id o w in
      (enabled ∙ on, ap (λ u. info.hosted_objects_url == u) kept ∙ url, commit)

  url_updated-IsRequested :
      (info : OsInformation) (o : Os) (x : Option Err × W)
      → o.enabled ≡ true
      → (url_updated env info o x).1.hosted_objects_url ≡ info.hosted_objects_url
      → (info.hosted_objects_url == o.hosted_objects_url) ≡ false
      → IsRequested info (url_updated env info o x).1
  unfolding url_updated
  url_updated-IsRequested info o (some e, w) on reached new = absurd (
      true≢false (
        sym (ap (λ u. info.hosted_objects_url == u) reached ∙ beq_refl info.hosted_objects_url)
        ∙ new))
  url_updated-IsRequested info o (none, w) on reached new =
      request_commit-IsRequested info (record o { hosted_objects_url = info.hosted_objects_url }) w
        on (beq_refl info.hosted_objects_url)

  update_enabled-IsRequested :
      (info : OsInformation) (o : Os) (w : W)
      → o.enabled ≡ true
      → (update_enabled env info o w).1.hosted_objects_url ≡ info.hosted_objects_url
      → IsRequested info (update_enabled env info o w).1
  unfolding update_enabled
  update_enabled-IsRequested info o w on reached =
      elim (Bool-cases (info.hosted_objects_url == o.hosted_objects_url)) [
        | inl same ↦ rw same (request_commit-IsRequested info o w on same)
        | inr new ↦ rw new (
            url_updated-IsRequested info o (env.update_url info.hosted_objects_url w) on
              (sym (rw new) ∙ reached) new)
      ]

  -- An update that got past the address of the remote is the only one for its commit: the same
  -- information is ignored from then on, even if the upgrade failed before the system was upgraded.
  pub update_not_retried :
      (info : OsInformation) (o : Os) (w v : W)
      → o.enabled ≡ true
      → (update env (some info) o w).1.hosted_objects_url ≡ info.hosted_objects_url
      → update env (some info) (update env (some info) o w).1 v
        ≡ (none, (update env (some info) o w).1, v)
  update_not_retried info o w v on reached =
      let first : update env (some info) o w ≡ update_enabled env info o w =
        unfold update in rw on in
      ap (λ x. update env (some info) x.1 v) first
      ∙ (requested_update info (update_enabled env info o w).1 v (
            update_enabled-IsRequested info o w on
              (sym (ap (λ x. x.1.hosted_objects_url) first) ∙ reached))
          ∙ ap (λ x. (none, x.1, v)) (sym first))

-- ===== src/Os.antt =====
-- `OS` of internal/os/os.go: upgrades of the operating system and their status. The calls of
-- rpm-ostree, the encoding of its status and the other goroutines of a reboot are parameters.
pub mod Upgrade
pub mod Status
pub mod Commands
mod Examples
use k4e_device_worker.Prelude.{
  Bool, true, false, not, Option, none, some, List, [], ◌∷◌, String, if◌then◌else◌, ◌==◌, text_key,
  ℤ, Result, ok, err, Err, Exec, pure, raise, guard, ignore, check, change, ◌>>=◌, ◌>>◌, ◌⧺◌,
}
use k4e_device_worker.Workload.Netfilter.{contains_text}

pub record Deployment : Type 0 where
  pub checksum : String
  pub timestamp : ℤ
  pub booted : Bool

pub record Os : Type 0 where
  pub automatically_upgrade : Bool
  pub os_commit : String
  pub requested_os_commit : String
  pub hosted_objects_url : String
  pub last_upgrade_status : String
  pub last_upgrade_time : String
  pub enabled : Bool

-- models.OsInformation, as far as `Update` reads it
pub record OsInformation : Type 0 where
  pub commit_id : String
  pub hosted_objects_url : String

-- `OsExecCommands`, with `graceful_reboot` for the signals of `gracefulRebootFlow`, which ends by
-- an answer or after ten seconds
pub record Env (W : Type 0) : Type 0 where
  pub is_available : W → Bool
  pub status : W → Result String × W
  pub parse_status : String → Result (List Deployment)
  pub time_text : ℤ → String
  pub update_url : String → W → Option Err × W
  pub update_preview : Exec W String
  pub ensure_health_check : W → Option Err × W
  pub ensure_fail_script : W → Option Err × W
  pub upgrade : W → Option Err × W
  pub graceful_reboot : W → W
  pub reboot : W → Option Err × W

abbrev pub unknown_os_image_id : String
unknown_os_image_id = "unknown"

unfoldable pub new_os : {W : Type 0} → Env W → W → Os
new_os env w = record {
  automatically_upgrade = true;
  os_commit = unknown_os_image_id;
  requested_os_commit = unknown_os_image_id;
  hosted_objects_url = "";
  last_upgrade_status = "";
  last_upgrade_time = "";
  enabled = env.is_available w;
}

module _ {W : Type 0} (env : Env W) where
  -- the first test of the loop of `updateOsStatus`
  unfoldable pub note_booted : Deployment → Os → Os
  note_booted d o =
      if d.booted
      then (if o.requested_os_commit == unknown_os_image_id
          then record o {
            os_commit = d.checksum;
            last_upgrade_time = env.time_text d.timestamp;
            last_upgrade_status = "succeeded";
          }
          else record o { os_commit = d.checksum })
      else o

  -- its second test
  unfoldable pub note_requested : Deployment → Os → Os
  note_requested d o =
      if d.checksum == o.requested_os_commit
      then record o {
        last_upgrade_time = env.time_text d.timestamp;
        last_upgrade_status = if d.booted then "succeeded" else "failed";
      }
      else o

  unfoldable pub note_deployments : List Deployment → Os → Os
  unfolding note_booted note_requested
  note_deployments [] o = o
  note_deployments (d ∷ rest) o = note_deployments rest (note_requested d (note_booted d o))

  noted : Result (List Deployment) → Os → Os
  unfolding note_deployments
  noted (err e) o = o
  noted (ok deployments) o = note_deployments deployments o

  from_status : Os → Result String × W → Os × W
  unfolding noted
  from_status o (err e, w) = (o, w)
  from_status o (ok text, w) = (noted (env.parse_status text) o, w)

  unfoldable pub update_os_status : Os → W → Os × W
  unfolding from_status
  update_os_status o w = from_status o (env.status w)

  unfoldable pub get_upgrade_status : Os → W → Os × W
  unfolding update_os_status
  get_upgrade_status o w =
      let updated = update_os_status o w in if o.enabled then updated else (o, w)

  unfoldable pub update_greenboot_scripts : Exec W (Unit {0})
  update_greenboot_scripts = do check env.ensure_health_check; check env.ensure_fail_script

  -- What `Update` does for a new commit.
  unfoldable pub upgrade_to : String → Exec W (Unit {0})
  unfolding update_greenboot_scripts
  upgrade_to commit = do
    stdout ← env.update_preview
    guard (contains_text stdout commit) ("cannot find the new commit ID. " ⧺ commit)
    update_greenboot_scripts
    check env.upgrade
    change env.graceful_reboot
    check env.reboot

  unfoldable pub error_and_world : Result (Unit {0}) × W → Option Err × W
  error_and_world (ok a, w) = (none, w)
  error_and_world (err e, w) = (some e, w)

  -- The commit is noted as the requested one before anything is done for it.
  unfoldable pub request_commit : String → Os → W → Option Err × Os × W
  unfolding upgrade_to error_and_world
  request_commit commit o w =
      let o' : Os = record o { requested_os_commit = commit } in
      let (e, w') = error_and_world (upgrade_to commit w) in
      if commit == o.requested_os_commit
      then (none, o, w)
      else (if o.automatically_upgrade then (e, o', w') else (none, o', w))

  unfoldable pub url_updated : OsInformation → Os → Option Err × W → Option Err × Os × W
  unfolding request_commit
  url_updated info o (some e, w) = (some e, o, w)
  url_updated info o (none, w) =
      request_commit info.commit_id (record o { hosted_objects_url = info.hosted_objects_url }) w

  unfoldable pub update_enabled : OsInformation → Os → W → Option Err × Os × W
  unfolding url_updated
  update_enabled info o w =
      if info.hosted_objects_url == o.hosted_objects_url
      then request_commit info.commit_id o w
      else url_updated info o (env.update_url info.hosted_objects_url w)

  -- `Update`, which is `Init` too
  unfoldable pub update : Option OsInformation → Os → W → Option Err × Os × W
  unfolding update_enabled
  update none o w = (none, o, w)
  update (some info) o w = if o.enabled then update_enabled info o w else (none, o, w)

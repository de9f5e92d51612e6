-- ===== src/Workload/Secrets.antt =====
-- `updateSecrets` of internal/workload/manager.go: the secrets of podman are made those of the
-- configuration. The calls of podman are parameters.
pub mod Synced
use k4e_device_worker.Prelude.{
  Bool, true, false, Option, none, some, List, [], ◌∷◌, ◌++◌, String, Map, keys, remove, has,
  if◌then◌else◌, text_key, Result, ok, err, Err, collect,
}

-- models.Secret
pub record Secret : Type 0 where
  pub name : String
  pub data_text : String

-- `ListSecrets` gives the set of the names.
pub record Podman (W : Type 0) : Type 0 where
  pub list_secrets : W → Result (Map String (Unit {0})) × W
  pub create_secret : String → String → W → Option Err × W
  pub update_secret : String → String → W → Option Err × W
  pub remove_secret : String → W → Option Err × W

module _ {W : Type 0} (podman : Podman W) where
  -- The errors, the device's names that the configuration does not have, and the world.
  abbrev pub Synced : Type 0
  Synced = List Err × Map String (Unit {0}) × W

  abbrev pub put_secret : Bool → Secret → W → Option Err × W
  put_secret true s w = podman.update_secret s.name s.data_text w
  put_secret false s w = podman.create_secret s.name s.data_text w

  -- the loop over `configSecrets`: what is there is updated, and what is not is created
  unfoldable pub sync_secrets : List Secret → Map String (Unit {0}) → W → Synced
  sync_secrets [] device w = ([], device, w)
  sync_secrets (s ∷ rest) device w =
      let known = has device s.name in
      let (e, w1) = put_secret known s w in
      let (errs, device', w2) =
        sync_secrets rest (if known then remove device s.name else device) w1 in
      (collect [] e ++ errs, device', w2)

  -- the loop over the names that are left
  unfoldable pub remove_secrets : List String → W → List Err × W
  remove_secrets [] w = ([], w)
  remove_secrets (name ∷ rest) w =
      let (e, w1) = podman.remove_secret name w in
      let (errs, w2) = remove_secrets rest w1 in (collect [] e ++ errs, w2)

  unfoldable pub drop_unknown : Synced → List Err × W
  unfolding remove_secrets
  drop_unknown (errs, device, w) =
      let (errs', w') = remove_secrets (keys device) w in (errs ++ errs', w')

  unfoldable pub sync_listed : List Secret → Result (Map String (Unit {0})) × W → List Err × W
  unfolding sync_secrets drop_unknown
  sync_listed secrets (err e, w) = (e ∷ [], w)
  sync_listed secrets (ok device, w) = drop_unknown (sync_secrets secrets device w)

  unfoldable pub update_secrets : List Secret → W → List Err × W
  unfolding sync_listed
  update_secrets secrets w = sync_listed secrets (podman.list_secrets w)

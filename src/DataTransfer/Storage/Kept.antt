-- ===== src/DataTransfer/Storage/Kept.antt =====
-- Which storage the monitor has after messages, and which one it sends to.
use k4e_device_worker.Prelude.{
  ◌≡◌, refl, sym, ap, ◌∙◌, Bool, true, false, Option, none, some, List, [], ◌∷◌, String, Result, ok,
  err, Err, ◌⧺◌,
}
use k4e_device_worker.DataTransfer.Storage.{
  Env, Sync, S3StorageConfiguration, new_sync, update_storage, storage_made, connect_once,
  session_made, connect_sync, sync_path, get_fs_sync, access_decoded, secret_decoded,
  bundle_decoded,
}

module _ {W B : Type 0} (env : Env W B) where
  -- The storages after messages, one after the other
  unfoldable pub update_all :
      List (Option S3StorageConfiguration) → Option (Sync B) → Option (Sync B)
  update_all [] now = now
  update_all (c ∷ rest) now = update_all rest (update_storage env c now).1

  -- A message that gives no storage: it has none, or one whose keys cannot be decoded.
  abbrev pub GivesNone : Option S3StorageConfiguration → Type 0
  GivesNone none = Unit {0}
  GivesNone (some c) = (e : Err) × (new_sync env c ≡ err e)

  abbrev pub NoneGives : List (Option S3StorageConfiguration) → Type 0
  NoneGives [] = Unit {0}
  NoneGives (c ∷ rest) = GivesNone c × NoneGives rest

  update_storage_same :
      (c : Option S3StorageConfiguration) (now : Option (Sync B))
      → GivesNone c
      → (update_storage env c now).1 ≡ now
  unfolding update_storage storage_made
  update_storage_same none now h = refl
  update_storage_same (some c) now (e, fails) = ap (λ r. (storage_made env now r).1) fails

  update_all_same :
      (later : List (Option S3StorageConfiguration)) (now : Option (Sync B))
      → NoneGives later
      → update_all later now ≡ now
  unfolding update_all
  update_all_same [] now h = refl
  update_all_same (c ∷ rest) now (one, h) =
      update_all_same rest (update_storage env c now).1 h ∙ update_storage_same c now one

  -- Of a storage that was made, the bucket and whether it is connected
  abbrev made_name : String → Result (Sync B) → String
  made_name name (ok s) = s.bucket_name
  made_name name (err e) = name

  abbrev made_connected : Result (Sync B) → Bool
  made_connected (ok s) = s.is_connected
  made_connected (err e) = false

  bundle_decoded_name :
      (c : S3StorageConfiguration) (a b : B) (r : Result B) (s : Sync B)
      → bundle_decoded env c a b r ≡ ok s
      → (s.bucket_name ≡ c.bucket_name) × (s.is_connected ≡ false)
  unfolding bundle_decoded
  bundle_decoded_name c a b (err e) s h = cc
  bundle_decoded_name c a b (ok t) s h =
      (sym (ap (made_name c.bucket_name) h), sym (ap made_connected h))

  secret_decoded_name :
      (c : S3StorageConfiguration) (a : B) (r : Result B) (s : Sync B)
      → secret_decoded env c a r ≡ ok s
      → (s.bucket_name ≡ c.bucket_name) × (s.is_connected ≡ false)
  unfolding secret_decoded
  secret_decoded_name c a (err e) s h = cc
  secret_decoded_name c a (ok b) s h =
      bundle_decoded_name c a b (env.decode_base64 c.aws_ca_bundle) s h

  access_decoded_name :
      (c : S3StorageConfiguration) (r : Result B) (s : Sync B)
      → access_decoded env c r ≡ ok s
      → (s.bucket_name ≡ c.bucket_name) × (s.is_connected ≡ false)
  unfolding access_decoded
  access_decoded_name c (err e) s h = cc
  access_decoded_name c (ok a) s h =
      secret_decoded_name c a (env.decode_base64 c.aws_secret_access_key) s h

  connect_made :
      (s : Sync B) (w : W)
      → s.is_connected ≡ false
      → (env.new_session s w).0 ≡ none
      → connect_sync env s w ≡ (none, record s { is_connected = true }, (env.new_session s w).1)
  unfolding connect_sync connect_once session_made
  connect_made s w fresh made =
      ap (λ b. connect_once env s w b) fresh
      ∙ ap (λ e. session_made env s (e, (env.new_session s w).1)) made

  sync_path_to :
      (s : Sync B) (name source target : String) (w : W)
      → s.bucket_name ≡ name
      → sync_path env (record s { is_connected = true }) source target w
        ≡ some (env.sync source ("s3://" ⧺ (name ⧺ ("/" ⧺ target))) w)
  unfolding sync_path
  sync_path_to s name source target w same =
      ap (λ n. some (env.sync source ("s3://" ⧺ (n ⧺ ("/" ⧺ target))) w)) same

  -- After one message whose keys can be decoded, and then messages that have no storage or one whose
  -- keys cannot be decoded, the monitor has the storage of the one that could be decoded. Once a
  -- session is made for it, every file goes to that message's bucket, whatever the later messages
  -- name, and no second session is made.
  pub update_all-sync_path :
      (c : S3StorageConfiguration) (s : Sync B) (later : List (Option S3StorageConfiguration))
      (now : Option (Sync B)) (w : W)
      → new_sync env c ≡ ok s
      → NoneGives later
      → (env.new_session s w).0 ≡ none
      → (get_fs_sync env (update_all (some c ∷ later) now) ≡ ok s)
        × (connect_sync env s w ≡ (none, record s { is_connected = true }, (env.new_session s w).1))
        × ((v : W)
            → connect_sync env (record s { is_connected = true }) v
              ≡ (none, record s { is_connected = true }, v))
        × ((source target : String) (v : W)
            → sync_path env (record s { is_connected = true }) source target v
              ≡ some (env.sync source ("s3://" ⧺ (c.bucket_name ⧺ ("/" ⧺ target))) v))
  unfolding update_all update_storage storage_made get_fs_sync connect_sync connect_once new_sync
  update_all-sync_path c s later now w made h session =
      let (name, fresh) = access_decoded_name c (env.decode_base64 c.aws_access_key_id) s made in
      (
        ap (λ o. get_fs_sync env o)
            (update_all_same later (update_storage env (some c) now).1 h
              ∙ ap (λ r. (storage_made env now r).1) made),
        connect_made s w fresh session,
        (λ v. refl),
        (λ source target v. sync_path_to s c.bucket_name source target v name),
      )

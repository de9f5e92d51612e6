-- ===== src/Workload/Secrets/Synced.antt =====
-- What podman holds after the secrets were updated.
use k4e_device_worker.Prelude.{
  nil_left, nil_right, ◌≡◌, refl, sym, ap, ◌∙◌, Bool, true, false, not, ◌&&◌, ◌||◌, Option, none,
  some, List, [], ◌∷◌, ◌++◌, String, Map, keys, get, remove, has, if◌then◌else◌, text_key, ◌==◌,
  Result, ok, err, Err, collect, contains, has-remove, contains-keys, Bool-cases, inl, inr, arith,
  eq_of_beq,
}
use k4e_device_worker.Workload.Secrets.{
  Secret, Podman, put_secret, sync_secrets, remove_secrets, drop_unknown, sync_listed,
  update_secrets,
}

-- The data of a name in the configuration.
abbrev pub configured : List Secret → String → Option String
configured [] j = none
configured (s ∷ rest) j = if s.name == j then some s.data_text else configured rest j

abbrev pub is_configured : List Secret → String → Bool
is_configured [] j = false
is_configured (s ∷ rest) j = (s.name == j) || is_configured rest j

-- No two secrets of the configuration have one name.
abbrev pub HasDistinctNames : List Secret → Type 0
HasDistinctNames [] = Unit
HasDistinctNames (s ∷ rest) = (is_configured rest s.name ≡ false) × HasDistinctNames rest

-- What podman documents of its secrets, `secrets` being what it holds: a call without an error did
-- what it is named for, and a listing has the names that are there.
pub record KeepsSecrets {W : Type 0} (podman : Podman W) (secrets : W → Map String String)
    : Type 0 where
  pub listed :
      (w : W) (device : Map String (Unit {0}))
      → (podman.list_secrets w).0 ≡ ok device
      → (j : String) → has device j ≡ has (secrets (podman.list_secrets w).1) j
  pub created :
      (w : W) (n d : String)
      → (podman.create_secret n d w).0 ≡ none
      → (j : String)
      → get (secrets (podman.create_secret n d w).1) j
        ≡ (if n == j then some d else get (secrets w) j)
  pub updated :
      (w : W) (n d : String)
      → (podman.update_secret n d w).0 ≡ none
      → (j : String)
      → get (secrets (podman.update_secret n d w).1) j
        ≡ (if n == j then some d else get (secrets w) j)
  pub removed :
      (w : W) (n : String)
      → (podman.remove_secret n w).0 ≡ none
      → (j : String)
      → get (secrets (podman.remove_secret n w).1) j ≡ (if n == j then none else get (secrets w) j)

no_error_first : (e : Option Err) (errs : List Err) → collect [] e ++ errs ≡ [] → e ≡ none
no_error_first none errs h = refl
no_error_first (some c) errs h = cc

no_error_rest : (e : Option Err) (errs : List Err) → collect [] e ++ errs ≡ [] → errs ≡ []
no_error_rest none errs h = h
no_error_rest (some c) errs h = cc

-- Taking a name out of a map that may not have it.
has-drop_known :
    (device : Map String (Unit {0})) (n j : String)
    → has (if has device n then remove device n else device) j ≡ (has device j && not (n == j))
has-drop_known device n j = elim (Bool-cases (n == j)) [
  | inl same ↦ ground (arith, has-remove device n j, eq_of_beq n j same)
  | inr other ↦ ground (arith, has-remove device n j)
]

pub not_configured :
    (cs : List Secret) (j : String) → is_configured cs j ≡ false → configured cs j ≡ none
not_configured [] j h = refl
not_configured (s ∷ rest) j h = ground (arith, not_configured rest j)

only_configured :
    (cs : List Secret) (held : Map String String) (j : String)
    → (if has held j && not (is_configured cs j)
        then none
        else (if is_configured cs j then configured cs j else get held j))
      ≡ configured cs j
unfolding has
only_configured cs held j = ground (arith, not_configured cs j)

module _ {W : Type 0} (podman : Podman W) (secrets : W → Map String String)
    (laws : KeepsSecrets podman secrets) where
  put_secret-get :
      (known : Bool) (s : Secret) (w : W)
      → (put_secret podman known s w).0 ≡ none
      → (j : String)
      → get (secrets (put_secret podman known s w).1) j
        ≡ (if s.name == j then some s.data_text else get (secrets w) j)
  put_secret-get true s w = laws.updated w s.name s.data_text
  put_secret-get false s w = laws.created w s.name s.data_text

  -- a name that the rest does not have has the data that it had
  later :
      (s : Secret) (rest : List Secret) (old : Option String) (j : String)
      → is_configured rest s.name ≡ false
      → (if is_configured rest j
          then configured rest j
          else (if s.name == j then some s.data_text else old))
        ≡ (if (s.name == j) || is_configured rest j
            then (if s.name == j then some s.data_text else configured rest j)
            else old)
  later s rest old j h = elim (Bool-cases (s.name == j)) [
    | inl same ↦ rw (sym (ap (is_configured rest) (eq_of_beq s.name j same)) ∙ h, same)
    | inr other ↦ rw other
  ]

  sync_secrets-get :
      (cs : List Secret) (device : Map String (Unit {0})) (w : W)
      → HasDistinctNames cs
      → (sync_secrets podman cs device w).0 ≡ []
      → (j : String)
      → get (secrets (sync_secrets podman cs device w).2) j
        ≡ (if is_configured cs j then configured cs j else get (secrets w) j)
  unfolding sync_secrets
  sync_secrets-get [] device w distinct h j = refl
  sync_secrets-get (s ∷ rest) device w (fresh, distinct) h j =
      let known = has device s.name in
      let device' : Map String (Unit {0}) = if known then remove device s.name else device in
      let step = put_secret podman known s w in
      sync_secrets-get rest device' step.1 distinct
        (no_error_rest step.0 (sync_secrets podman rest device' step.1).0 h) j
      ∙ ap (λ o. if is_configured rest j then configured rest j else o)
          (put_secret-get known s w
            (no_error_first step.0 (sync_secrets podman rest device' step.1).0 h) j)
      ∙ later s rest (get (secrets w) j) j fresh

  sync_secrets-has :
      (cs : List Secret) (device : Map String (Unit {0})) (w : W) (j : String)
      → has (sync_secrets podman cs device w).1 j ≡ (has device j && not (is_configured cs j))
  unfolding sync_secrets
  sync_secrets-has [] device w j = ground arith
  sync_secrets-has (s ∷ rest) device w j =
      let known = has device s.name in
      let device' : Map String (Unit {0}) = if known then remove device s.name else device in
      sync_secrets-has rest device' (put_secret podman known s w).1 j
      ∙ ground (arith, has-drop_known device s.name j)

  remove_secrets-get :
      (names : List String) (w : W)
      → (remove_secrets podman names w).0 ≡ []
      → (j : String)
      → get (secrets (remove_secrets podman names w).1) j
        ≡ (if contains j names then none else get (secrets w) j)
  unfolding remove_secrets
  remove_secrets-get [] w h j = refl
  remove_secrets-get (n ∷ rest) w h j =
      let step = podman.remove_secret n w in
      remove_secrets-get rest step.1 (no_error_rest step.0 (remove_secrets podman rest step.1).0 h)
        j
      ∙ ground (
        arith,
        laws.removed w n (no_error_first step.0 (remove_secrets podman rest step.1).0 h) j,
      )

  drop_unknown-get :
      (cs : List Secret) (device : Map String (Unit {0})) (w : W)
      → HasDistinctNames cs
      → ((j : String) → has device j ≡ has (secrets w) j)
      → (drop_unknown podman (sync_secrets podman cs device w)).0 ≡ []
      → (j : String)
      → get (secrets (drop_unknown podman (sync_secrets podman cs device w)).1) j ≡ configured cs j
  unfolding drop_unknown
  drop_unknown-get cs device w distinct listed h j =
      let synced = sync_secrets podman cs device w in
      let dropped = remove_secrets podman (keys synced.1) synced.2 in
      remove_secrets-get (keys synced.1) synced.2 (nil_right synced.0 dropped.0 h) j
      ∙ rw
          (
            contains-keys synced.1 j,
            sync_secrets-has cs device w j,
            listed j,
            sync_secrets-get cs device w distinct (nil_left synced.0 dropped.0 h) j,
          )
          (only_configured cs (secrets w) j)

  sync_listed-get :
      (cs : List Secret) (w : W) (listing : Result (Map String (Unit {0})) × W)
      → HasDistinctNames cs
      → ((device : Map String (Unit {0}))
          → listing.0 ≡ ok device
          → (j : String) → has device j ≡ has (secrets listing.1) j)
      → (sync_listed podman cs listing).0 ≡ []
      → (j : String) → get (secrets (sync_listed podman cs listing).1) j ≡ configured cs j
  unfolding sync_listed
  sync_listed-get cs w (err e, w') distinct listed h j = cc
  sync_listed-get cs w (ok device, w') distinct listed h j =
      drop_unknown-get cs device w' distinct (listed device refl) h j

  -- An update of the secrets without an error leaves podman with the secrets of the configuration
  -- and no others, if no two of them have one name and podman does what it documents.
  pub update_secrets-configured :
      (cs : List Secret) (w : W)
      → HasDistinctNames cs
      → (update_secrets podman cs w).0 ≡ []
      → (j : String) → get (secrets (update_secrets podman cs w).1) j ≡ configured cs j
  unfolding update_secrets
  update_secrets-configured cs w distinct h j =
      sync_listed-get cs w (podman.list_secrets w) distinct (laws.listed w) h j

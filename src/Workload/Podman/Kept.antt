-- ===== src/Workload/Podman/Kept.antt =====
-- What the secrets and the pods of podman are after calls of the client.
use k4e_device_worker.Prelude.{
  ◌≡◌, refl, sym, ap, ◌∙◌, Bool, true, false, ◌||◌, Option, none, some, List, [], ◌∷◌, String, Map,
  get, has, put, if◌then◌else◌, text_key, ◌==◌, Result, ok, err, Err, contains, has-put, arith,
  Exec, continue, pure, check_state, check_ok, Bool-cases, inl, inr, eq_of_beq,
}
use k4e_device_worker.Workload.Podman.{
  Bindings, list_secrets, name_set, create_secret, create_after, remove_secret, update_secret,
  exists, remove, remove_if,
}
use k4e_device_worker.Workload.Secrets.{Podman, Secret, update_secrets}
use k4e_device_worker.Workload.Secrets.Synced.{
  KeepsSecrets, HasDistinctNames, configured, update_secrets-configured,
}

-- The client's calls, as the update of the secrets makes them.
abbrev pub client : {W : Type 0} → Bindings W → Podman W
client bindings = record {
  list_secrets = list_secrets bindings;
  create_secret = create_secret bindings;
  update_secret = update_secret bindings;
  remove_secret = remove_secret bindings;
}

-- What podman's API documents of secrets, `secrets` being what podman holds. It has no call that
-- changes a secret.
pub record HoldsSecrets {W : Type 0} (bindings : Bindings W) (secrets : W → Map String String)
    : Type 0 where
  pub listed :
      (w : W) (names : List String)
      → (bindings.list_secrets w).0 ≡ ok names
      → (j : String) → contains j names ≡ has (secrets (bindings.list_secrets w).1) j
  pub created :
      (w : W) (n d : String)
      → (bindings.create_secret n d w).0 ≡ none
      → (j : String)
      → get (secrets (bindings.create_secret n d w).1) j
        ≡ (if n == j then some d else get (secrets w) j)
  pub refused :
      (w : W) (n d : String) (e : Err)
      → (bindings.create_secret n d w).0 ≡ some e
      → secrets (bindings.create_secret n d w).1 ≡ secrets w
  pub removed :
      (w : W) (n : String)
      → (bindings.remove_secret n w).0 ≡ none
      → (j : String)
      → get (secrets (bindings.remove_secret n w).1) j
        ≡ (if n == j then none else get (secrets w) j)

name_set-has :
    {W : Type 0} (bindings : Bindings W) (names : List String) (m : Map String (Unit {0}))
    (j : String)
    → has (name_set bindings names m) j ≡ (contains j names || has m j)
unfolding name_set
name_set-has bindings [] m j = refl
name_set-has bindings (n ∷ rest) m j =
    name_set-has bindings rest (put m n tt) j ∙ ground (arith, has-put m n j tt)

abbrev listed_names : {W : Type 0} → Bindings W → List String → Exec W (Map String (Unit {0}))
listed_names bindings names = pure (name_set bindings names [])

abbrev map_of : Result (Map String (Unit {0})) → Map String (Unit {0})
map_of (ok m) = m
map_of (err e) = []

module _ {W : Type 0} (bindings : Bindings W) (secrets : W → Map String String)
    (laws : HoldsSecrets bindings secrets) where
  listing_has :
      (x : Result (List String) × W)
      → ((names : List String)
          → x.0 ≡ ok names
          → (j : String) → contains j names ≡ has (secrets x.1) j)
      → (device : Map String (Unit {0})) → (continue x.0 x.1 (listed_names bindings)).0 ≡ ok device
      → (j : String) → has device j ≡ has (secrets (continue x.0 x.1 (listed_names bindings)).1) j
  unfolding has get
  listing_has (err e, w) listed device h j = cc
  listing_has (ok names, w) listed device h j =
      sym (ap (λ r. has (map_of r) j) h)
      ∙ (name_set-has bindings names [] j ∙ ground (arith, listed names refl j))

  list_secrets-has :
      (w : W) (device : Map String (Unit {0}))
      → (list_secrets bindings w).0 ≡ ok device
      → (j : String) → has device j ≡ has (secrets (list_secrets bindings w).1) j
  unfolding list_secrets
  list_secrets-has w = listing_has (bindings.list_secrets w) (laws.listed w)

  create_after-get :
      (n d : String) (x : Option Err × W) (old : Option String) (j : String)
      → (create_after bindings n d x).0 ≡ none
      → (x.0 ≡ none → get (secrets x.1) j ≡ (if n == j then none else old))
      → get (secrets (create_after bindings n d x).1) j ≡ (if n == j then some d else old)
  unfolding create_after create_secret
  create_after-get n d (some e, w) old j h before = cc
  create_after-get n d (none, w) old j h before =
      ground (arith, laws.created w n d h j, before refl)

  -- A client of bindings that do what podman documents keeps the secrets as an update of all of them
  -- relies on: the removal and the creation that stand for a change together change one secret.
  pub client-KeepsSecrets : KeepsSecrets (client bindings) secrets
  unfolding update_secret create_secret remove_secret
  client-KeepsSecrets = record {
    listed = list_secrets-has;
    created = laws.created;
    updated = λ w n d h j.
        create_after-get n d (bindings.remove_secret n w) (get (secrets w) j) j h
          (λ r. laws.removed w n r j);
    removed = laws.removed;
  }

  -- With podman's client, an update of the secrets without an error leaves podman with the secrets
  -- of the configuration and no others, if no two of them have one name and podman's API does what
  -- it documents.
  pub update_secrets-client :
      (cs : List Secret) (w : W)
      → HasDistinctNames cs
      → (update_secrets (client bindings) cs w).0 ≡ []
      → (j : String) → get (secrets (update_secrets (client bindings) cs w).1) j ≡ configured cs j
  update_secrets-client = update_secrets-configured (client bindings) secrets client-KeepsSecrets

  create_after_lost :
      (n d : String) (x : Option Err × W) (e : Err)
      → x.0 ≡ none
      → (bindings.create_secret n d x.1).0 ≡ some e
      → get (secrets x.1) n ≡ none
      → ((create_after bindings n d x).0 ≡ some e)
        × (get (secrets (create_after bindings n d x).1) n ≡ none)
  unfolding create_after create_secret
  create_after_lost n d (some c, w) e h failed gone = cc
  create_after_lost n d (none, w) e h failed gone =
      (failed, ap (λ s. get s n) (laws.refused w n d e failed) ∙ gone)

  -- A change of a secret whose removal goes well and whose creation fails reports the error of the
  -- creation and leaves podman without the secret: the data of before is not put back.
  pub update_secret_lost :
      (n d : String) (w : W) (e : Err)
      → (bindings.remove_secret n w).0 ≡ none
      → (bindings.create_secret n d (bindings.remove_secret n w).1).0 ≡ some e
      → ((update_secret bindings n d w).0 ≡ some e)
        × (get (secrets (update_secret bindings n d w).1) n ≡ none)
  unfolding update_secret remove_secret
  update_secret_lost n d w e h failed =
      create_after_lost n d (bindings.remove_secret n w) e h failed
        (ground (arith, laws.removed w n h n, text_key.same_iff n n))

-- What podman documents of pods: `exists` tells which there are, and a removal without an error
-- leaves a pod out.
pub record HoldsPods {W : Type 0} (bindings : Bindings W) (is_there : W → String → Bool)
    : Type 0 where
  pub told :
      (w : W) (id : String) (b : Bool) → (bindings.pod_exists id w).0 ≡ ok b → b ≡ is_there w id
  pub asked : (w : W) (id j : String) → is_there (bindings.pod_exists id w).1 j ≡ is_there w j
  pub removed :
      (w : W) (id : String)
      → (bindings.remove_pod id w).0 ≡ none
      → (j : String)
      → is_there (bindings.remove_pod id w).1 j ≡ (if id == j then false else is_there w j)

module _ {W : Type 0} (bindings : Bindings W) (is_there : W → String → Bool)
    (laws : HoldsPods bindings is_there) where
  remove_if-gone :
      (id : String) (b : Bool) (w : W)
      → b ≡ is_there w id
      → (remove_if bindings id b w).0 ≡ ok tt
      → (j : String)
      → is_there (remove_if bindings id b w).1 j ≡ (if id == j then false else is_there w j)
  unfolding remove_if
  remove_if-gone id true w same h j =
      ap (λ v. is_there v j) (check_state (bindings.remove_pod id) w)
      ∙ laws.removed w id (check_ok (bindings.remove_pod id) w h) j
  remove_if-gone id false w same h j = elim (Bool-cases (id == j)) [
    | inl hit ↦ rw hit (ap (is_there w) (sym (eq_of_beq id j hit)) ∙ sym same)
    | inr miss ↦ rw miss
  ]

  asked_gone :
      (id : String) (w : W) (x : Result Bool × W)
      → ((b : Bool) → x.0 ≡ ok b → b ≡ is_there w id)
      → ((j : String) → is_there x.1 j ≡ is_there w j)
      → (continue x.0 x.1 (remove_if bindings id)).0 ≡ ok tt
      → (j : String)
      → is_there (continue x.0 x.1 (remove_if bindings id)).1 j
        ≡ (if id == j then false else is_there w j)
  asked_gone id w (err e, v) told same h j = cc
  asked_gone id w (ok b, v) told same h j =
      remove_if-gone id b v (told b refl ∙ sym (same id)) h j
      ∙ ap (λ y. if id == j then false else y) (same j)

  -- A removal without an error leaves exactly the other pods, whether the pod was there or not, if
  -- podman tells which pods there are and removes the one that it is told to.
  pub remove-gone :
      (id : String) (w : W)
      → (remove bindings id w).0 ≡ ok tt
      → (j : String)
      → is_there (remove bindings id w).1 j ≡ (if id == j then false else is_there w j)
  unfolding remove exists
  remove-gone id w = asked_gone id w (bindings.pod_exists id w) (laws.told w id) (laws.asked w id)

-- ===== src/Workload/Reconcile/Stale.antt =====
-- Which workloads are left after an update.
use k4e_device_worker.Prelude.{
  contains-keys, nil_left, nil_right, ◌≡◌, refl, sym, ap, ◌∙◌, Bool, true, false, ◌&&◌, not, List,
  [], ◌∷◌, ◌++◌, String, Map, contains, keys, has, get, put, if◌then◌else◌, ◌==◌, text_key, Result,
  ok, err, Err, error_of, ◌⧺◌, ◌||◌, collect, Bool-cases, inl, inr, arith, eq_of_beq, has-put,
}
use k4e_device_worker.Workload.Pods.{Dirs, workload_dir_path}
use k4e_device_worker.Workload.Secrets.{update_secrets}
use k4e_device_worker.Workload.Manager.{Env, Manager, Config, deploy_all}
use k4e_device_worker.Workload.Reconcile.{
  names_of, index_names, prefixed, remove_one, remove_stale, remove_listed, clean_up, reconcile,
  update,
}

-- What the wrapper documents of the workloads on the device, `deployed` being their names: a listing
-- has every one, and one that was removed without an error is gone. A directory is no workload.
pub record KeepsWorkloads {W X : Type 0} (env : Env W X) (deployed : W → List String) : Type 0 where
  pub listed :
      (w : W) (names : List String)
      → (env.list w).0 ≡ ok names
      → (j : String) → contains j names ≡ contains j (deployed (env.list w).1)
  pub removed :
      (name : String) (w : W)
      → (env.remove name w).0 ≡ ok tt
      → (j : String)
      → contains j (deployed (env.remove name w).1)
        ≡ (if name == j then false else contains j (deployed w))
  pub dir_removed :
      (dir : String) (w : W) (j : String)
      → contains j (deployed (env.remove_all dir w).1) ≡ contains j (deployed w)

module _ {W X : Type 0} (env : Env W X) (dirs : Dirs) (deployed : W → List String)
    (laws : KeepsWorkloads env deployed) where
  some_error : {A : Type 0} (es : List Err) (e : Err) → es ++ e ∷ [] ≡ [] → A
  some_error [] e h = cc
  some_error (x ∷ xs) e h = cc

  no_last_error :
      (p : Err) (es : List Err) (r : Result (Unit {0}))
      → collect es (prefixed p (error_of r)) ≡ []
      → r ≡ ok tt
  no_last_error p es (ok a) h = refl
  no_last_error p es (err e) h = some_error es (p ⧺ e) h

  remove_one_gone :
      (name : String) (w : W)
      → (remove_one env dirs name w).0 ≡ []
      → (j : String)
      → contains j (deployed (remove_one env dirs name w).1)
        ≡ (if name == j then false else contains j (deployed w))
  unfolding remove_one
  remove_one_gone name w h j =
      let dir = env.remove_all (workload_dir_path dirs name) w in
      laws.removed name dir.1
        (no_last_error ("cannot remove stale workload name='" ⧺ (name ⧺ "': "))
          (collect [] (prefixed "cannot remove existing workload directory: " dir.0))
          (env.remove name dir.1).0 h)
        j
      ∙ rw (laws.dir_removed (workload_dir_path dirs name) w j)

  known_kept :
      (name j : String) (configured rest : List String) (there : Bool)
      → contains name configured ≡ true
      → (if contains j rest && not (contains j configured) then false else there)
        ≡ (if (name == j || contains j rest) && not (contains j configured) then false else there)
  known_kept name j configured rest there known = elim (Bool-cases (name == j)) [
    | inl same ↦
        rw (same, sym (ap (λ n. contains n configured) (eq_of_beq name j same)) ∙ known)
          (ground arith)
    | inr other ↦ rw other
  ]

  unknown_gone :
      (name j : String) (configured rest : List String) (there : Bool)
      → contains name configured ≡ false
      → (if contains j rest && not (contains j configured)
          then false
          else (if name == j then false else there))
        ≡ (if (name == j || contains j rest) && not (contains j configured) then false else there)
  unknown_gone name j configured rest there unknown = elim (Bool-cases (name == j)) [
    | inl same ↦
        rw (same, sym (ap (λ n. contains n configured) (eq_of_beq name j same)) ∙ unknown)
          (ground arith)
    | inr other ↦ rw other
  ]

  remove_stale_left :
      (configured names : List String) (w : W)
      → (remove_stale env dirs configured names w).0 ≡ []
      → (j : String)
      → contains j (deployed (remove_stale env dirs configured names w).1) ≡ (
          if contains j names && not (contains j configured)
          then false
          else contains j (deployed w))
  unfolding remove_stale
  remove_stale_left configured [] w h j = refl
  remove_stale_left configured (name ∷ rest) w h j = elim (Bool-cases (contains name configured)) [
    | inl known ↦ rw known (
        let h' : (remove_stale env dirs configured rest w).0 ≡ [] = sym (rw known) ∙ h in
        remove_stale_left configured rest w h' j
        ∙ known_kept name j configured rest (contains j (deployed w)) known)
    | inr unknown ↦ rw unknown (
        let one = remove_one env dirs name w in
        let h' : one.0 ++ (remove_stale env dirs configured rest one.1).0 ≡ [] =
          sym (rw unknown) ∙ h in
        remove_stale_left configured rest one.1
          (nil_right one.0 (remove_stale env dirs configured rest one.1).0 h') j
        ∙ (rw
            (remove_one_gone name w
              (nil_left one.0 (remove_stale env dirs configured rest one.1).0 h') j)
            (unknown_gone name j configured rest (contains j (deployed w)) unknown)))
  ]

  contains-index_names :
      (names : List String) (m : Map String (Unit {0})) (j : String)
      → contains j (keys (index_names names m)) ≡ (contains j names || has m j)
  unfolding index_names
  contains-index_names [] m j = contains-keys m j
  contains-index_names (n ∷ rest) m j =
      contains-index_names rest (put m n tt) j ∙ ground (arith, has-put m n j tt)

  has-nil : (j : String) → has {V = Unit {0}} [] j ≡ false
  unfolding has get
  has-nil j = refl

  or_none : (a : Bool) {b : Bool} → b ≡ false → (a || b) ≡ a
  or_none a h = ground arith

  must_be_configured :
      (c d conf : Bool) → c ≡ d → (if c && not conf then false else d) ≡ true → conf ≡ true
  must_be_configured c d conf same h = ground arith

  remove_listed_left :
      (configured : List String) (x : Result (List String) × W)
      → (remove_listed env dirs configured x).0 ≡ []
      → ((names : List String)
          → x.0 ≡ ok names
          → (j : String) → contains j names ≡ contains j (deployed x.1))
      → (j : String) → contains j (deployed (remove_listed env dirs configured x).1) ≡ true
      → contains j configured ≡ true
  unfolding remove_listed
  remove_listed_left configured (err e, w) h all j left = cc
  remove_listed_left configured (ok names, w) h all j left =
      let listed = keys (index_names names []) in
      must_be_configured (contains j listed) (contains j (deployed w)) (contains j configured)
        (contains-index_names names [] j
          ∙ rw (all names refl j) (or_none (contains j (deployed w)) (has-nil j)))
        (sym (remove_stale_left configured listed w h j) ∙ left)

  -- An update without errors, by a manager that was not deregistered, leaves no workload on the device
  -- that is not in the configuration, if a listing without an error has exactly the workloads of the
  -- device, one that was removed without an error is gone, the removal of one adds no other, and the
  -- removal of a directory removes or adds none.
  pub update-configured :
      (config : Config) (m : Manager) (w : W)
      → m.deregistered ≡ false
      → (update env dirs config (m, w)).0 ≡ []
      → (j : String) → contains j (deployed (update env dirs config (m, w)).1.1) ≡ true
      → contains j (names_of config.workloads) ≡ true
  unfolding update reconcile clean_up
  update-configured config m w running h j left =
      let secrets = update_secrets env.podman config.secrets w in
      let all = deploy_all env dirs config.workloads secrets.0 (m, secrets.1) in
      let names = names_of config.workloads in
      let h' : all.0 ++ (clean_up env dirs names all.1.1).0 ≡ [] = sym (rw running) ∙ h in
      let left' : contains j (deployed (clean_up env dirs names all.1.1).1) ≡ true =
        sym (rw running) ∙ left in
      remove_listed_left names (env.list all.1.1)
        (nil_right all.0 (clean_up env dirs names all.1.1).0 h') (laws.listed all.1.1) j left'
